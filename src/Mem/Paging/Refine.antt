-- ===== src/Mem/Paging/Refine.antt =====
-- The page tables implement an address space: a function from the number of a page to its entry.
use aexkernel.Base.{
  ℕ, ◌+◌, ◌*◌, ◌%◌, ◌≤◌, ◌<◌, ◌≡◌, ◌≢◌, refl, sym, ap, ◌∙◌, true, false, ◌||◌, Option, none, some,
  List, [], ◌∷◌, ◌==◌, ==_refl, ==_ne, if◌then◌else◌, length, ltb, map, arith,
}
use native.Mathlib.Decide.{ℕ_discrete}
use aexkernel.Mem.Paging.{
  Memory, Pagemap, masked, write_word, index_12, walk, levels, find_table, find_table_ensure,
  ensure_loop, assign, unassign, dropped, rawof, paddrof,
}
use aexkernel.Mem.Paging.Flags.{with_flags-add}
use aexkernel.Mem.Paging.Tree.{Owner, IsTree, leaf, part}
use aexkernel.Mem.Paging.Walk.{Apart, word-write_self, word-write_ne}
use aexkernel.Mem.Paging.Ensure.{LeadsTo, leaf-LeadsTo, Reached, ensure_loop-Reached}
use aexkernel.Mem.Paging.Entries.{
  IsTree-write, LeadsTo-write, leaf-write_ne, indices, page_number, page_number-part,
  indices-Indices, indices-masked, index_12-masked, same_indices, rawof-leaf,
}

-- An address space has an entry for each page; tables implement it where `rawof` gives its entries.
abbrev pub AddressSpace : Type 0
AddressSpace = ℕ → ℕ

abbrev pub Implements : Memory → Pagemap → AddressSpace → Type 0
Implements m p a = (va : ℕ) → rawof m p va ≡ a (page_number va)

abbrev pub put_entry : AddressSpace → ℕ → ℕ → AddressSpace
put_entry a n v k = if k == n then v else a k

no_table : (g t : ℕ) (owner : Owner) {o : ℕ × ℕ} → owner g ≡ none → owner t ≡ some o → g ≢ t
no_table g t owner n q e = cc

-- The table for an address is made, or found; then its entry is written.
pub record Written (m : Memory) (owner : Owner) (p : Pagemap) (va v : ℕ) : Type 0 where
  pub tables : Memory
  pub table : ℕ
  pub ensured : find_table_ensure m p.page_root (masked va) ≡ some (tables, table)
  pub before : tables.word table (index_12 (masked va)) ≡ rawof m p va
  pub owner' : Owner
  pub tree : IsTree (write_word tables table (index_12 (masked va)) v) owner' p.page_root
  pub used : length m.frames ≤ length tables.frames + 3
  pub same_freed : tables.freed ≡ m.freed
  pub apart : Apart owner m owner' (write_word tables table (index_12 (masked va)) v)
  pub implements :
      (a : AddressSpace)
      → Implements m p a
      → Implements
          (write_word tables table (index_12 (masked va)) v)
          p
          (put_entry a (page_number va) v)

Implements-write :
    (m : Memory) (owner : Owner) (p : Pagemap) (va v : ℕ) (m₁ : Memory) (t : ℕ)
    → IsTree m owner p.page_root
    → Reached m owner p.page_root p.page_root 0 0 (indices va) m₁ t
    → (a : AddressSpace) → Implements m p a
    → Implements (write_word m₁ t (index_12 (masked va)) v) p (put_entry a (page_number va) v)
Implements-write m owner p va v m₁ t tr r a h va' =
    rawof-leaf m' p va' ∙ elim (ℕ_discrete (page_number va') (page_number va)) [
      | yes e ↦
          let (same, last) = same_indices va va' e in
          ap (λ is. leaf m' p.page_root is (index_12 va')) same
          ∙ leaf-LeadsTo m' p.page_root (indices va) t (index_12 va') (
              LeadsTo-write m₁ r.owner' p.page_root t (part 0 (indices va)) i v r.tree r.owned
                p.page_root 0 0 (indices va) t r.tree.rooted refl (indices-Indices va) r.path)
          ∙ ap (m'.word t) last
          ∙ word-write_self m₁ t i v
          ∙ sym (ap (λ b. if b then v else a (page_number va')) (written e))
      | no n ↦
          leaf-write_ne m₁ r.owner' p.page_root t (part 0 (indices va)) i v r.tree r.owned
            p.page_root 0 0 (indices va') (index_12 va') r.tree.rooted refl (indices-Indices va')
            (λ x y. n (same_page x y))
          ∙ r.same p.page_root 0 0 (indices va') (index_12 va') tr.rooted refl (indices-Indices va')
          ∙ sym (rawof-leaf m p va')
          ∙ h va'
          ∙ sym (
              ap (λ b. if b then v else a (page_number va'))
                (==_ne (page_number va') (page_number va) n))
    ]
  where
    i : ℕ
    i = index_12 (masked va)

    m' : Memory
    m' = write_word m₁ t i v

    written : page_number va' ≡ page_number va → (page_number va' == page_number va) ≡ true
    written e = rw e (==_refl (page_number va))

    same_page :
        part 0 (indices va') ≡ part 0 (indices va)
        → index_12 va' ≡ i
        → page_number va' ≡ page_number va
    same_page x y =
        page_number-part va'
        ∙ ap (λ z. z * 512 + index_12 va') x
        ∙ ap (λ z. part 0 (indices va) * 512 + z) (y ∙ index_12-masked va)
        ∙ sym (page_number-part va)

pub find_table_ensure-Written :
    (m : Memory) (owner : Owner) (p : Pagemap) (va v : ℕ)
    → IsTree m owner p.page_root
    → 3 ≤ length m.frames
    → Written m owner p va v
unfolding find_table_ensure
find_table_ensure-Written m owner p va v tr spare =
    let (m₁, t, q, r) =
      ensure_loop-Reached m owner p.page_root p.page_root 0 0 (indices va) tr tr.rooted refl
        (indices-Indices va) spare in
    let i = index_12 (masked va) in
    let here = index_12-masked va in
    record {
      tables = m₁;
      table = t;
      ensured = ap (λ is. ensure_loop m p.page_root is) (indices-masked va) ∙ q;
      before =
          ap (m₁.word t) here
          ∙ sym (leaf-LeadsTo m₁ p.page_root (indices va) t (index_12 va) r.path)
          ∙ r.same p.page_root 0 0 (indices va) (index_12 va) tr.rooted refl (indices-Indices va)
          ∙ sym (rawof-leaf m p va);
      owner' = r.owner';
      tree = IsTree-write m₁ r.owner' p.page_root t (part 0 (indices va)) i v r.tree r.owned;
      used = r.used;
      same_freed = r.same_freed;
      apart = λ g x.
          let ((none', out), same) = r.apart g x in
          (
            (none', out),
            λ j. word-write_ne m₁ t i v g j (λ e _. no_table g t r.owner' none' r.owned e) ∙ same j,
          );
      implements = λ a b. Implements-write m owner p va v m₁ t tr r a b;
    }

-- What an operation on the tables has done to the address space `a`.
pub record Now (m : Memory) (owner : Owner) (p : Pagemap) (a : AddressSpace) (taken : ℕ)
    (m' : Memory) : Type 0 where
  pub owner' : Owner
  pub tree : IsTree m' owner' p.page_root
  pub implements : Implements m' p a
  pub apart : Apart owner m owner' m'
  pub used : length m.frames ≤ length m'.frames + taken

-- `assign` of flags below 4096, with three frames left, does not panic, keeps the tables a tree, and refines the address
-- space's operation: the tables then implement the space with the page's entry put, and no other.
pub assign-Implements :
    (m : Memory) (owner : Owner) (p : Pagemap) (a : AddressSpace) (va pa flags : ℕ)
    → IsTree m owner p.page_root
    → Implements m p a
    → 3 ≤ length m.frames
    → flags < 4096
    → (m' : Memory) × (assign m p va pa flags ≡ some m')
      × Now m owner p (put_entry a (page_number va) (masked pa + flags)) 3 m'
unfolding assign
assign-Implements m owner p a va pa flags tr h spare low =
    let w = find_table_ensure-Written m owner p va (masked pa + flags) tr spare in
    (
      write_word w.tables w.table (index_12 (masked va)) (masked pa + flags),
      rw (w.ensured, with_flags-add pa flags low, assign) refl,
      record {
        owner' = w.owner';
        tree = w.tree;
        implements = w.implements a h;
        apart = w.apart;
        used = w.used;
      },
    )

-- `unassign` of an address within the bounds, with three frames left, gives the frame that the page's
-- entry had of its own, or 0, and refines the address space's operation: the page's entry is 0, and
-- every other is as it was.
pub unassign-Implements :
    (m : Memory) (owner : Owner) (p : Pagemap) (a : AddressSpace) (va : ℕ)
    → IsTree m owner p.page_root
    → Implements m p a
    → 3 ≤ length m.frames
    → p.vstart ≤ va
    → va ≤ p.vend
    → (m' : Memory) × (unassign m p va ≡ some (m', dropped (a (page_number va))))
      × Now m owner p (put_entry a (page_number va) 0) 3 m'
      × (m'.freed ≡ m.freed)
unfolding unassign
unassign-Implements m owner p a va tr h spare low high =
    let w = find_table_ensure-Written m owner p va 0 tr spare in
    (
      write_word w.tables w.table (index_12 (masked va)) 0,
      rw (in_bounds, w.ensured, unassign)
          (ap (λ e. some (write_word w.tables w.table (index_12 (masked va)) 0, dropped e))
            (w.before ∙ h va)),
      record {
        owner' = w.owner';
        tree = w.tree;
        implements = w.implements a h;
        apart = w.apart;
        used = w.used;
      },
      w.same_freed,
    )
  where
    in_bounds : (ltb va p.vstart || ltb p.vend va) ≡ false
    in_bounds = ground (arith, low, high)

walk-LeadsTo :
    (m : Memory) (f : ℕ) (js : List (ℕ × ℕ)) (t : ℕ)
    → LeadsTo m f (map (λ j. j.0) js) t
    → (walk m f js).0 ≡ some t
unfolding walk
walk-LeadsTo m f [] t q = ap some q
walk-LeadsTo m f ((j, skip) ∷ js) t (n, q) =
    rw (==_ne (m.word f j) 0 n) (walk-LeadsTo m (masked (m.word f j)) js t q)

-- The table for an address is made, or found, and no entry is written.
pub find_table_ensure-Now :
    (m : Memory) (owner : Owner) (p : Pagemap) (a : AddressSpace) (va : ℕ)
    → IsTree m owner p.page_root
    → Implements m p a
    → 3 ≤ length m.frames
    → va % 4096 ≡ 0
    → (m' : Memory) × (t : ℕ) × (find_table_ensure m p.page_root va ≡ some (m', t))
      × ((find_table m' p.page_root va).0 ≡ some t)
      × Now m owner p a 3 m'
unfolding find_table_ensure find_table
find_table_ensure-Now m owner p a va tr h spare aligned =
    let (m₁, t, q, r) =
      ensure_loop-Reached m owner p.page_root p.page_root 0 0 (indices va) tr tr.rooted refl
        (indices-Indices va) spare in
    (
      m₁,
      t,
      q,
      walk-LeadsTo m₁ p.page_root (levels va) t r.path,
      record {
        owner' = r.owner';
        tree = r.tree;
        implements = λ va'.
            rawof-leaf m₁ p va'
            ∙ r.same p.page_root 0 0 (indices va') (index_12 va') tr.rooted refl
                (indices-Indices va')
            ∙ sym (rawof-leaf m p va')
            ∙ h va';
        apart = r.apart;
        used = r.used;
      },
    )

-- `paddrof` gives the address in the frame of the page's entry, or 0 where there is none.
pub paddrof-Implements :
    (m : Memory) (p : Pagemap) (a : AddressSpace) (va : ℕ)
    → Implements m p a
    → paddrof m p va
      ≡ (if masked (a (page_number va)) == 0 then 0 else masked (a (page_number va)) + va % 4096)
unfolding paddrof rawof
paddrof-Implements m p a va h =
    found (find_table m p.page_root (masked va)).0
    ∙ ap (λ e. if masked e == 0 then 0 else masked e + va % 4096) (h va)
  where
    found :
        (T : Option ℕ)
        → elim T [
          | none ↦ 0
          | some t ↦
              if masked (m.word t (index_12 va)) == 0
              then 0
              else masked (m.word t (index_12 va)) + va % 4096
        ]
          ≡ (let e : ℕ = elim T [ none ↦ 0 | some t ↦ m.word t (index_12 va) ] in
              if masked e == 0 then 0 else masked e + va % 4096)
    found none = refl
    found (some t) = refl

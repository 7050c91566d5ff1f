-- ===== src/Mem/Paging/Areas/Free.antt =====
-- `free` clears the entries for its pages, and gives back the frames that they had.
use aexkernel.Base.{
  ℕ, zero, suc, ◌+◌, ◌*◌, ◌^◌, ◌≤◌, ◌<◌, ◌≡◌, refl, sym, ap, ◌∙◌, Bool, true, false, ◌&&◌, not, inl,
  inr, some, List, [], ◌∷◌, ◌++◌, ◌==◌, ==_refl, ==_ne, Bool-cases, if◌then◌else◌, length,
  append-nil, append_assoc, arith,
}
use mathlib.Core.Path.{subst}
use native.Mathlib.Decide.{ℕ_discrete}
use aexkernel.Mem.Phys.{ceiltopg}
use aexkernel.Mem.Paging.{
  Memory, Pagemap, masked, arbitrary_entry, is_nophys, fill, unassign, dropped, rawof,
}
use aexkernel.Mem.Paging.Tree.{Owner, IsTree}
use aexkernel.Mem.Paging.Walk.{Aside}
use aexkernel.Mem.Paging.Entries.{page_number}
use aexkernel.Mem.Paging.Refine.{AddressSpace, Implements, put_entry, unassign-Implements}
use aexkernel.Mem.Paging.Areas.{wrap, poison, free_phys, free_pages, free}
use aexkernel.Mem.Paging.Areas.Fill.{same-Now, no_table}

-- The entry has a frame of its own.
abbrev pub has_frame : ℕ → Bool
has_frame e = not (e == 0) && not (masked e == arbitrary_entry) && not (is_nophys e)

-- No entry's own frame is a table's, or to be given.
abbrev pub AreOwn : Memory → Owner → AddressSpace → Type 0
AreOwn m owner a = (n : ℕ) → has_frame (a n) ≡ true → Aside owner m.frames (masked (a n))

-- The address space without `k` pages from `vaddr` on.
pub clear_run : AddressSpace → ℕ → ℕ → AddressSpace
clear_run a vaddr zero = a
clear_run a vaddr (suc k) = clear_run (put_entry a (page_number vaddr) 0) (wrap (vaddr + 4096)) k

-- The frames of those pages, in their order.
unfoldable pub frames_run : AddressSpace → ℕ → ℕ → List ℕ
frames_run a vaddr zero = []
frames_run a vaddr (suc k) =
    let rest = frames_run (put_entry a (page_number vaddr) 0) (wrap (vaddr + 4096)) k in
    if dropped (a (page_number vaddr)) == 0 then rest else dropped (a (page_number vaddr)) ∷ rest

poison-Now :
    (m : Memory) (owner : Owner) (p : Pagemap) (a : AddressSpace) (va : ℕ)
    → IsTree m owner p.page_root
    → Implements m p a
    → AreOwn m owner a
    → IsTree (poison m (a (page_number va))) owner p.page_root
      × Implements (poison m (a (page_number va))) p a
poison-Now m owner p a va tr h own = elim (Bool-cases (has_frame (a (page_number va)))) [
  | inr n ↦ rw n (tr, h)
  | inl y ↦
      let (free, _) = own (page_number va) y in
      rw y (
        same-Now m (fill m (masked (a (page_number va))) 0x5A) owner p a tr h
          (λ f l' k' j q.
            rw
              (==_ne f (masked (a (page_number va)))
                (no_table owner f (masked (a (page_number va))) l' k' q free))
              refl)
          tr.supply)
]

poison-same :
    (m : Memory) (e : ℕ) → ((poison m e).frames ≡ m.frames) × ((poison m e).freed ≡ m.freed)
poison-same m e = elim (Bool-cases (has_frame e)) [
  | inl y ↦ rw y (refl, refl)
  | inr n ↦ rw n (refl, refl)
]

AreOwn-clear :
    (m m' : Memory) (owner owner' : Owner) (a : AddressSpace) (n : ℕ)
    → AreOwn m owner a
    → ((g : ℕ) → Aside owner m.frames g → Aside owner' m'.frames g)
    → AreOwn m' owner' (put_entry a n 0)
AreOwn-clear m m' owner owner' a n own keep x = elim (ℕ_discrete x n) [
  | yes e ↦ rw (e, ==_refl n) none_there
  | no d ↦ rw (==_ne x n d) (λ h. keep (masked (a x)) (own x h))
]
  where
    none_there : false ≡ true → Aside owner' m'.frames (masked 0)
    none_there h = absurd (clash h)
      where
        clash : false ≡ true → ⊥
        clash q = cc

join_one :
    (xs bs : List ℕ) (f : ℕ) (rs : List ℕ) → (xs ++ (bs ++ f ∷ [])) ++ rs ≡ xs ++ (bs ++ f ∷ rs)
join_one xs bs f rs =
    append_assoc xs (bs ++ f ∷ []) rs ∙ ap (λ z. xs ++ z) (append_assoc bs (f ∷ []) rs)

-- What `free` has done: the tables implement the address space without the pages, and the frames that
-- they had are given back, after those that waited.
pub record Freed (m : Memory) (owner : Owner) (p : Pagemap) (a : AddressSpace) (vaddr : ℕ)
    (buff : List ℕ) (k : ℕ) : Type 0 where
  pub m' : Memory
  pub done : free_pages m p vaddr buff k ≡ some m'
  pub owner' : Owner
  pub tree : IsTree m' owner' p.page_root
  pub implements : Implements m' p (clear_run a vaddr k)
  pub freed : m'.freed ≡ m.freed ++ (buff ++ frames_run a vaddr k)

free_pages-round :
    (m : Memory) (p : Pagemap) (vaddr : ℕ) (buff : List ℕ) (k e : ℕ) (m' : Memory) (f : ℕ)
    → rawof m p vaddr ≡ e
    → unassign (poison m e) p vaddr ≡ some (m', f)
    → free_pages m p vaddr buff (suc k) ≡ (
        if f == 0
        then free_pages m' p (wrap (vaddr + 4096)) buff k
        else if length buff + 1 == 256
        then free_pages (free_phys m' (buff ++ f ∷ [])) p (wrap (vaddr + 4096)) [] k
        else free_pages m' p (wrap (vaddr + 4096)) (buff ++ f ∷ []) k)
unfolding free_pages
free_pages-round m p vaddr buff k e m' f q r = rw (q, r, free_pages) refl

after :
    (p : Pagemap) (vaddr k : ℕ)
    → p.vstart ≤ vaddr
    → vaddr + 4096 * suc k ≤ p.vend
    → p.vend < 2 ^ 64
    → (p.vstart ≤ wrap (vaddr + 4096)) × (wrap (vaddr + 4096) + 4096 * k ≤ p.vend)
after p vaddr k low high top = (omega (arith, low, high, top), omega (arith, low, high, top))

free_pages-Freed :
    (m : Memory) (owner : Owner) (p : Pagemap) (a : AddressSpace) (vaddr : ℕ) (buff : List ℕ)
    (k : ℕ)
    → IsTree m owner p.page_root
    → Implements m p a
    → AreOwn m owner a
    → 3 * k ≤ length m.frames
    → p.vstart ≤ vaddr
    → vaddr + 4096 * k ≤ p.vend
    → p.vend < 2 ^ 64
    → Freed m owner p a vaddr buff k
unfolding free_pages clear_run frames_run
free_pages-Freed m owner p a vaddr buff zero tr h own spare low high top =
    let (tree, implements) =
      same-Now m (free_phys m buff) owner p a tr h (λ f l' k' j q. refl) tr.supply in
    record {
      m' = free_phys m buff;
      done = refl;
      owner' = owner;
      tree = tree;
      implements = implements;
      freed = ap (λ z. m.freed ++ z) (sym (append-nil buff));
    }
free_pages-Freed m owner p a vaddr buff (suc k) tr h own spare low high top =
    let e = a (page_number vaddr) in
    let (treep, implementsp) = poison-Now m owner p a vaddr tr h own in
    let (framesp, freedp) = poison-same m e in
    let (m', q, now, quiet) =
      unassign-Implements (poison m e) owner p a vaddr treep implementsp
        (subst (λ fs. 3 ≤ length fs) (sym framesp) (omega (arith, spare))) low
        (omega (arith, high)) in
    let next = wrap (vaddr + 4096) in
    let own' : AreOwn m' now.owner' (put_entry a (page_number vaddr) 0) =
      AreOwn-clear (poison m e) m' owner now.owner' a (page_number vaddr)
        (λ n y. subst (λ fs. Aside owner fs (masked (a n))) (sym framesp) (own n y))
        (λ g x. (now.apart g x).0) in
    let enough : 3 * k ≤ length m'.frames =
      left m' (subst (λ fs. length fs ≤ length m'.frames + 3) framesp now.used) in
    let f = dropped e in
    let a' = put_entry a (page_number vaddr) 0 in
    let step = free_pages-round m p vaddr buff k e m' f (h vaddr) q in
    let same = quiet ∙ freedp in
    let on = after p vaddr k low high top in
    elim (Bool-cases (f == 0)) [
      | inl z ↦
          let r =
            free_pages-Freed m' now.owner' p a' next buff k now.tree now.implements own' enough
              (on.0) (on.1) top in
          record {
            m' = r.m';
            done = step ∙ rw z r.done;
            owner' = r.owner';
            tree = r.tree;
            implements = r.implements;
            freed = r.freed ∙ rw (z, same) refl;
          }
      | inr n ↦ elim (Bool-cases (length buff + 1 == 256)) [
        | inr l ↦
            let r =
              free_pages-Freed m' now.owner' p a' next (buff ++ f ∷ []) k now.tree now.implements
                own' enough (on.0) (on.1) top in
            record {
              m' = r.m';
              done = step ∙ rw (n, l) r.done;
              owner' = r.owner';
              tree = r.tree;
              implements = r.implements;
              freed =
                  r.freed
                  ∙ rw (n, same)
                      (ap (λ z. m.freed ++ z) (append_assoc buff (f ∷ []) (frames_run a' next k)));
            }
        | inl l ↦
            let (tree', implements') =
              same-Now m' (free_phys m' (buff ++ f ∷ [])) now.owner' p a' now.tree now.implements
                (λ g l' k' j x. refl) now.tree.supply in
            let r =
              free_pages-Freed (free_phys m' (buff ++ f ∷ [])) now.owner' p a' next [] k tree'
                implements' own' enough (on.0) (on.1) top in
            record {
              m' = r.m';
              done = step ∙ rw (n, l) r.done;
              owner' = r.owner';
              tree = r.tree;
              implements = r.implements;
              freed = r.freed ∙ rw (n, same) (join_one m.freed buff f (frames_run a' next k));
            }
      ]
    ]
  where
    left : (m' : Memory) → length m.frames ≤ length m'.frames + 3 → 3 * k ≤ length m'.frames
    left m' x = omega (arith, x, spare)

-- `free` of an area within the bounds, where no entry's own frame is a table's or among the frames
-- still to be given, and frames for the tables are left, ends without a panic; it clears the pages of
-- the area and no other, keeps the tables a tree, and gives back the frames of those pages, in order,
-- and no other.
pub free-Freed :
    (m : Memory) (owner : Owner) (p : Pagemap) (a : AddressSpace) (addr bytes : ℕ)
    → IsTree m owner p.page_root
    → Implements m p a
    → AreOwn m owner a
    → 3 * ceiltopg bytes ≤ length m.frames
    → p.vstart ≤ addr
    → addr + 4096 * ceiltopg bytes ≤ p.vend
    → p.vend < 2 ^ 64
    → (m' : Memory) × (owner' : Owner) × (free m p addr bytes ≡ some m')
      × IsTree m' owner' p.page_root
      × Implements m' p (clear_run a addr (ceiltopg bytes))
      × (m'.freed ≡ m.freed ++ frames_run a addr (ceiltopg bytes))
unfolding free
free-Freed m owner p a addr bytes tr h own spare low high top =
    let r = free_pages-Freed m owner p a addr [] (ceiltopg bytes) tr h own spare low high top in
    (r.m', r.owner', r.done, r.tree, r.implements, r.freed)

-- ===== src/Mem/Paging/Areas/Fill.antt =====
-- What `alloc`, `map` and `free` do to the address space.
use aexkernel.Base.{
  ℕ, zero, suc, ◌+◌, ◌*◌, ◌≤◌, ◌<◌, ◌≡◌, ◌≢◌, refl, sym, ap, ◌∙◌, inl, inr, Option, none, some,
  List, [], ◌∷◌, ==_refl, ==_ne, length, All, arith,
}
use mathlib.Core.Path.{subst}
use aexkernel.Mem.Paging.{Memory, Pagemap, masked, phys_alloc, fill, index_12, assign}
use aexkernel.Mem.Paging.Tree.{
  Owner, Supply, IsTree, leaf, leaf-go, leaf-stop, Indices, is_present-ne_zero,
}
use aexkernel.Mem.Paging.Walk.{Aside}
use aexkernel.Mem.Paging.Entries.{page_number, indices, indices-Indices, rawof-leaf}
use aexkernel.Mem.Paging.Refine.{AddressSpace, Implements, Now, put_entry, assign-Implements}
use aexkernel.Mem.Paging.Areas.{wrap, alloc_pages, free}

-- Where the words of the tables are the same, the walks end the same.
leaf-agree :
    (m m' : Memory) (owner : Owner) (root g l k : ℕ) (js : List ℕ) (x : ℕ)
    → IsTree m owner root
    → ((f l' k' j : ℕ) → owner f ≡ some (l', k') → m'.word f j ≡ m.word f j)
    → owner g ≡ some (l, k)
    → l + length js ≡ 3
    → Indices js
    → leaf m' g js x ≡ leaf m g js x
unfolding leaf
leaf-agree m m' owner root g l k [] x tr same og e h = same g l k x og
leaf-agree m m' owner root g l k (j ∷ js) x tr same og e (hj, hs) =
    elim (tr.linked g l k j og (omega (arith, e)) hj) [
      | inl z ↦ leaf-stop m' g j js x (same g l k j og ∙ z) ∙ sym (leaf-stop m g j js x z)
      | inr (q, oc) ↦
          let n = is_present-ne_zero (m.word g j) q in
          leaf-go m' g j js x (λ z. n (sym (same g l k j og) ∙ z))
          ∙ ap (λ w. leaf m' (masked w) js x) (same g l k j og)
          ∙ leaf-agree m m' owner root (masked (m.word g j)) (l + 1) (k * 512 + j) js x tr same oc
              (omega (arith, e)) hs
          ∙ sym (leaf-go m g j js x n)
    ]

-- The tables are what they were where only other frames have changed.
pub same-Now :
    (m m' : Memory) (owner : Owner) (p : Pagemap) (a : AddressSpace)
    → IsTree m owner p.page_root
    → Implements m p a
    → ((f l' k' j : ℕ) → owner f ≡ some (l', k') → m'.word f j ≡ m.word f j)
    → Supply owner m'.frames
    → IsTree m' owner p.page_root × Implements m' p a
same-Now m m' owner p a tr h same supply = (
  record {
    rooted = tr.rooted;
    linked = λ g l k i og hl hi. rw (same g l k i og) (tr.linked g l k i og hl hi);
    supply = supply;
  },
  λ va.
      rawof-leaf m' p va
      ∙ leaf-agree m m' owner p.page_root p.page_root 0 0 (indices va) (index_12 va) tr same
          tr.rooted refl (indices-Indices va)
      ∙ sym (rawof-leaf m p va)
      ∙ h va,
)

pub no_table : (owner : Owner) (g f l k : ℕ) → owner g ≡ some (l, k) → owner f ≡ none → g ≢ f
no_table owner g f l k og free e = clash (sym og ∙ ap owner e ∙ free)
  where
    clash : ◌≡◌ {A = Option (ℕ × ℕ)} (some (l, k)) none → ⊥
    clash q = cc

-- The entries for pages from `vaddr` on, one for each frame.
unfoldable pub put_run : AddressSpace → ℕ → ℕ → List ℕ → AddressSpace
put_run a vaddr flags [] = a
put_run a vaddr flags (n ∷ ns) =
    put_run (put_entry a (page_number vaddr) (masked n + flags)) (wrap (vaddr + 4096)) flags ns

-- Frames that are given out: zeroed, of no table, not to be given again, and each once.
unfoldable pub Given : Memory → Owner → List ℕ → Type 0
Given m owner [] = Unit
Given m owner (n ∷ ns) =
    Aside owner m.frames n × ((j : ℕ) → m.word n j ≡ 0) × All (λ x. x ≢ n) ns × Given m owner ns

-- `alloc_pages` with frames enough for the pages and for their tables.
pub record Allocated (m : Memory) (owner : Owner) (p : Pagemap) (a : AddressSpace)
    (vaddr flags k : ℕ) : Type 0 where
  pub m' : Memory
  pub given : List ℕ
  pub allocated : alloc_pages m p vaddr flags k ≡ some m'
  pub enough : length given ≡ k
  pub now : Now m owner p (put_run a vaddr flags given) (4 * k) m'
  pub zeroed : Given m' now.owner' given
  pub others : (g : ℕ) → Aside owner m.frames g → All (λ x. x ≢ g) given

first_frame :
    (fs : List ℕ) (k : ℕ) → 4 * suc k ≤ length fs → (n : ℕ) × (ns : List ℕ) × (fs ≡ n ∷ ns)
first_frame [] k h = absurd (none_left h)
  where
    none_left : 4 * suc k ≤ 0 → ⊥
    none_left h = omega (arith, h)
first_frame (n ∷ ns) k h = (n, ns, refl)

alloc_pages-some :
    (m : Memory) (p : Pagemap) (vaddr flags k n : ℕ) (ns : List ℕ) (m₂ : Memory)
    → m.frames ≡ n ∷ ns
    → assign (fill (record m { frames = ns }) n 0) p vaddr n flags ≡ some m₂
    → alloc_pages m p vaddr flags (suc k) ≡ alloc_pages m₂ p (wrap (vaddr + 4096)) flags k
unfolding alloc_pages phys_alloc
alloc_pages-some m p vaddr flags k n ns m₂ e q = rw (e, q, alloc_pages) refl

pub alloc_pages-Allocated :
    (m : Memory) (owner : Owner) (p : Pagemap) (a : AddressSpace) (vaddr flags k : ℕ)
    → IsTree m owner p.page_root
    → Implements m p a
    → 4 * k ≤ length m.frames
    → flags < 4096
    → Allocated m owner p a vaddr flags k
unfolding alloc_pages put_run Given
alloc_pages-Allocated m owner p a vaddr flags zero tr h spare low = record {
  m' = m;
  given = [];
  allocated = refl;
  enough = refl;
  now = record {
    owner' = owner;
    tree = tr;
    implements = h;
    apart = λ g x. (x, λ j. refl);
    used = omega arith;
  };
  zeroed = tt;
  others = λ g x. tt;
}
alloc_pages-Allocated m owner p a vaddr flags (suc k) tr h spare low =
    let (n, ns, fs) = first_frame m.frames k spare in
    let (free, _, others, rest) : Supply owner (n ∷ ns) = subst (Supply owner) fs tr.supply in
    let m₁ = fill (record m { frames = ns }) n 0 in
    let (tree₁, implements₁) = same-Now m m₁ owner p a tr h (filled n ns free) rest in
    let left = subst (λ x. 4 * suc k ≤ length x) fs spare in
    let (m₂, e₂, now₂) =
      assign-Implements m₁ owner p a vaddr n flags tree₁ implements₁ (omega (arith, left)) low in
    let r =
      alloc_pages-Allocated m₂ now₂.owner' p (put_entry a (page_number vaddr) (masked n + flags))
        (wrap (vaddr + 4096)) flags k now₂.tree now₂.implements (enough ns m₂ left now₂.used) low in
    let (aside₂, same₂) = now₂.apart n (free, others) in
    let (aside', same') = r.now.apart n aside₂ in
    record {
      m' = r.m';
      given = n ∷ r.given;
      allocated = alloc_pages-some m p vaddr flags k n ns m₂ fs e₂ ∙ r.allocated;
      enough = ap (λ x. suc x) r.enough;
      now = record {
        owner' = r.now.owner';
        tree = r.now.tree;
        implements = r.now.implements;
        apart = λ g (q, d).
            let (head, tail) : (n ≢ g) × All (λ x. x ≢ g) ns =
              subst (λ x. All (λ y. y ≢ g) x) fs d in
            let (a₂, w₂) = now₂.apart g (q, tail) in
            let (a', w') = r.now.apart g a₂ in (a', λ j. w' j ∙ w₂ j ∙ other_word n ns g j head);
        used = total n ns m₂ r.m' fs now₂.used r.now.used;
      };
      zeroed = (aside', (λ j. same' j ∙ same₂ j ∙ own_word n ns j), r.others n aside₂, r.zeroed);
      others = λ g (q, d).
          let (head, tail) : (n ≢ g) × All (λ x. x ≢ g) ns = subst (λ x. All (λ y. y ≢ g) x) fs d in
          (head, r.others g (now₂.apart g (q, tail)).0);
    }
  where
    filled :
        (n : ℕ) (ns : List ℕ)
        → owner n ≡ none
        → (f l' k' j : ℕ) → owner f ≡ some (l', k')
        → (fill (record m { frames = ns }) n 0).word f j ≡ m.word f j
    filled n ns free f l' k' j q = rw (==_ne f n (no_table owner f n l' k' q free)) refl

    own_word : (n : ℕ) (ns : List ℕ) (j : ℕ) → (fill (record m { frames = ns }) n 0).word n j ≡ 0
    own_word n ns j = rw (==_refl n) refl

    other_word :
        (n : ℕ) (ns : List ℕ) (g j : ℕ)
        → n ≢ g
        → (fill (record m { frames = ns }) n 0).word g j ≡ m.word g j
    other_word n ns g j h' = rw (==_ne g n (λ e. h' (sym e))) refl

    enough :
        (ns : List ℕ) (m₂ : Memory)
        → 4 * suc k ≤ suc (length ns)
        → length ns ≤ length m₂.frames + 3
        → 4 * k ≤ length m₂.frames
    enough ns m₂ x y = omega (arith, x, y)

    total :
        (n : ℕ) (ns : List ℕ) (m₂ m' : Memory)
        → m.frames ≡ n ∷ ns
        → length ns ≤ length m₂.frames + 3
        → length m₂.frames ≤ length m'.frames + 4 * k
        → length m.frames ≤ length m'.frames + 4 * suc k
    total n ns m₂ m' e x y = rw e (omega (arith, x, y))

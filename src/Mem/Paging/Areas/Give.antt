-- ===== src/Mem/Paging/Areas/Give.antt =====
-- `alloc` and `map` put the entries for an area that was free.
use aexkernel.Base.{ℕ, zero, suc, ◌+◌, ◌*◌, ◌≤◌, ◌<◌, ◌≡◌, refl, ◌∙◌, some, List, length, arith}
use aexkernel.Mem.Paging.{Memory, Pagemap, masked}
use aexkernel.Mem.Paging.Tree.{Owner, IsTree}
use aexkernel.Mem.Paging.Entries.{page_number}
use aexkernel.Mem.Paging.Refine.{AddressSpace, Implements, Now, put_entry, assign-Implements}
use aexkernel.Mem.Paging.Areas.{wrap, map_loop}
use aexkernel.Mem.Paging.Areas.Fill.{Given, put_run}

-- What `alloc` gives: `amount` frames, zeroed, at an area that had no entry.
pub record Area (m : Memory) (owner : Owner) (p : Pagemap) (a : AddressSpace) (amount flags : ℕ)
    (m' : Memory) (at : ℕ) : Type 0 where
  pub given : List ℕ
  pub enough : length given ≡ amount
  pub was_free : (k : ℕ) → k < amount → a (page_number (at + 4096 * k)) ≡ 0
  pub now : Now m owner p (put_run a at flags given) (3 + 4 * amount) m'
  pub zeroed : Given m' now.owner' given

-- The entries for pages from `vaddr` on, for memory from `paddr` on.
pub put_map : AddressSpace → ℕ → ℕ → ℕ → ℕ → ℕ → AddressSpace
put_map a vaddr paddr step flags zero = a
put_map a vaddr paddr step flags (suc k) =
    put_map (put_entry a (page_number vaddr) (masked paddr + flags)) (wrap (vaddr + 4096))
      (wrap (paddr + step)) step flags k

-- The loops of `map`, of flags below 4096, frames for the tables being left, end without a panic, and the tables implement
-- the address space with an entry for each page, of memory from `paddr` on; every other is as it was.
pub map_loop-Implements :
    (m : Memory) (owner : Owner) (p : Pagemap) (a : AddressSpace) (vaddr paddr step flags k : ℕ)
    → IsTree m owner p.page_root
    → Implements m p a
    → 3 * k ≤ length m.frames
    → flags < 4096
    → (m' : Memory) × (map_loop m p vaddr paddr step flags k ≡ some m')
      × Now m owner p (put_map a vaddr paddr step flags k) (3 * k) m'
unfolding map_loop put_map
map_loop-Implements m owner p a vaddr paddr step flags zero tr h spare low = (
  m,
  refl,
  record {
    owner' = owner;
    tree = tr;
    implements = h;
    apart = λ g x. (x, λ j. refl);
    used = omega arith;
  },
)
map_loop-Implements m owner p a vaddr paddr step flags (suc k) tr h spare low =
    let (m₁, e₁, now₁) =
      assign-Implements m owner p a vaddr paddr flags tr h (omega (arith, spare)) low in
    let (m₂, e₂, now₂) =
      map_loop-Implements m₁ now₁.owner' p (put_entry a (page_number vaddr) (masked paddr + flags))
        (wrap (vaddr + 4096)) (wrap (paddr + step)) step flags k now₁.tree now₁.implements
        (left m₁ now₁.used) low in
    (
      m₂,
      rw (e₁, map_loop) e₂,
      record {
        owner' = now₂.owner';
        tree = now₂.tree;
        implements = now₂.implements;
        apart = λ g x.
            let (a₁, w₁) = now₁.apart g x in
            let (a₂, w₂) = now₂.apart g a₁ in (a₂, λ j. w₂ j ∙ w₁ j);
        used = total m₁ m₂ now₁.used now₂.used;
      },
    )
  where
    left : (m₁ : Memory) → length m.frames ≤ length m₁.frames + 3 → 3 * k ≤ length m₁.frames
    left m₁ x = omega (arith, x, spare)

    total :
        (m₁ m₂ : Memory)
        → length m.frames ≤ length m₁.frames + 3
        → length m₁.frames ≤ length m₂.frames + 3 * k
        → length m.frames ≤ length m₂.frames + 3 * suc k
    total m₁ m₂ x y = omega (arith, x, y)

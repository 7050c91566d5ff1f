-- ===== src/Mem/Paging.antt =====
-- The page tables of arch/x86_64/mem/paging.cpp. Physical memory is a word for each frame and each
-- index below 512; a frame is its address. `aim_pptr` gives a window on a frame, so that a table is
-- read and written by its frame. `frames` is what `Phys::alloc` will give, frame by frame, and `freed`
-- what `Phys::free` was given; `none` is a panic, of an assertion or for want of a frame.
-- The flushes of the processors' caches have no part in the state.
pub mod Flags
pub mod Tree
pub mod Walk
pub mod Ensure
pub mod Entries
pub mod Refine
pub mod Areas
use aexkernel.Base.{
  ℕ, zero, suc, ◌+◌, ◌-◌, ◌*◌, ◌/◌, ◌%◌, ◌^◌, Bool, true, false, ◌&&◌, ◌||◌, not, Option, none,
  some, List, [], ◌∷◌, ◌++◌, ltb, leb, ◌==◌, if◌then◌else◌,
}

pub record Memory : Type 0 where
  pub word : ℕ → ℕ → ℕ
  pub frames : List ℕ
  pub freed : List ℕ

pub record Pagemap : Type 0 where
  pub vstart : ℕ
  pub vend : ℕ
  pub page_root : ℕ
  pub gflags : ℕ

-- What stands for a page that is mapped to raise faults.
abbrev pub arbitrary_entry : ℕ
arbitrary_entry = 0x00AA000000000000

-- `& MEM_PAGE_MASK`
abbrev pub masked : ℕ → ℕ
masked a = a / 4096 * 4096

-- `& PAGE_PRESENT`, `& PAGE_NOPHYS`
abbrev pub is_present : ℕ → Bool
is_present e = e % 2 == 1

abbrev pub is_nophys : ℕ → Bool
is_nophys e = e / 2 ^ 9 % 2 == 1

-- `| PAGE_USER | PAGE_WRITE | PAGE_PRESENT`
abbrev pub marked : ℕ → ℕ
marked e = e / 8 * 8 + 7

-- `(virt_addr >> shift) & 0x1FF`
abbrev pub index_39 : ℕ → ℕ
index_39 va = va / 2 ^ 39 % 512

abbrev pub index_30 : ℕ → ℕ
index_30 va = va / 2 ^ 30 % 512

abbrev pub index_21 : ℕ → ℕ
index_21 va = va / 2 ^ 21 % 512

abbrev pub index_12 : ℕ → ℕ
index_12 va = va / 2 ^ 12 % 512

abbrev pub write_word : Memory → ℕ → ℕ → ℕ → Memory
write_word m f i v = record m { word = λ g j. if g == f && j == i then v else m.word g j }

-- `memset64` over a frame.
abbrev pub fill : Memory → ℕ → ℕ → Memory
fill m f v = record m { word = λ g j. if g == f then v else m.word g j }

-- `Phys::alloc` of a page.
unfoldable pub phys_alloc : Memory → Option (ℕ × Memory)
phys_alloc m = elim m.frames [ [] ↦ none | n ∷ ns ↦ some (n, record m { frames = ns }) ]

-- The walk of `find_table` through the levels, each with its index and what is added to `skip_by`
-- where it ends there.
unfoldable pub walk : Memory → ℕ → List (ℕ × ℕ) → Option ℕ × ℕ
walk m f [] = (some f, 0)
walk m f ((i, skip) ∷ rest) =
    let next = walk m (masked (m.word f i)) rest in if m.word f i == 0 then (none, skip) else next

abbrev pub levels : ℕ → List (ℕ × ℕ)
levels va = (index_39 va, 0x8000000000) ∷ (index_30 va, 0x40000000) ∷ (index_21 va, 0x200000) ∷ []

unfoldable pub find_table : Memory → ℕ → ℕ → Option ℕ × ℕ
unfolding walk
find_table m root va = walk m root (levels va)

-- A round of `findTableEnsure`: the entry is made to lead to a table.
pub ensure_step : Memory → ℕ → ℕ → Option (Memory × ℕ)
unfolding phys_alloc
ensure_step m f i =
    if is_present (m.word f i)
    then some (write_word m f i (marked (m.word f i)), masked (marked (m.word f i)))
    else elim (phys_alloc m) [
      | none ↦ none
      | some (n, m₁) ↦
          some (fill (write_word m₁ f i (marked n)) (masked (marked n)) 0, masked (marked n))
    ]

pub ensure_loop : Memory → ℕ → List ℕ → Option (Memory × ℕ)
ensure_loop m f [] = some (m, f)
ensure_loop m f (i ∷ is) = elim (ensure_step m f i) [
  | none ↦ none
  | some (m', f') ↦ ensure_loop m' f' is
]

unfoldable pub find_table_ensure : Memory → ℕ → ℕ → Option (Memory × ℕ)
find_table_ensure m root va = ensure_loop m root (index_39 va ∷ index_30 va ∷ index_21 va ∷ [])

abbrev pub has_bit : ℕ → ℕ → Bool
has_bit flags b = flags / 2 ^ b % 2 == 1

-- `|`, on the low bits that there is fuel for.
pub lor : ℕ → ℕ → ℕ → ℕ
lor zero a b = 0
lor (suc n) a b =
    let rest = lor n (a / 2) (b / 2) in (if has_bit a 0 || has_bit b 0 then 1 else 0) + 2 * rest

-- `paddr | flags`: the flags are a uint16_t, so that only the low 16 bits of the address take part.
abbrev pub with_flags : ℕ → ℕ → ℕ
with_flags paddr flags = paddr / 2 ^ 16 * 2 ^ 16 + lor 16 (paddr % 2 ^ 16) (flags % 2 ^ 16)

unfoldable pub assign : Memory → Pagemap → ℕ → ℕ → ℕ → Option Memory
assign m p va pa flags = elim (find_table_ensure m p.page_root (masked va)) [
  | none ↦ none
  | some (m', t) ↦ some (write_word m' t (index_12 (masked va)) (with_flags (masked pa) flags))
]

-- The end of `unassign`: the frame that is free now, or 0.
abbrev pub dropped : ℕ → ℕ
dropped e = if is_nophys e then 0 else masked e

unfoldable pub unassign : Memory → Pagemap → ℕ → Option (Memory × ℕ)
unassign m p va =
    if ltb va p.vstart || ltb p.vend va
    then none
    else elim (find_table_ensure m p.page_root (masked va)) [
      | none ↦ none
      | some (m', t) ↦
          some
            (write_word m' t (index_12 (masked va)) 0, dropped (m'.word t (index_12 (masked va))))
    ]

-- `rawof_internal`, and `rawof`, which takes a window for it; the latter also lets go of a lock where
-- there is no table.
unfoldable pub rawof : Memory → Pagemap → ℕ → ℕ
rawof m p va = elim (find_table m p.page_root (masked va)).0 [
  | none ↦ 0
  | some t ↦ m.word t (index_12 va)
]

-- `paddrof_internal`, and `paddrof`.
unfoldable pub paddrof : Memory → Pagemap → ℕ → ℕ
paddrof m p va = elim (find_table m p.page_root (masked va)).0 [
  | none ↦ 0
  | some t ↦
      if masked (m.word t (index_12 va)) == 0
      then 0
      else masked (m.word t (index_12 va)) + va % 4096
]

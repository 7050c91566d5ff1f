-- ===== src/Mem/Paging/Areas.antt =====
-- `findContiguous`, `alloc`, `map` and `free` of `Pagemap`, with their loops over pages. An address is
-- a number of 64 bits. The bits of the flags that the arguments give are taken by `has_bit`.
pub mod Search
pub mod Find
pub mod Fill
pub mod Give
pub mod Free
pub mod Tests
use aexkernel.Base.{
  ℕ, zero, suc, ◌+◌, ◌-◌, ◌*◌, ◌/◌, ◌%◌, ◌^◌, Bool, true, false, ◌&&◌, ◌||◌, not, Option, none,
  some, List, [], ◌∷◌, ◌++◌, ltb, leb, ◌==◌, if◌then◌else◌, length,
}
use aexkernel.Mem.Phys.{ceiltopg}
use aexkernel.Mem.Paging.{
  Memory, Pagemap, has_bit, lor, arbitrary_entry, masked, is_nophys, fill, phys_alloc, index_12,
  find_table, find_table_ensure, assign, unassign, rawof,
}

abbrev pub wrap : ℕ → ℕ
wrap a = a % 2 ^ 64

-- `flags |= bits; flags |= gflags; flags &= 0xFFF`
abbrev pub cut_flags : ℕ → ℕ → ℕ → ℕ
cut_flags bits gflags flags = lor 12 (lor 12 flags bits) gflags

-- The loop of `findContiguous`: at `vaddr`, whose entry is at `index` of the table `tb`, `combo` pages
-- from `start` on are free.
unfoldable pub search : ℕ → Memory → Pagemap → ℕ → ℕ → ℕ → ℕ → ℕ → Option ℕ → Option ℕ
search zero m p amount vaddr index combo start tb = none
search (suc n) m p amount vaddr index combo start tb =
    let here = if leb 512 index then (find_table m p.page_root vaddr).0 else tb in
    let i = if leb 512 index then 0 else index in
    let next = wrap (vaddr + 4096) in
    let skip = search n m p amount (wrap (vaddr + 4096 * 512)) 512 (combo + 512) start none in
    let taken = search n m p amount next (i + 1) 0 next here in
    let free = search n m p amount next (i + 1) (combo + 1) start here in
    if leb p.vend vaddr then some 0 else elim here [
      | none ↦ if leb amount (combo + 512) then some start else skip
      | some t ↦
          if not (m.word t i == 0)
          then taken
          else if leb amount (combo + 1)
          then some start
          else free
    ]

-- Where the search starts.
abbrev pub search_from : Pagemap → Bool → ℕ
search_from p executable =
    if not executable
    then p.vstart
    else if p.vstart == 0xFFFF800000000000
    then 0xFFFFFFFF80000000
    else if p.vend == 0x00007FFFFFFFFFFF
    then 0x00007FFF80000000
    else p.vstart

-- `findContiguous`, 0 standing for the null pointer; its first table is made where it is missing.
unfoldable pub find_contiguous : ℕ → Memory → Pagemap → ℕ → Bool → Option (Memory × ℕ)
find_contiguous fuel m p amount executable =
    let from = search_from p executable in
    if amount == 0 then some (m, 0) else elim (find_table m p.page_root from).0 [
      | some t ↦ elim (search fuel m p amount from (index_12 from) 0 from (some t)) [
        | none ↦ none
        | some r ↦ some (m, r)
      ]
      | none ↦ elim (find_table_ensure m p.page_root from) [
        | none ↦ none
        | some (m', t) ↦ elim (search fuel m' p amount from (index_12 from) 0 from (some t)) [
          | none ↦ none
          | some r ↦ some (m', r)
        ]
      ]
    ]

-- The address for an area: the one given with PAGE_FIXED, or one that is looked for.
unfoldable pub place : ℕ → Memory → Pagemap → ℕ → ℕ → ℕ → Bool → Option (Memory × ℕ)
place fuel m p amount flags source executable =
    if has_bit flags 13 then some (m, source) else find_contiguous fuel m p amount executable

unfoldable pub alloc_pages : Memory → Pagemap → ℕ → ℕ → ℕ → Option Memory
unfolding phys_alloc
alloc_pages m p vaddr flags zero = some m
alloc_pages m p vaddr flags (suc k) = elim (phys_alloc m) [
  | none ↦ none
  | some (n, m₁) ↦ elim (assign (fill m₁ n 0) p vaddr n flags) [
    | none ↦ none
    | some m₂ ↦ alloc_pages m₂ p (wrap (vaddr + 4096)) flags k
  ]
]

unfoldable pub alloc : ℕ → Memory → Pagemap → ℕ → ℕ → ℕ → Option (Memory × ℕ)
alloc fuel m p bytes flags source =
    if bytes == 0
    then some (m, 0)
    else elim (place fuel m p (ceiltopg bytes) flags source (has_bit flags 12)) [
      | none ↦ none
      | some (m₁, vaddr) ↦
          if vaddr == 0
          then none
          else elim (alloc_pages m₁ p vaddr (cut_flags 1 p.gflags flags) (ceiltopg bytes)) [
            | none ↦ none
            | some m₂ ↦ some (m₂, vaddr)
          ]
    ]

unfoldable pub map_loop : Memory → Pagemap → ℕ → ℕ → ℕ → ℕ → ℕ → Option Memory
map_loop m p vaddr paddr step flags zero = some m
map_loop m p vaddr paddr step flags (suc k) = elim (assign m p vaddr paddr flags) [
  | none ↦ none
  | some m' ↦ map_loop m' p (wrap (vaddr + 4096)) (wrap (paddr + step)) step flags k
]

-- `map`: an area that does not start with a page has a page more, and the place was looked for
-- without it.
unfoldable pub map_area : ℕ → Memory → Pagemap → ℕ → ℕ → ℕ → ℕ → Option (Memory × ℕ)
map_area fuel m p bytes paddr flags source =
    let offset = paddr % 4096 in
    let amount = if ltb 0 offset then ceiltopg bytes + 1 else ceiltopg bytes in
    elim (place fuel m p (ceiltopg bytes) flags source false) [
      | none ↦ none
      | some (m₁, vaddr) ↦
          let mapped =
            if has_bit flags 14
            then map_loop m₁ p vaddr arbitrary_entry 0 (cut_flags 0x200 p.gflags (flags / 2 * 2))
                amount
            else map_loop m₁ p vaddr (paddr - offset) 4096 (cut_flags 0x201 p.gflags flags)
                amount in
          elim mapped [ none ↦ none | some m₂ ↦ some (m₂, vaddr + offset) ]
    ]

-- The frame of an entry is overwritten, where it has one of its own.
abbrev pub poison : Memory → ℕ → Memory
poison m e =
    if not (e == 0) && not (masked e == arbitrary_entry) && not (is_nophys e)
    then fill m (masked e) 0x5A
    else m

abbrev pub free_phys : Memory → List ℕ → Memory
free_phys m buff = record m { freed = m.freed ++ buff }

-- The loop of `free`, with the frames that wait in `free_buff`; 256 of them are let go at once.
unfoldable pub free_pages : Memory → Pagemap → ℕ → List ℕ → ℕ → Option Memory
free_pages m p vaddr buff zero = some (free_phys m buff)
free_pages m p vaddr buff (suc k) = elim (unassign (poison m (rawof m p vaddr)) p vaddr) [
  | none ↦ none
  | some (m', f) ↦
      let next = wrap (vaddr + 4096) in
      if f == 0
      then free_pages m' p next buff k
      else if length buff + 1 == 256
      then free_pages (free_phys m' (buff ++ f ∷ [])) p next [] k
      else free_pages m' p next (buff ++ f ∷ []) k
]

unfoldable pub free : Memory → Pagemap → ℕ → ℕ → Option Memory
free m p addr bytes = free_pages m p addr [] (ceiltopg bytes)

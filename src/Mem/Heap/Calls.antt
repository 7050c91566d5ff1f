-- ===== src/Mem/Heap/Calls.antt =====
-- `malloc`, `free`, `msize` and `realloc` of mem/heap.cpp, over the list of slabs, the root first.
-- What `Mem::kernel_pagemap->alloc` will give is the list `fresh`, and when that is at its end it has
-- failed. A null pointer is 0.
use aexkernel.Base.{
  ℕ, zero, suc, ◌+◌, ◌-◌, ◌*◌, ◌/◌, Option, none, some, List, [], ◌∷◌, ltb, ◌==◌, if◌then◌else◌,
  min, max,
}
use aexkernel.Mem.Bitmap.{Word}
use aexkernel.Mem.Heap.{
  Memory, Slab, alloc_size, copy, slab_alloc, slab_free, slab_size, owns, create_slab,
}

pub record Heap : Type 0 where
  pub slabs : List Slab
  pub mem : Memory
  pub fresh : List ℕ

-- What does not change: the fuel of a search, the words behind each slab's bitmap, and `sizeof(Slab)`.
pub record Setting : Type 0 where
  pub fuel : ℕ
  pub past : Slab → ℕ → Word
  pub slab_fields : ℕ

-- A slab before the others.
abbrev pub behind : Slab → Option (ℕ × Heap) → Option (ℕ × Heap)
behind s none = none
behind s (some (ptr, h)) = some (ptr, record h { slabs = s ∷ h.slabs })

-- `createFromVMem(max(size * 2, 0x100000))`, as the only slab that is left to look at.
abbrev pub next_slab : Setting → Memory → List ℕ → ℕ → Option Heap
next_slab set mem [] size = none
next_slab set mem (at ∷ fresh) size = some (record {
  slabs = create_slab set.slab_fields at (max (size * 2) 0x100000) ∷ [];
  mem = mem;
  fresh = fresh;
})

-- The loop of `malloc`, on fuel, from a slab on: each round but the last goes to the next slab, which
-- the last slab's round creates.
unfoldable pub malloc_loop : ℕ → Setting → Heap → ℕ → Option (ℕ × Heap)
malloc_loop zero set h size = none
malloc_loop (suc rounds) set h size = elim h.slabs [
  | [] ↦ none
  | s ∷ rest ↦ elim (slab_alloc set.fuel s (set.past s) h.mem size) [
    | none ↦ none
    | some (ptr, s', mem') ↦
        let later : Option (ℕ × Heap) = elim rest [
          | [] ↦ elim (next_slab set mem' h.fresh size) [
            | none ↦ none
            | some h' ↦ behind s' (malloc_loop rounds set h' size)
          ]
          | t ∷ ts ↦
              behind s' (
                malloc_loop rounds set (record { slabs = t ∷ ts; mem = mem'; fresh = h.fresh })
                  size)
        ] in
        if ptr == 0
        then later
        else some (ptr, record { slabs = s' ∷ rest; mem = mem'; fresh = h.fresh })
  ]
]

unfoldable pub malloc : ℕ → Setting → Heap → ℕ → Option (ℕ × Heap)
malloc rounds set h size =
    if size == 0
    then some (0, h)
    else if ltb 67108864 size
    then some (0, h)
    else malloc_loop rounds set h size

-- The loop of `free`.
unfoldable pub free_in : List Slab → Memory → ℕ → Option (List Slab × Memory)
free_in [] mem ptr = none
free_in (s ∷ rest) mem ptr =
    let here : Option (List Slab × Memory) = elim (slab_free s mem ptr) [
      | none ↦ none
      | some (s', mem') ↦ some (s' ∷ rest, mem')
    ] in
    let later : Option (List Slab × Memory) = elim (free_in rest mem ptr) [
      | none ↦ none
      | some (ss, mem') ↦ some (s ∷ ss, mem')
    ] in
    if owns s ptr then here else later

unfoldable pub free : Heap → ℕ → Option Heap
free h ptr =
    let freed : Option Heap = elim (free_in h.slabs h.mem ptr) [
      | none ↦ none
      | some (ss, mem') ↦ some (record { slabs = ss; mem = mem'; fresh = h.fresh })
    ] in
    if ptr == 0 then some h else freed

-- The loop of `msize`.
unfoldable pub msize_in : List Slab → Memory → ℕ → Option ℕ
msize_in [] mem ptr = none
msize_in (s ∷ rest) mem ptr = if owns s ptr then slab_size mem ptr else msize_in rest mem ptr

abbrev pub msize : Heap → ℕ → Option ℕ
msize h ptr = if ptr == 0 then some 0 else msize_in h.slabs h.mem ptr

-- `msize_total` of a length.
abbrev pub msize_total : ℕ → ℕ
msize_total len = (len + alloc_size - 1) / alloc_size * alloc_size + alloc_size

-- `realloc` of a pointer and a size that are not 0, once `msize` is known and `malloc` has returned.
abbrev pub move : Heap → ℕ → ℕ → ℕ → ℕ → Option (ℕ × Heap)
move h ptr old size new =
    let dropped : Option (ℕ × Heap) = elim (free h ptr) [ none ↦ none | some h' ↦ some (0, h') ] in
    let moved : Option (ℕ × Heap) =
      elim (free (record h { mem = copy h.mem new ptr (min old size) }) ptr) [
        | none ↦ none
        | some h' ↦ some (new, h')
      ] in
    if new == 0 then dropped else moved

unfoldable pub realloc : ℕ → Setting → Heap → ℕ → ℕ → Option (ℕ × Heap)
realloc rounds set h ptr size =
    let freed : Option (ℕ × Heap) = elim (free h ptr) [ none ↦ none | some h' ↦ some (0, h') ] in
    let resized : Option (ℕ × Heap) = elim (msize h ptr) [
      | none ↦ none
      | some old ↦ elim (malloc rounds set h size) [
        | none ↦ none
        | some (new, h') ↦ move h' ptr old size new
      ]
    ] in
    if ptr == 0 then malloc rounds set h size else if size == 0 then freed else resized

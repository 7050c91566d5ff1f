-- ===== src/Mem/Heap/Root.antt =====
-- The calls of mem/heap.cpp on a heap by its root slab.
use aexkernel.Base.{
  ℕ, suc, ◌+◌, ◌-◌, ◌*◌, ◌≤◌, ◌<◌, ◌≡◌, ◌≢◌, refl, arith, true, false, some, List, ◌∷◌, ltb, ◌==◌,
  ==_ne, length,
}
use aexkernel.Mem.FramePiece.Find.{IsRun}
use aexkernel.Mem.Heap.{Memory, Slab, alloc_size, owns, slab_alloc}
use aexkernel.Mem.Heap.Blocks.{Live, piece_at, Holds, IsHeap}
use aexkernel.Mem.Heap.Alloc.{Allocated, slab_alloc-Allocated, pieces_for}
use aexkernel.Mem.Heap.Free.{Freed, slab_free-Freed, slab_size-live}
use aexkernel.Mem.Heap.Calls.{Heap, Setting, malloc, malloc_loop, free, free_in, msize_in}

-- A heap with this root slab.
abbrev pub rooted : List Slab → List ℕ → Slab → Memory → Heap
rooted rest fresh s mem = record { slabs = s ∷ rest; mem = mem; fresh = fresh }

module _ (set : Setting) (s : Slab) (rest : List Slab) (mem : Memory) (fresh : List ℕ) (live : Live)
    (h : IsHeap s mem live) where
  root_round :
      (rounds size ptr : ℕ) (s' : Slab) (mem' : Memory)
      → slab_alloc set.fuel s (set.past s) mem size ≡ some (ptr, s', mem')
      → ptr ≢ 0
      → malloc_loop (suc rounds) set (rooted rest fresh s mem) size
        ≡ some (ptr, rooted rest fresh s' mem')
  unfolding malloc_loop
  root_round rounds size ptr s' mem' e some_ptr = rw (e, ==_ne ptr 0 some_ptr, malloc_loop) refl

  -- Where the root slab has a run that is long enough, `malloc` takes the first such run.
  pub malloc-Allocated :
      (rounds size r : ℕ)
      → 0 < size
      → size ≤ 67108864
      → length s.bitmap < set.fuel
      → IsRun s.bitmap s.pieces (pieces_for size) r
      → (p : ℕ) × (s' : Slab) × (mem' : Memory) × (malloc
            (suc rounds)
            set
            (rooted rest fresh s mem)
            size
          ≡ some (piece_at s p + alloc_size, rooted rest fresh s' mem'))
        × Allocated s mem live (pieces_for size) p s' mem'
  unfolding malloc
  malloc-Allocated rounds size r some_size small f run =
      let (p, s', mem', e, a) =
        slab_alloc-Allocated s mem live (set.past s) set.fuel size r h some_size f run in
      (
        p,
        s',
        mem',
        rw (==_ne size 0 (λ z. omega (arith, z, some_size)), not_big)
            (root_round rounds size (piece_at s p + alloc_size) s' mem' e (λ z. omega (arith, z))),
        a,
      )
    where
      not_big : ltb 67108864 size ≡ false
      not_big = ground (arith, small)

  module _ (q n : ℕ) (e : live q ≡ some n) where
    held : Holds s mem q n
    held = h.holds q n e

    owned : owns s (piece_at s q + alloc_size) ≡ true
    owned = ground (arith, held.inside, held.some_pieces)

    not_null : (piece_at s q + alloc_size == 0) ≡ false
    not_null = ==_ne (piece_at s q + alloc_size) 0 (λ z. omega (arith, z))

    pub msize_in-live :
        msize_in (s ∷ rest) mem (piece_at s q + alloc_size) ≡ some ((n - 1) * alloc_size)
    unfolding msize_in
    msize_in-live = rw (owned) (slab_size-live s mem live h q n e)

    pub free-Freed :
        (s' : Slab) × (mem' : Memory) × (free (rooted rest fresh s mem) (piece_at s q + alloc_size)
          ≡ some (rooted rest fresh s' mem'))
        × Freed s mem live n q s' mem'
    unfolding free free_in
    free-Freed =
        let (s', mem', f, freed) = slab_free-Freed s mem live h q n e in
        (s', mem', rw (not_null, owned, f) refl, freed)

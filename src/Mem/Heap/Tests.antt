-- ===== src/Mem/Heap/Tests.antt =====
-- Runs of a slab of 32 pieces, and the theorems at that slab.
use aexkernel.Base.{
  ℕ, ◌+◌, ◌*◌, ◌⊎◌, ◌≤◌, ◌<◌, ◌≡◌, refl, sym, ap, ◌∙◌, arith, true, false, none, some, [], ltb, min,
  if◌then◌else◌, replicate,
}
use mathlib.Core.Bool.{false≢true}
use aexkernel.Mem.Bitmap.{Word, taken}
use aexkernel.Mem.FramePiece.Change.{within}
use aexkernel.Mem.FramePiece.Find.{IsRun}
use aexkernel.Mem.Heap.{
  Memory, Slab, alloc_size, mark, mark_bits, new_block, create_slab, scan, find_free,
  find_free_loop, slab_alloc, slab_free,
}
use aexkernel.Mem.Heap.Blocks.{add, remove, piece_at, IsHeap}
use aexkernel.Mem.Heap.Alloc.{
  Allocated, Allocated-new_block, slab_alloc-Allocated, slab_alloc_hangs, pieces_for,
}
use aexkernel.Mem.Heap.Free.{Freed, slab_free-Freed}
use aexkernel.Mem.Heap.Again.{slab_alloc_again}
use aexkernel.Mem.Heap.Create.{create_slab-IsHeap, create_slab-IsRun, nothing_live}
use aexkernel.Mem.Heap.Calls.{Setting, realloc}
use aexkernel.Mem.Heap.Root.{rooted}
use aexkernel.Mem.Heap.Realloc.{realloc_keeps}

abbrev small_slab : Slab
small_slab = create_slab 64 4096 512

abbrev blank : Memory
blank a = 0

abbrev behind_it : ℕ → Word
behind_it k = replicate 32 false

small_IsHeap : IsHeap small_slab blank nothing_live
small_IsHeap = create_slab-IsHeap 64 4096 512 blank (omega arith) (omega arith)

allocates :
    slab_alloc 2 small_slab behind_it blank 24
    ≡ some (4192, mark small_slab true 0 3, new_block blank 4176 3)
unfolding slab_alloc find_free find_free_loop scan
allocates = refl

slab_alloc-Allocated_example :
    (q : ℕ) × (s' : Slab) × (mem' : Memory) × (slab_alloc 2 small_slab behind_it blank 24
      ≡ some (piece_at small_slab q + alloc_size, s', mem'))
    × Allocated small_slab blank nothing_live (pieces_for 24) q s' mem'
slab_alloc-Allocated_example =
    slab_alloc-Allocated small_slab blank nothing_live behind_it 2 24 0 small_IsHeap (omega arith)
      (omega arith) (create_slab-IsRun 64 4096 512 blank 3 0 (omega arith))

-- The slab with a block of 3 pieces at its start.
abbrev busy : Slab
busy = mark small_slab true 0 3

abbrev busy_mem : Memory
busy_mem = new_block blank (piece_at small_slab 0) 3

busy_Allocated : Allocated small_slab blank nothing_live 3 0 busy busy_mem
busy_Allocated =
    Allocated-new_block small_slab blank nothing_live small_IsHeap 3 0 (omega arith)
      (create_slab-IsRun 64 4096 512 blank 3 0 (omega arith), λ t lt. absurd (omega (arith, lt)))

slab_free-Freed_example :
    (s' : Slab) × (mem' : Memory) × (slab_free busy busy_mem 4192 ≡ some (s', mem'))
    × Freed busy busy_mem (add nothing_live 0 3) 3 0 s' mem'
slab_free-Freed_example =
    slab_free-Freed busy busy_mem (add nothing_live 0 3) busy_Allocated.heap 0 3 refl

slab_alloc_again_example :
    (a : ℕ) × (b : ℕ) × (s1 : Slab) × (mem1 : Memory) × (s2 : Slab) × (mem2 : Memory) × (s3 : Slab)
    × (mem3 : Memory) × (s4 : Slab) × (mem4 : Memory) × (slab_alloc 2 small_slab behind_it blank 24
        ≡ some (a, s1, mem1))
    × (slab_alloc 2 s1 behind_it mem1 24 ≡ some (b, s2, mem2))
    × (slab_free s2 mem2 a ≡ some (s3, mem3))
    × (slab_alloc 2 s3 behind_it mem3 24 ≡ some (a, s4, mem4))
slab_alloc_again_example =
    slab_alloc_again small_slab blank nothing_live behind_it small_IsHeap 2 24 24 0 (omega arith)
      (omega arith) (omega arith) (create_slab-IsRun 64 4096 512 blank 6 0 (omega arith))

slab_alloc_hangs_example : slab_alloc 100 busy behind_it busy_mem 496 ≡ none
slab_alloc_hangs_example =
    slab_alloc_hangs busy busy_mem nothing_live behind_it 100 496 busy_Allocated.heap.slab
      (omega arith) (omega arith) (omega arith) no_run (λ k. refl)
  where
    no_run : (t : ℕ) → ¬ IsRun busy.bitmap busy.pieces (pieces_for 496) t
    no_run t run =
        false≢true (sym (run.1 0 (omega (arith, run.0)) (omega arith)) ∙ busy_Allocated.bits 0)

busy_run : IsRun busy.bitmap busy.pieces (pieces_for 100) 3
busy_run = (
  omega arith,
  λ j low high.
      busy_Allocated.bits j
      ∙ ap (λ b. if b then true else taken small_slab.bitmap j) (behind_block j low)
      ∙ (create_slab-IsRun 64 4096 512 blank 32 0 (omega arith)).1 j (omega arith)
          (omega (arith, high)),
)
  where
    behind_block : (j : ℕ) → 3 ≤ j → within 0 3 j ≡ false
    behind_block j low = ground (arith, low)

abbrev setting : Setting
setting = record { fuel = 2; past = λ s. behind_it; slab_fields = 64 }

realloc_keeps_example :
    (p : ℕ) × (s' : Slab) × (mem' : Memory) × (realloc 1 setting
        (rooted [] [] busy busy_mem)
        4192
        100
      ≡ some (piece_at busy p + alloc_size, rooted [] [] s' mem'))
    × IsHeap s' mem' (remove (add (add nothing_live 0 3) p (pieces_for 100)) 0)
    × ((b : ℕ)
        → b < 100
        → mem' (piece_at busy p + alloc_size + b)
          ≡ (if ltb b (min 32 100) then busy_mem (4192 + b) else 0))
    × ((b : ℕ)
        → (b < 4176) ⊎ (4224 ≤ b)
        → (b < piece_at busy p) ⊎ (piece_at busy p + pieces_for 100 * alloc_size ≤ b)
        → mem' b ≡ busy_mem b)
unfolding mark_bits
realloc_keeps_example =
    realloc_keeps setting busy [] busy_mem [] (add nothing_live 0 3) busy_Allocated.heap 0 3 refl 0
      100 3 (omega arith) (omega arith) (omega arith) busy_run

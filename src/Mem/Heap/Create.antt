-- ===== src/Mem/Heap/Create.antt =====
-- `createFromVMem`: a new slab has no blocks, and all of it is one run.
use aexkernel.Base.{
  ℕ, zero, suc, ◌+◌, ◌*◌, ◌/◌, ◌%◌, ◌^◌, ◌≤◌, ◌<◌, ◌≡◌, refl, sym, ◌∙◌, arith, false, none, some,
  [], get_or, length-replicate, replicate,
}
use mathlib.Core.Bool.{false≢true}
use aexkernel.Mem.Bitmap.{Word, AreWords}
use aexkernel.Mem.FramePiece.Find.{IsRun}
use aexkernel.Mem.Heap.{Memory, alloc_size, create_slab}
use aexkernel.Mem.Heap.Blocks.{Live, piece_at, IsHeap}

abbrev clear_word : Word
clear_word = replicate 32 false

replicate-AreWords : (n : ℕ) → AreWords (replicate n clear_word)
replicate-AreWords zero = tt
replicate-AreWords (suc n) = (refl, replicate-AreWords n)

get_or-clear_word : (j : ℕ) → get_or clear_word j false ≡ false
get_or-clear_word j = get_or-replicate 32 j
  where
    get_or-replicate : (n j : ℕ) → get_or (replicate n false) j false ≡ false
    get_or-replicate zero j = refl
    get_or-replicate (suc n) zero = refl
    get_or-replicate (suc n) (suc j) = get_or-replicate n j

row_clear : (n i j : ℕ) → get_or (get_or (replicate n clear_word) i []) j false ≡ false
row_clear zero i j = refl
row_clear (suc n) zero j = get_or-clear_word j
row_clear (suc n) (suc i) j = row_clear n i j

abbrev pub nothing_live : Live
nothing_live a = none

module _ (slab_fields at size : ℕ) (mem : Memory) where
  -- A new slab, below the end of the address space and smaller than 4 GiB, is a heap without blocks.
  pub create_slab-IsHeap :
      size < 2 ^ 32
      → piece_at (create_slab slab_fields at size) (size / alloc_size) + alloc_size < 2 ^ 64
      → IsHeap (create_slab slab_fields at size) mem nothing_live
  create_slab-IsHeap small fits = record {
    slab = record {
      words = replicate-AreWords (size / 16 / 32 * 32 / 32);
      all_bits = omega (arith, length-replicate (size / 16 / 32 * 32 / 32) clear_word);
      all_pieces = refl;
      small = omega (arith, small);
    };
    fits = omega (arith, fits);
    holds = λ a n e. absurd (none_some n e);
    apart = λ a n b m e. absurd (none_some n e);
    marked = λ a n k e. absurd (none_some n e);
    covered = λ k inside t.
        absurd (false≢true (sym (row_clear (size / 16 / 32 * 32 / 32) (k / 32) (k % 32)) ∙ t));
  }
    where
      none_some : (x : ℕ) → ¬ (none ≡ some x)
      none_some x e = cc

  -- Every run that fits is free.
  pub create_slab-IsRun :
      (n r : ℕ)
      → r + n ≤ size / alloc_size / 32 * 32
      → IsRun (create_slab slab_fields at size).bitmap (create_slab slab_fields at size).pieces n r
  create_slab-IsRun n r fits =
      (fits, λ j low high. row_clear (size / 16 / 32 * 32 / 32) (j / 32) (j % 32))

-- ===== src/Mem/FramePiece/Tests.antt =====
-- Runs of a piece of 40 frames, and its theorems at that piece.
use aexkernel.Base.{ℕ, ◌<◌, ◌≡◌, refl, zero, suc, false, none, some, arith}
use aexkernel.Mem.Bitmap.{taken}
use aexkernel.Mem.FramePiece.{FramePiece, init, alloc, free, find, to_size, change_bits, find_loop}
use aexkernel.Mem.FramePiece.Find.{Finds, find-Finds, IsRun}
use aexkernel.Mem.FramePiece.Laws.{IsValid, AreTaken, alloc-free}

abbrev fresh : FramePiece
fresh = init 2 0x100000 40

fresh-IsValid : IsValid fresh
fresh-IsValid = omega arith

-- `alloc` of the 3 frames from 31 on crosses into the second word.
abbrev busy : FramePiece
unfolding alloc to_size change_bits
busy = elim (alloc fresh 31 3) [ some p ↦ p | none ↦ fresh ]

busy-IsValid : IsValid busy
unfolding alloc to_size change_bits
busy-IsValid = omega arith

find_passes_over : find busy 32 ≡ none
unfolding find find_loop alloc to_size change_bits
find_passes_over = refl

find-Finds_example : Finds fresh.bitmap fresh.size 6 (find fresh 6)
find-Finds_example = find-Finds fresh 6 refl (omega arith) (omega arith)

fresh_run : IsRun fresh.bitmap fresh.size 3 1
fresh_run = (omega arith, λ j a b. small j b)
  where
    small : (j : ℕ) → j < 4 → taken fresh.bitmap j ≡ false
    small zero h = refl
    small (suc zero) h = refl
    small (suc (suc zero)) h = refl
    small (suc (suc (suc zero))) h = refl
    small (suc (suc (suc (suc j)))) h = absurd (omega arith)

busy_taken : AreTaken busy.bitmap 31 1
unfolding alloc to_size change_bits
busy_taken j a b = let e : 31 ≡ j = omega arith in rw (← e) refl

found : find busy 6 ≡ some 0
unfolding find find_loop alloc to_size change_bits
found = refl

alloc-free_example :
    (p q : FramePiece) × (alloc busy 0 6 ≡ some p)
    × (free p 0 6 ≡ some q)
    × ((j : ℕ) → taken q.bitmap j ≡ taken busy.bitmap j)
    × (q.frames_free ≡ busy.frames_free)
    × IsValid q
    × (p.start ≡ busy.start)
alloc-free_example = alloc-free 6 0 busy-IsValid (omega arith) found

-- ===== src/Mem/Phys/Tests.antt =====
-- The theorems at two pieces of 40 frames each, of which the first has taken frames.
use aexkernel.Base.{◌+◌, ◌*◌, ◌≡◌, refl, none, some, [], ◌∷◌}
use aexkernel.Mem.FramePiece
use aexkernel.Mem.FramePiece.{FramePiece, init, to_size, change_bits, find, find_loop}
use aexkernel.Mem.Phys.{Phys, ceiltopg_int, alloc, free}

abbrev fresh : FramePiece
fresh = init 2 0x100000 40

abbrev second : FramePiece
second = init 2 0x800000 40

abbrev two : Phys
two = record { pieces = fresh ∷ second ∷ []; frames_available = 80 }

abbrev busy : FramePiece
unfolding FramePiece.alloc to_size change_bits
busy = elim (FramePiece.alloc fresh 31 3) [ some p ↦ p | none ↦ fresh ]

freed :
    (s : Phys) × (free
        (record { pieces = busy ∷ second ∷ []; frames_available = 77 })
        (0x100000 + 32 * 4096)
        4096
      ≡ some s)
unfolding free FramePiece.alloc FramePiece.free to_size ceiltopg_int change_bits
freed = (_, refl)

found : find fresh 2 ≡ some 0
unfolding find find_loop
found = refl

-- ===== src/Mem/Phys.antt =====
-- mem/phys.cpp: page frames handed out from a list of pieces. The lock is held from the start of each
-- call to its end, so that a call is one step.
pub mod Alloc
pub mod Free
mod Tests
use aexkernel.Base.{
  ℕ, ◌+◌, ◌-◌, ◌*◌, ◌/◌, ◌%◌, ◌^◌, Bool, true, false, Option, none, some, List, [], ◌∷◌, ltb,
  if◌then◌else◌,
}
use aexkernel.Mem.FramePiece
use aexkernel.Mem.FramePiece.{FramePiece, to_size, find}

abbrev pub page_size : ℕ
page_size = 4096

-- `ceiltopg` of a size_t, as arch/x86_64/mem/paging.cpp uses it, below 2 ^ 64 - 4095.
abbrev pub ceiltopg : ℕ → ℕ
ceiltopg a = (a + (page_size - 1)) / page_size

-- The quotient of an int, given by its 32 bits, by the page size: it is rounded towards 0.
abbrev pub div_int : ℕ → ℕ
div_int w = if ltb w (2 ^ 31) then w / page_size else (2 ^ 32 - (2 ^ 32 - w) / page_size) % 2 ^ 32

-- `uint32_t frames = ceiltopg(amount)`: `amount` is an int32_t, given by its 32 bits, and the sum
-- wraps around.
unfoldable pub ceiltopg_int : ℕ → ℕ
ceiltopg_int a = div_int ((a + (page_size - 1)) % 2 ^ 32)

pub record Phys : Type 0 where
  pub pieces : List FramePiece  -- `first_piece`, and on by `next`
  pub frames_available : ℕ  -- size_t

-- `piece->start + start * Sys::CPU::PAGE_SIZE`: both factors are ints, and so the product is computed
-- in 32 bits before it is added to the size_t.
abbrev pub address : FramePiece → ℕ → ℕ
address p start = (p.start + to_size (start * page_size % 2 ^ 32)) % 2 ^ 64

-- The piece took the frames, or an assertion failed.
granted : FramePiece → List FramePiece → ℕ → Option FramePiece → Option (ℕ × List FramePiece)
granted p ps start none = none
granted p ps start (some p') = some (address p start, p' ∷ ps)

-- The branches on `start`; `next` is the rest of the loop.
with_start :
    FramePiece
    → List FramePiece
    → ℕ
    → Option ℕ
    → Option (ℕ × List FramePiece)
    → Option (ℕ × List FramePiece)
unfolding granted
with_start p ps frames none next = next
with_start p ps frames (some start) next = granted p ps start (FramePiece.alloc p start frames)

passed : FramePiece → Option (ℕ × List FramePiece) → Option (ℕ × List FramePiece)
passed p none = none
passed p (some (a, qs)) = some (a, p ∷ qs)

-- The loop of `alloc` over the pieces; `none` is `kpanic`.
alloc_loop : ℕ → List FramePiece → Option (ℕ × List FramePiece)
unfolding with_start passed
alloc_loop frames [] = none
alloc_loop frames (p ∷ ps) =
    let next = passed p (alloc_loop frames ps) in
    if ltb p.frames_free frames then next else with_start p ps frames (find p frames) next

less_frames : Phys → ℕ → Option (ℕ × List FramePiece) → Option (ℕ × Phys)
less_frames s frames none = none
less_frames s frames (some (a, qs)) =
    some (
      a,
      record { pieces = qs; frames_available = (s.frames_available + 2 ^ 64 - frames) % 2 ^ 64 },
    )

pub alloc : Phys → ℕ → Option (ℕ × Phys)
unfolding alloc_loop less_frames
alloc s amount = less_frames s (ceiltopg_int amount) (alloc_loop (ceiltopg_int amount) s.pieces)

pieces_from : List FramePiece → Option FramePiece → Option (List FramePiece)
pieces_from ps none = none
pieces_from ps (some p) = some (p ∷ ps)

kept : FramePiece → Option (List FramePiece) → Option (List FramePiece)
kept p none = none
kept p (some ps) = some (p ∷ ps)

-- The loop of `free` over the pieces. `lid` is an int32_t.
free_loop : ℕ → ℕ → List FramePiece → Option (List FramePiece)
unfolding pieces_from kept
free_loop frames addr [] = none
free_loop frames addr (p ∷ ps) =
    let next = kept p (free_loop frames addr ps) in
    if ltb addr p.start
    then next
    else pieces_from ps (FramePiece.free p ((addr - p.start) / page_size % 2 ^ 32) frames)

more_frames : Phys → ℕ → Option (List FramePiece) → Option Phys
more_frames s frames none = none
more_frames s frames (some ps) =
    some (record { pieces = ps; frames_available = (s.frames_available + frames) % 2 ^ 64 })

-- `addr < first_piece->start`
abbrev below_first : List FramePiece → ℕ → Bool
below_first [] addr = false
below_first (p ∷ ps) addr = ltb addr p.start

pub free : Phys → ℕ → ℕ → Option Phys
unfolding free_loop more_frames
free s addr amount =
    if below_first s.pieces addr
    then some s
    else more_frames s (ceiltopg_int amount) (free_loop (ceiltopg_int amount) addr s.pieces)

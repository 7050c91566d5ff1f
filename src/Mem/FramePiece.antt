-- ===== src/Mem/FramePiece.antt =====
-- mem/frame_piece.hpp: a run of page frames, with a bit for each that says whether it is taken.
-- `next` is not a field: the pieces of mem/phys.cpp are a list.
pub mod Change
pub mod Find
pub mod Laws
mod Tests
use aexkernel.Base.{
  ℕ, zero, suc, ◌+◌, ◌-◌, ◌*◌, ◌/◌, ◌%◌, ◌^◌, Bool, true, false, ◌||◌, not, Option, none, some,
  List, ltb, ◌==◌, if◌then◌else◌, replicate,
}
use aexkernel.Mem.Bitmap.{Word, word_bits, test_bit, write_bit, next_word, next_bit}

pub record FramePiece : Type 0 where
  pub start : ℕ
  pub size : ℕ  -- uint32_t
  pub frames_free : ℕ  -- uint32_t
  pub bitmap : List Word

-- `init` clears `amnt / 8` bytes; `words` is the number of words that the storage of the bitmap has.
-- The bits that `memset` does not reach are those of the fresh storage, taken to be clear.
abbrev pub init : ℕ → ℕ → ℕ → FramePiece
init words addr amnt = record {
  start = addr;
  size = amnt;
  frames_free = amnt;
  bitmap = replicate words (replicate 32 false);
}

abbrev pub same : Bool → Bool → Bool
same true b = b
same false b = not b

-- The loop of `alloc` (`v` is true) and of `free` (`v` is false): each of `amount` bits from bit `ib`
-- of word `ii` on is asserted to be the other one, and is set to `v`. `none` is `kpanic`.
unfoldable pub change_bits : Bool → ℕ → List Word → ℕ → ℕ → Option (List Word)
change_bits v zero bitmap ii ib = some bitmap
change_bits v (suc amount) bitmap ii ib =
    let rest = change_bits v amount (write_bit bitmap ii ib v) (next_word ii ib) (next_bit ib) in
    if same v (test_bit bitmap ii ib) then none else rest

with_bitmap : FramePiece → ℕ → Option (List Word) → Option FramePiece
with_bitmap p frames none = none
with_bitmap p frames (some b) = some (record p { bitmap = b; frames_free = frames })

-- An int turned into a size_t, given by its 32 bits: the upper half of them is negative.
unfoldable pub to_size : ℕ → ℕ
to_size w = if ltb w (2 ^ 31) then w else 2 ^ 64 - 2 ^ 32 + w

-- `uint32_t ii = lid / (sizeof(uint32_t) * 8)`: `lid` is an int32_t, given by its 32 bits, and the
-- quotient is that of two size_t.
abbrev pub word_of : ℕ → ℕ
word_of lid = to_size lid / word_bits % 2 ^ 32

abbrev pub bit_of : ℕ → ℕ
bit_of lid = to_size lid % word_bits

-- `lid` is a frame's number in the piece. The counter is a uint32_t.
unfoldable pub alloc : FramePiece → ℕ → ℕ → Option FramePiece
unfolding with_bitmap
alloc p lid amount =
    with_bitmap p ((p.frames_free + 2 ^ 32 - amount) % 2 ^ 32)
      (change_bits true amount p.bitmap (word_of lid) (bit_of lid))

unfoldable pub free : FramePiece → ℕ → ℕ → Option FramePiece
unfolding with_bitmap
free p lid amount =
    with_bitmap p ((p.frames_free + amount) % 2 ^ 32)
      (change_bits false amount p.bitmap (word_of lid) (bit_of lid))

-- The value of `start` after a clear bit at `i`; `none` is -1.
abbrev pub start_at : Option ℕ → ℕ → ℕ
start_at none i = i
start_at (some s) i = s

-- The loop of `find`: `left` rounds are to come, at frame `i`, which is bit `ib` of word `ii`.
unfoldable pub find_loop : ℕ → ℕ → List Word → ℕ → ℕ → ℕ → ℕ → Option ℕ → Option ℕ
find_loop zero amount bitmap i ii ib found start = none
find_loop (suc left) amount bitmap i ii ib found start =
    let s = start_at start i in
    let longer =
      find_loop left amount bitmap (i + 1) (next_word ii ib) (next_bit ib) (found + 1) (some s) in
    let again = find_loop left amount bitmap (i + 1) (next_word ii ib) (next_bit ib) 0 none in
    if test_bit bitmap ii ib then again else if found + 1 == amount then some s else longer

-- `start` is an int32_t: its 32 bits, or `none` for -1.
abbrev pub as_int32 : Option ℕ → Option ℕ
as_int32 none = none
as_int32 (some s) = if s % 2 ^ 32 == 2 ^ 32 - 1 then none else some (s % 2 ^ 32)

-- `none` is -1; another result is an int by its 32 bits. The size is a uint32_t, and so no frame that
-- the loop comes to is 2 ^ 32 - 1, which as an int were -1.
unfoldable pub find : FramePiece → ℕ → Option ℕ
unfolding find_loop
find p amount =
    let start = find_loop p.size amount p.bitmap 0 0 0 0 none in
    if amount == 0 || ltb p.frames_free amount then none else as_int32 start

-- ===== src/Mem/CircularBuffer/Distance.antt =====
-- How many bytes a valid buffer holds, and how many it has room for.
use aexkernel.Base.{ℕ, ◌+◌, ◌-◌, ◌≤◌, ◌<◌, min, ◌≡◌, arith, leb, if◌then◌else◌, length}
use aexkernel.Base.Int.{pos, pos_part, ◌-ℤ◌, min_ℤ}
use aexkernel.Mem.CircularBuffer.{
  CircularBuffer, find_distance, read_available, write_available, read_available_cut,
  write_available_cut,
}

-- Both positions lie inside the storage.
pub record IsValid (cb : CircularBuffer) : Type 0 where
  pub storage : cb.size ≤ length cb.buffer
  pub read_in : cb.read_pos < cb.size
  pub write_in : cb.write_pos < cb.size

-- The number of bytes from the read position round to the write position.
abbrev pub used : CircularBuffer → ℕ
used cb =
    if leb cb.read_pos cb.write_pos
    then cb.write_pos - cb.read_pos
    else cb.size - cb.read_pos + cb.write_pos

abbrev pub room : CircularBuffer → ℕ
room cb = cb.size - 1 - used cb

distance_to_write :
    {cb : CircularBuffer}
    → IsValid cb
    → find_distance cb.size (pos cb.read_pos) (pos cb.write_pos) ≡ pos (used cb)
unfolding find_distance
distance_to_write v = ground arith

-- The slot before the read position is the one kept free.
distance_to_free_slot :
    {cb : CircularBuffer}
    → IsValid cb
    → find_distance cb.size (pos cb.write_pos) (pos cb.read_pos -ℤ pos 1) ≡ pos (room cb)
unfolding find_distance
distance_to_free_slot v = ground arith

min_two :
    (size p d : ℕ)
    → p < size
    → min_ℤ (min_ℤ (pos size) (pos size -ℤ pos p)) (pos d) ≡ pos (min (size - p) d)
min_two size p d h = ground arith

min_size : (size d : ℕ) → d < size → min_ℤ (pos size) (pos d) ≡ pos d
min_size size d h = ground arith

pub used-lt-size : {cb : CircularBuffer} → IsValid cb → used cb < cb.size
used-lt-size v = ground arith

pub room-lt-size : {cb : CircularBuffer} → IsValid cb → room cb < cb.size
room-lt-size v = ground arith

pub read_available_lem : {cb : CircularBuffer} → IsValid cb → read_available cb ≡ pos (used cb)
unfolding read_available
read_available_lem {cb} v = rw (distance_to_write v) (min_size cb.size (used cb) (used-lt-size v))

pub write_available_lem : {cb : CircularBuffer} → IsValid cb → write_available cb ≡ pos (room cb)
unfolding write_available
write_available_lem {cb} v =
    rw (distance_to_free_slot v) (min_size cb.size (room cb) (room-lt-size v))

pub read_available_cut_lem :
    {cb : CircularBuffer}
    → IsValid cb
    → read_available_cut cb ≡ pos (min (cb.size - cb.read_pos) (used cb))
unfolding read_available_cut
read_available_cut_lem {cb} v =
    rw (distance_to_write v) (min_two cb.size cb.read_pos (used cb) v.read_in)

pub write_available_cut_lem :
    {cb : CircularBuffer}
    → IsValid cb
    → write_available_cut cb ≡ pos (min (cb.size - cb.write_pos) (room cb))
unfolding write_available_cut
write_available_cut_lem {cb} v =
    rw (distance_to_free_slot v) (min_two cb.size cb.write_pos (room cb) v.write_in)

-- What a valid buffer offers to readers and what it offers to writers add up to its size less one.
pub available_partition :
    {cb : CircularBuffer}
    → IsValid cb
    → pos_part (read_available cb) + pos_part (write_available cb) + 1 ≡ cb.size
available_partition {cb} v =
    rw (read_available_lem v, write_available_lem v) (omega (arith, used-lt-size v))

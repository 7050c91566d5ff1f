-- ===== src/Mem/CircularBuffer.antt =====
-- mem/circularbuffer.cpp: a ring of bytes with one slot kept free, read and written by threads that
-- wait for one another.
-- The lock is held through each round of a loop, so a round is one step. While a thread waits the
-- lock is free: what the others do to the buffer then, and whether the waiting thread finds itself
-- interrupted, are the list of `Turn`s. `m_event` only ends the wait early, which a turn covers.
pub mod Distance
pub mod Window
pub mod Write
pub mod Stream
pub mod Read
pub mod Atomic
pub mod Size
mod Tests
use aexkernel.Base.{
  ℕ, zero, suc, ◌+◌, ◌-◌, min, Bool, ◌&&◌, ◌||◌, not, List, [], ◌∷◌, ◌++◌, ltb, ◌==◌, if◌then◌else◌,
  length, get_or, set, take, drop,
}
use aexkernel.Base.Int.{ℤ, pos, ◌+ℤ◌, ◌-ℤ◌, ltb_ℤ, min_ℤ, pos_part, is_minus_one}

-- `m_readPos` and `m_writePos` are ints that no operation takes below 0.
pub record CircularBuffer : Type 0 where
  pub buffer : List ℕ
  pub size : ℕ
  pub read_pos : ℕ
  pub write_pos : ℕ

-- The constructor. What the new storage holds is given.
abbrev pub create : List ℕ → ℕ → CircularBuffer
create storage size = record { buffer = storage; size = size; read_pos = 0; write_pos = 0 }

-- `resize` sets the positions only: `m_size` keeps its old value. The storage is what
-- `Heap::realloc` returns.
pub resize : CircularBuffer → List ℕ → CircularBuffer
resize cb storage = record cb { buffer = storage; read_pos = 0; write_pos = 0 }

abbrev plus_if_negative : ℕ → ℤ → ℤ
plus_if_negative size a = if ltb_ℤ a (pos 0) then a +ℤ pos size else a

pub find_distance : ℕ → ℤ → ℤ → ℤ
find_distance size a b =
    let a' = plus_if_negative size a in
    let b' = plus_if_negative size b in let c = b' -ℤ a' in plus_if_negative size c

pub read_available : CircularBuffer → ℤ
read_available cb = min_ℤ (pos cb.size) (find_distance cb.size (pos cb.read_pos) (pos cb.write_pos))

pub write_available : CircularBuffer → ℤ
write_available cb =
    min_ℤ (pos cb.size) (find_distance cb.size (pos cb.write_pos) (pos cb.read_pos -ℤ pos 1))

pub read_available_cut : CircularBuffer → ℤ
read_available_cut cb =
    let len = min_ℤ (pos cb.size) (pos cb.size -ℤ pos cb.read_pos) in
    min_ℤ len (find_distance cb.size (pos cb.read_pos) (pos cb.write_pos))

pub write_available_cut : CircularBuffer → ℤ
write_available_cut cb =
    let len = min_ℤ (pos cb.size) (pos cb.size -ℤ pos cb.write_pos) in
    min_ℤ len (find_distance cb.size (pos cb.write_pos) (pos cb.read_pos -ℤ pos 1))

-- `memcpy` out of an array, and into one.
pub slice : List ℕ → ℕ → ℕ → List ℕ
slice buf i zero = []
slice buf i (suc n) = get_or buf i 0 ∷ slice buf (i + 1) n

pub blit : List ℕ → ℕ → List ℕ → List ℕ
blit buf i [] = buf
blit buf i (x ∷ xs) = blit (set buf i x) (i + 1) xs

-- The position after `n` bytes, back to 0 at the end of the storage.
abbrev pub advance : ℕ → ℕ → ℕ → ℕ
advance size i n = if i + n == size then 0 else i + n

-- What a thread meets when it finds nothing to do: whether it is interrupted, and, if it waits,
-- what the other threads do to the buffer meanwhile.
pub record Turn : Type 0 where
  pub interrupted : Bool
  pub others : CircularBuffer → CircularBuffer

-- `finished`: the call returned. `waiting`: the turns are over and it still waits. `stuck`: the
-- model ran out of fuel.
pub data Outcome (A : Type 0) : Type 0 where
  finished : CircularBuffer → A → Outcome A
  waiting : CircularBuffer → A → Outcome A
  stuck : Outcome A

-- The `if` under `clen == 0` in `read`.
pub read_gives_up : ℤ → CircularBuffer → ℕ → ℕ → Bool → Bool
read_gives_up quota cb len offset interrupted =
    ltb_ℤ (write_available cb) (pos len) && interrupted
    || not (ltb_ℤ (pos len) (read_available cb))
      && not (is_minus_one quota)
      && not (ltb_ℤ (pos offset) quota)

-- The copy at the end of a round of `read`.
pub take_out : CircularBuffer → ℕ → CircularBuffer
take_out cb n = record cb { read_pos = advance cb.size cb.read_pos n }

-- The copy at the end of a round of `write`.
pub put_in : CircularBuffer → List ℕ → CircularBuffer
unfolding blit
put_in cb xs = record cb {
  buffer = blit cb.buffer cb.write_pos xs;
  write_pos = advance cb.size cb.write_pos (length xs);
}

-- The `while (len > 0)` of `read`; `out` is what the destination holds, of length `offset`.
pub read_loop : ℕ → List Turn → ℤ → CircularBuffer → ℕ → List ℕ → Outcome (List ℕ)
read_loop zero turns quota cb len out = stuck
read_loop (suc fuel) turns quota cb zero out = finished cb out
read_loop (suc fuel) turns quota cb (suc l) out =
    let len = suc l in
    let clen = min len (pos_part (read_available_cut cb)) in
    let copied =
      read_loop fuel turns quota (take_out cb clen) (len - clen)
        (out ++ slice cb.buffer cb.read_pos clen) in
    let idle : Outcome (List ℕ) = elim turns [
      | [] ↦ waiting cb out
      | t ∷ ts ↦
          if read_gives_up quota cb len (length out) t.interrupted
          then finished cb out
          else read_loop fuel ts quota (t.others cb) len out
    ] in
    if clen == 0 then idle else copied

pub read : ℕ → List Turn → ℤ → CircularBuffer → ℤ → Outcome (List ℕ)
unfolding read_loop
read fuel turns quota cb len =
    if ltb_ℤ (pos 0) len then read_loop fuel turns quota cb (pos_part len) [] else finished cb []

-- The `while (len > 0)` of `write`; `xs` is what is left of the source, of length `len`.
pub write_loop : ℕ → List Turn → CircularBuffer → List ℕ → ℕ → Outcome ℕ
write_loop zero turns cb xs offset = stuck
write_loop (suc fuel) turns cb [] offset = finished cb offset
write_loop (suc fuel) turns cb (x ∷ r) offset =
    let xs = x ∷ r in
    let len = length xs in
    let clen = min len (pos_part (write_available_cut cb)) in
    let copied = write_loop fuel turns (put_in cb (take clen xs)) (drop clen xs) (offset + clen) in
    let idle : Outcome ℕ = elim turns [
      | [] ↦ waiting cb offset
      | t ∷ ts ↦
          if ltb_ℤ (write_available cb) (pos len) && t.interrupted
          then finished cb offset
          else write_loop fuel ts (t.others cb) xs offset
    ] in
    if clen == 0 then idle else copied

pub write : ℕ → List Turn → CircularBuffer → List ℕ → Outcome ℕ
unfolding write_loop
write fuel turns cb xs = write_loop fuel turns cb xs 0

-- The `while (len > 0)` of `writeAtomic`: it copies only when all that is left fits at once.
pub write_atomic_loop : ℕ → List Turn → CircularBuffer → List ℕ → ℕ → Outcome ℕ
write_atomic_loop zero turns cb xs offset = stuck
write_atomic_loop (suc fuel) turns cb [] offset = finished cb offset
write_atomic_loop (suc fuel) turns cb (x ∷ r) offset =
    let xs = x ∷ r in
    let len = length xs in
    let clen = min len (pos_part (write_available_cut cb)) in
    let copied =
      write_atomic_loop fuel turns (put_in cb (take clen xs)) (drop clen xs) (offset + clen) in
    let idle : Outcome ℕ = elim turns [
      | [] ↦ waiting cb offset
      | t ∷ ts ↦
          if ltb_ℤ (write_available cb) (pos len) && t.interrupted
          then finished cb offset
          else write_atomic_loop fuel ts (t.others cb) xs offset
    ] in
    if ltb clen len then idle else copied

pub write_atomic : ℕ → List Turn → CircularBuffer → List ℕ → Outcome ℕ
unfolding write_atomic_loop
write_atomic fuel turns cb xs = write_atomic_loop fuel turns cb xs 0

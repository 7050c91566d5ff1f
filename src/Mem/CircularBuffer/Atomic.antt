-- ===== src/Mem/CircularBuffer/Atomic.antt =====
-- `writeAtomic` and `resize`: where they do less than their names promise.
use aexkernel.Base.{
  ℕ, zero, suc, ◌+◌, ◌-◌, ◌≤◌, ◌<◌, ◌≡◌, refl, ap, ◌∙◌, min, arith, true, false, List, [], ◌∷◌,
  ◌++◌, ltb, lt→ltb, and-false, length, take, drop, All, take_all, drop_all,
}
use aexkernel.Base.Int.{pos}
use aexkernel.Mem.CircularBuffer.{
  CircularBuffer, Turn, finished, waiting, put_in, write_available, read_available,
  write_atomic_loop, write_atomic, resize, find_distance,
}
use aexkernel.Mem.CircularBuffer.Distance.{IsValid, room, write_available_cut_lem}
use aexkernel.Mem.CircularBuffer.Window.{contents, put_in-contents}

ltb_refl : (n : ℕ) → ltb n n ≡ false
ltb_refl n = ground arith

write_atomic_copies :
    (fuel : ℕ) (turns : List Turn) {cb : CircularBuffer} (x : ℕ) (r : List ℕ) (offset : ℕ)
    → IsValid cb
    → min (suc (length r)) (min (cb.size - cb.write_pos) (room cb)) ≡ suc (length r)
    → write_atomic_loop (suc fuel) turns cb (x ∷ r) offset
      ≡ write_atomic_loop fuel turns
          (put_in cb (x ∷ take (length r) r))
          (drop (length r) r)
          (offset + suc (length r))
unfolding write_atomic_loop
write_atomic_copies fuel turns x r offset v all =
    rw (write_available_cut_lem v, all, ltb_refl (suc (length r))) refl

-- At least one byte, all fit into the room and none passes the end of the storage: `writeAtomic`
-- copies them in one round, so that no other thread sees a part of them, and returns their number;
-- the contents grow by those bytes.
pub write_atomic_fits :
    (fuel : ℕ) (turns : List Turn) {cb : CircularBuffer} (x : ℕ) (r : List ℕ)
    → IsValid cb
    → length (x ∷ r) ≤ room cb
    → cb.write_pos + length (x ∷ r) ≤ cb.size
    → (write_atomic (suc (suc fuel)) turns cb (x ∷ r)
        ≡ finished (put_in cb (x ∷ r)) (length (x ∷ r)))
      × (contents (put_in cb (x ∷ r)) ≡ contents cb ++ (x ∷ r))
unfolding write_atomic
write_atomic_fits fuel turns {cb} x r v h f = (
  write_atomic_copies (suc fuel) turns x r 0 v all
      ∙ rw (take_all (length r) r (omega arith), drop_all (length r) r (omega arith))
          (unfold write_atomic_loop in ap (finished (put_in cb (x ∷ r))) (omega arith)),
  put_in-contents (x ∷ r) v h f,
)
  where
    all : min (suc (length r)) (min (cb.size - cb.write_pos) (room cb)) ≡ suc (length r)
    all = omega (arith, h, f)

-- The others only read: the buffer stays valid, and neither its size nor the write position changes.
abbrev pub Reads : Turn → Type 0
Reads t =
    (cb : CircularBuffer)
    → IsValid cb
    → IsValid (t.others cb)
      × ((t.others cb).size ≡ cb.size)
      × ((t.others cb).write_pos ≡ cb.write_pos)

abbrev pub Uninterrupted : Turn → Type 0
Uninterrupted t = t.interrupted ≡ false

short :
    {cb : CircularBuffer} (r : List ℕ)
    → IsValid cb
    → cb.size < cb.write_pos + suc (length r)
    → ltb (min (suc (length r)) (min (cb.size - cb.write_pos) (room cb))) (suc (length r)) ≡ true
short r v h = lt→ltb _ _ (omega arith)

-- Bytes that would pass the end of the storage are never written, however much room readers make:
-- `writeAtomic` still waits when all turns are over, having written nothing.
pub write_atomic_waits :
    (fuel : ℕ) (turns : List Turn) {cb : CircularBuffer} (xs : List ℕ)
    → IsValid cb
    → All Reads turns
    → All Uninterrupted turns
    → cb.size < cb.write_pos + length xs
    → length turns < fuel
    → (cb' : CircularBuffer) × (write_atomic fuel turns cb xs ≡ waiting cb' 0)
unfolding write_atomic
write_atomic_waits zero turns xs v a q h f = absurd (omega arith)
write_atomic_waits (suc fuel) turns [] v a q h f = absurd (omega (arith, v))
write_atomic_waits (suc fuel) [] {cb} (x ∷ r) v a q h f =
    rw (write_available_cut_lem v, short r v h) (cb, refl)
write_atomic_waits (suc fuel) (t ∷ ts) {cb} (x ∷ r) v a q h f =
    let (v', s, p) = a.0 cb v in
    rw (write_available_cut_lem v, short r v h, q.0, and-false)
      (write_atomic_waits fuel ts (x ∷ r) v' a.1 q.1 (rw (s, p) h) (omega arith))

-- After `resize` the buffer still takes itself for one of its old size, whatever storage it was
-- given: it offers all of the old size but one byte to writers, and nothing to readers.
pub resize_keeps_size :
    {cb : CircularBuffer} (storage : List ℕ)
    → IsValid cb
    → (write_available (resize cb storage) ≡ pos (cb.size - 1))
      × (read_available (resize cb storage) ≡ pos 0)
unfolding resize write_available read_available find_distance
resize_keeps_size storage v = (ground arith, ground arith)

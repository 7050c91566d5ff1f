-- ===== src/Mem/CircularBuffer/Size.antt =====
-- What `read` and `write` do to a ring that nobody else uses meanwhile: its size stays.
use aexkernel.Base.{
  ℕ, zero, suc, ◌+◌, ◌-◌, min, ◌≡◌, refl, List, [], ◌∷◌, ◌++◌, ◌==◌, inl, inr, Bool-cases, length,
  take, drop,
}
use aexkernel.Base.Int.{ℤ, pos, pos_part, ltb_ℤ}
use aexkernel.Mem.CircularBuffer.{
  CircularBuffer, Outcome, finished, waiting, stuck, read_loop, read, write_loop, write, take_out,
  put_in, slice, read_available_cut, write_available_cut,
}

-- The call has not returned with a ring of another size.
abbrev pub Sized : {A : Type 0} → ℕ → Outcome A → Type 0
Sized size (finished cb a) = cb.size ≡ size
Sized size (waiting cb a) = cb.size ≡ size
Sized size stuck = size ≡ size

read_loop-Sized :
    (fuel : ℕ) (quota : ℤ) (cb : CircularBuffer) (len : ℕ) (out : List ℕ)
    → Sized cb.size (read_loop fuel [] quota cb len out)
unfolding read_loop take_out
read_loop-Sized zero quota cb len out = refl
read_loop-Sized (suc fuel) quota cb zero out = refl
read_loop-Sized (suc fuel) quota cb (suc l) out =
    let clen = min (suc l) (pos_part (read_available_cut cb)) in
    elim (Bool-cases (clen == 0)) [
      | inl e ↦ rw (e) refl
      | inr e ↦ rw (e) (
          read_loop-Sized fuel quota (take_out cb clen) (suc l - clen)
            (out ++ slice cb.buffer cb.read_pos clen))
    ]

write_loop-Sized :
    (fuel : ℕ) (cb : CircularBuffer) (xs : List ℕ) (offset : ℕ)
    → Sized cb.size (write_loop fuel [] cb xs offset)
unfolding write_loop put_in
write_loop-Sized zero cb xs offset = refl
write_loop-Sized (suc fuel) cb [] offset = refl
write_loop-Sized (suc fuel) cb (x ∷ r) offset =
    let clen = min (length (x ∷ r)) (pos_part (write_available_cut cb)) in
    elim (Bool-cases (clen == 0)) [
      | inl e ↦ rw (e) refl
      | inr e ↦ rw (e) (
          write_loop-Sized fuel (put_in cb (take clen (x ∷ r))) (drop clen (x ∷ r)) (offset + clen))
    ]

pub read-Sized :
    (fuel : ℕ) (quota : ℤ) (cb : CircularBuffer) (len : ℤ)
    → Sized cb.size (read fuel [] quota cb len)
unfolding read
read-Sized fuel quota cb len = elim (Bool-cases (ltb_ℤ (pos 0) len)) [
  | inl e ↦ rw (e) (read_loop-Sized fuel quota cb (pos_part len) [])
  | inr e ↦ rw (e) refl
]

pub write-Sized :
    (fuel : ℕ) (cb : CircularBuffer) (xs : List ℕ) → Sized cb.size (write fuel [] cb xs)
unfolding write
write-Sized fuel cb xs = write_loop-Sized fuel cb xs 0

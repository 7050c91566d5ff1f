-- ===== src/Mem/CircularBuffer/Read.antt =====
-- `read`: with enough bytes there it takes the oldest ones at once; while others write, it gets the
-- stream of bytes in order, none lost and none twice.
use aexkernel.Base.{
  ℕ, zero, suc, ◌+◌, ◌-◌, ◌≤◌, ◌<◌, ◌≡◌, refl, sym, ap, ◌∙◌, arith, Bool, true, false, List, [],
  ◌∷◌, ◌++◌, append_assoc, if◌then◌else◌, Bool-cases, inl, inr, length, ◌&&◌, lt→ltb, All,
  length-append, ==_iff,
}
use aexkernel.Base.Int.{ℤ, pos, pos_part, is_minus_one}
use mathlib.Core.Bool.{false≢true}
use native.Mathlib.Decide.{dec_lt}
use aexkernel.Mem.CircularBuffer.{
  CircularBuffer, Turn, Outcome, finished, waiting, stuck, slice, take_out, read_available,
  read_gives_up, read_loop, read,
}
use aexkernel.Mem.CircularBuffer.Distance.{
  IsValid, used, read_available_lem, read_available_cut_lem,
}
use aexkernel.Mem.CircularBuffer.Window.{contents}
use aexkernel.Mem.CircularBuffer.Stream.{
  chunk, chunk_pos, length-slice, Round, round, read_loop_copies, calm, Addition, turns_of, Adds,
  Served, Served-copied, Served-added, Got-here,
}

-- A round of the loop that finds nothing to copy.
read_loop_idle :
    {cb : CircularBuffer} (fuel : ℕ) (turns : List Turn) (quota : ℤ) (l : ℕ) (out : List ℕ)
    → IsValid cb
    → chunk cb (suc l) ≡ 0
    → read_loop (suc fuel) turns quota cb (suc l) out ≡ elim turns [
      | [] ↦ waiting cb out
      | t ∷ ts ↦
          if read_gives_up quota cb (suc l) (length out) t.interrupted
          then finished cb out
          else read_loop fuel ts quota (t.others cb) (suc l) out
    ]
unfolding read_loop
read_loop_idle fuel turns quota l out v h = rw (read_available_cut_lem v, (==_iff _ 0).1 h) refl

gives_up-calm :
    (quota : ℤ) (cb : CircularBuffer) (len offset : ℕ)
    → is_minus_one quota ≡ true
    → read_gives_up quota cb len offset false ≡ false
unfolding read_gives_up
gives_up-calm quota cb len offset h = rw h (ground arith)

abbrev pub whole : List Turn → ℤ → Bool
whole turns quota = calm turns && is_minus_one quota

whole-tail :
    (t : Turn) (ts : List Turn) (quota : ℤ) → whole (t ∷ ts) quota ≡ true → whole ts quota ≡ true
whole-tail t ts quota h = ground arith

gives_up-whole :
    (t : Turn) (ts : List Turn) (quota : ℤ) (cb : CircularBuffer) (len offset : ℕ)
    → whole (t ∷ ts) quota ≡ true
    → read_gives_up quota cb len offset t.interrupted ≡ false
gives_up-whole t ts quota cb len offset h =
    let quiet : t.interrupted ≡ false = ground arith in
    rw quiet (gives_up-calm quota cb len offset (ground arith))

Served-idle :
    (cb : CircularBuffer) (a : Addition) (adds : List Addition) (quota : ℤ) (len : ℕ) (out : List ℕ)
    (rest : Outcome (List ℕ))
    → IsValid cb
    → contents (a.turn.others cb) ≡ contents cb ++ a.bytes
    → Served quota adds (a.turn.others cb) len out (whole (turns_of adds) quota) rest
    → Served quota (a ∷ adds) cb len out (whole (turns_of (a ∷ adds)) quota) (
        if read_gives_up quota cb len (length out) a.turn.interrupted
        then finished cb out
        else rest)
Served-idle cb a adds quota len out rest v h g =
    let left : len ≡ length out + len - length out = omega arith in
    elim (Bool-cases (read_gives_up quota cb len (length out) a.turn.interrupted)) [
      | inl e ↦ rw e (
        0,
        omega arith,
        Got-here len out v,
        inr (ap (λ n. read_gives_up quota cb n (length out) a.turn.interrupted) (sym left) ∙ e),
        λ w. absurd (
            false≢true
              (sym (gives_up-whole a.turn (turns_of adds) quota cb len (length out) w) ∙ e)),
      )
      | inr e ↦ rw e (
          Served-added quota a adds cb len out (whole (turns_of adds) quota)
            (whole (turns_of (a ∷ adds)) quota) rest h (whole-tail a.turn (turns_of adds) quota) g)
    ]

Served-copies :
    (fuel : ℕ) (adds : List Addition) (quota : ℤ) {cb : CircularBuffer} (l : ℕ) (out : List ℕ)
    → IsValid cb
    → 0 < chunk cb (suc l)
    → Served quota adds
        (take_out cb (chunk cb (suc l)))
        (suc l - chunk cb (suc l))
        (out ++ slice cb.buffer cb.read_pos (chunk cb (suc l)))
        (whole (turns_of adds) quota)
        (read_loop fuel
          (turns_of adds)
          quota
          (take_out cb (chunk cb (suc l)))
          (suc l - chunk cb (suc l))
          (out ++ slice cb.buffer cb.read_pos (chunk cb (suc l))))
    → Served quota adds cb
        (suc l)
        out
        (whole (turns_of adds) quota)
        (read_loop (suc fuel) (turns_of adds) quota cb (suc l) out)
Served-copies fuel adds quota {cb} l out v p g =
    rw (read_loop_copies fuel (turns_of adds) quota l out v (omega arith))
      (Served-copied quota adds cb (suc l) out (whole (turns_of adds) quota) _ (round (suc l) v) g)

nothing_left : {cb : CircularBuffer} (n : ℕ) → IsValid cb → 0 < n → chunk cb n ≡ 0 → used cb ≡ 0
nothing_left n v p h = omega (arith, v)

read_loop-Served :
    {n : ℕ} (fuel : ℕ) (adds : List Addition) (quota : ℤ) {cb : CircularBuffer} (len : ℕ)
    (out : List ℕ)
    → IsValid cb
    → All (Adds n) adds
    → cb.size ≡ n
    → len + length adds < fuel
    → Served quota adds cb len out
        (whole (turns_of adds) quota)
        (read_loop fuel (turns_of adds) quota cb len out)
unfolding take_out
read_loop-Served zero adds quota len out v a z f = absurd (omega arith)
read_loop-Served (suc fuel) adds quota zero out v a z f =
    unfold read_loop in (0, omega arith, Got-here 0 out v, inl (omega arith), λ _. omega arith)
read_loop-Served (suc fuel) [] quota {cb} (suc l) out v a z f = elim (dec_lt 0 (chunk cb (suc l))) [
  | yes p ↦ Served-copies fuel [] quota l out v p (
      read_loop-Served fuel [] quota (suc l - chunk cb (suc l))
        (out ++ slice cb.buffer cb.read_pos (chunk cb (suc l))) (round (suc l) v).valid a z
        (omega arith))
  | no p ↦
      rw (read_loop_idle fuel [] quota l out v (omega arith)) (Got-here (suc l) out v, omega arith)
]
read_loop-Served (suc fuel) (t ∷ ts) quota {cb} (suc l) out v a z f =
    elim (dec_lt 0 (chunk cb (suc l))) [
      | yes p ↦ Served-copies fuel (t ∷ ts) quota l out v p (
          read_loop-Served fuel (t ∷ ts) quota (suc l - chunk cb (suc l))
            (out ++ slice cb.buffer cb.read_pos (chunk cb (suc l))) (round (suc l) v).valid a z
            (omega arith))
      | no p ↦ rw (read_loop_idle fuel (turns_of (t ∷ ts)) quota l out v (omega arith)) (
          let (valid, size, grown) =
            a.0 cb v z (nothing_left (suc l) v (omega arith) (omega arith)) in
          Served-idle cb t ts quota (suc l) out _ v grown
            (read_loop-Served fuel ts quota (suc l) out valid a.1 size (omega arith)))
    ]

-- A read from a valid buffer, where in each turn the others put given bytes into the empty buffer, comes
-- to a result: the bytes that it has read, followed by those that are left, are those that
-- the buffer held, followed by the bytes of just the turns that have passed. It waits still when all
-- turns have passed, or has returned with `len` bytes, or has returned with fewer since it gives up in
-- the next turn, which it does not if no quota was given and nobody interrupts it. It reads at most
-- `len` bytes, and the buffer stays valid.
pub read_stream :
    (fuel : ℕ) (adds : List Addition) (quota : ℤ) {cb : CircularBuffer} (len : ℕ)
    → IsValid cb
    → All (Adds cb.size) adds
    → len + length adds < fuel
    → Served quota adds cb len []
        (whole (turns_of adds) quota)
        (read fuel (turns_of adds) quota cb (pos len))
unfolding read
read_stream fuel adds quota zero v a f = (0, omega arith, Got-here 0 [] v, inl refl, λ _. refl)
read_stream fuel adds quota (suc l) v a f =
    rw (lt→ltb 0 (suc l + 0) (omega arith)) (read_loop-Served fuel adds quota (suc l) [] v a refl f)

-- The call returned, with `len` more bytes taken off the front of what `cb` held.
abbrev pub Took : CircularBuffer → ℕ → List ℕ → Outcome (List ℕ) → Type 0
Took cb len out (finished cb' out') =
    IsValid cb' × (out' ++ contents cb' ≡ out ++ contents cb) × (length out' ≡ length out + len)
Took cb len out (waiting _ _) = ⊥
Took cb len out stuck = ⊥

Took-copied :
    (cb : CircularBuffer) (len : ℕ) (out : List ℕ) (o : Outcome (List ℕ))
    → Round cb len
    → Took
        (take_out cb (chunk cb len))
        (len - chunk cb len)
        (out ++ slice cb.buffer cb.read_pos (chunk cb len))
        o
    → Took cb len out o
Took-copied cb len out (finished cb' out') r (v, e, n) = (
  v,
  e
      ∙ append_assoc out (slice cb.buffer cb.read_pos (chunk cb len)) _
      ∙ ap (λ l. out ++ l) (sym r.bytes),
  omega (
    arith,
    n,
    length-append out (slice cb.buffer cb.read_pos (chunk cb len)),
    length-slice cb.buffer cb.read_pos (chunk cb len),
  ),
)
Took-copied cb len out (waiting cb' out') r g = g
Took-copied cb len out stuck r g = g

read_loop-Took :
    (fuel : ℕ) (turns : List Turn) (quota : ℤ) {cb : CircularBuffer} (len : ℕ) (out : List ℕ)
    → IsValid cb
    → len ≤ used cb
    → len < fuel
    → Took cb len out (read_loop fuel turns quota cb len out)
read_loop-Took zero turns quota len out v h f = absurd (omega arith)
read_loop-Took (suc fuel) turns quota zero out v h f = unfold read_loop in (v, refl, omega arith)
read_loop-Took (suc fuel) turns quota {cb} (suc l) out v h f =
    let r = round (suc l) v in
    let p : 0 < chunk cb (suc l) = chunk_pos (suc l) v (omega arith) (omega arith) in
    rw (read_loop_copies fuel turns quota l out v (omega arith)) (
      Took-copied cb (suc l) out _ r (
        read_loop-Took fuel turns quota (suc l - chunk cb (suc l))
          (out ++ slice cb.buffer cb.read_pos (chunk cb (suc l))) r.valid (omega (arith, r.count))
          (omega arith)))

-- A read of no more bytes than a valid buffer holds returns at once, whatever the turns and the
-- quota: with `len` bytes that, followed by what is left, are the contents before.
pub read_ready :
    (fuel : ℕ) (turns : List Turn) (quota : ℤ) {cb : CircularBuffer} (len : ℕ)
    → IsValid cb
    → len ≤ pos_part (read_available cb)
    → len < fuel
    → Took cb len [] (read fuel turns quota cb (pos len))
unfolding read
read_ready fuel turns quota zero v h f = (v, refl, refl)
read_ready fuel turns quota (suc l) v h f =
    rw (lt→ltb 0 (suc l + 0) (omega arith))
      (read_loop-Took fuel turns quota (suc l) [] v (rw (read_available_lem v) at h) f)

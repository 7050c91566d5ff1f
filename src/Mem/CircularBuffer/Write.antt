-- ===== src/Mem/CircularBuffer/Write.antt =====
-- `write`: with room for all it appends the bytes at once; while others read, it appends them in
-- order and loses none.
use aexkernel.Base.{
  ℕ, zero, suc, ◌+◌, ◌-◌, ◌≤◌, ◌<◌, ◌≡◌, refl, sym, ap, ◌∙◌, min, arith, List, [], ◌∷◌, ◌++◌,
  append-nil, append_assoc, length, take, drop, length-take, length-drop, take-append-drop, ◌≢◌,
  ==_ne,
}
use aexkernel.Base.Int.{pos_part}
use aexkernel.Mem.CircularBuffer.{
  CircularBuffer, Turn, Outcome, finished, waiting, stuck, put_in, write_available, write_loop,
  write,
}
use aexkernel.Mem.CircularBuffer.Distance.{
  IsValid, used, room, write_available_lem, write_available_cut_lem, room-lt-size,
}
use aexkernel.Mem.CircularBuffer.Window.{contents, put_in-contents, put_in-IsValid}

-- The bytes that one round copies.
abbrev pub chunk : CircularBuffer → ℕ → ℕ
chunk cb n = min n (min (cb.size - cb.write_pos) (room cb))

pub chunk_pos : {cb : CircularBuffer} (n : ℕ) → IsValid cb → 0 < n → 0 < room cb → 0 < chunk cb n
chunk_pos n v p q = omega (arith, v)

-- What a round of copying gives: the bytes are behind the others, and the room shrinks by them.
pub record Round (cb : CircularBuffer) (xs : List ℕ) : Type 0 where
  pub valid : IsValid (put_in cb (take (chunk cb (length xs)) xs))
  pub bytes :
      contents (put_in cb (take (chunk cb (length xs)) xs))
      ≡ contents cb ++ take (chunk cb (length xs)) xs
  pub count : used (put_in cb (take (chunk cb (length xs)) xs)) ≡ used cb + chunk cb (length xs)
  pub same_size : (put_in cb (take (chunk cb (length xs)) xs)).size ≡ cb.size

pub round : {cb : CircularBuffer} (xs : List ℕ) → IsValid cb → Round cb xs
unfolding put_in
round {cb} xs v = record {
  valid = (put_in-IsValid ys v (omega (arith, e)) (omega (arith, e, v))).0;
  bytes = put_in-contents ys v (omega (arith, e)) (omega (arith, e, v));
  count =
      (put_in-IsValid ys v (omega (arith, e)) (omega (arith, e, v))).1 ∙ ap (λ k. used cb + k) e;
  same_size = refl;
}
  where
    ys : List ℕ
    ys = take (chunk cb (length xs)) xs

    e : length ys ≡ chunk cb (length xs)
    e = omega (arith, length-take (chunk cb (length xs)) xs)

-- A round of the loop that copies.
write_loop_copies :
    {cb : CircularBuffer} (fuel : ℕ) (turns : List Turn) (x : ℕ) (r : List ℕ) (offset : ℕ)
    → IsValid cb
    → chunk cb (length (x ∷ r)) ≢ 0
    → write_loop (suc fuel) turns cb (x ∷ r) offset
      ≡ write_loop fuel turns
          (put_in cb (take (chunk cb (length (x ∷ r))) (x ∷ r)))
          (drop (chunk cb (length (x ∷ r))) (x ∷ r))
          (offset + chunk cb (length (x ∷ r)))
unfolding write_loop
write_loop_copies fuel turns x r offset v h = rw (write_available_cut_lem v, ==_ne _ 0 h) refl

-- The call returned with `xs` written behind what `cb` held.
abbrev pub Wrote : CircularBuffer → List ℕ → ℕ → Outcome ℕ → Type 0
Wrote cb xs offset (finished cb' n) =
    IsValid cb' × (n ≡ offset + length xs) × (contents cb' ≡ contents cb ++ xs)
Wrote cb xs offset (waiting _ _) = ⊥
Wrote cb xs offset stuck = ⊥

Wrote-append :
    (cb : CircularBuffer) (xs : List ℕ) (offset c : ℕ) (o : Outcome ℕ)
    → contents (put_in cb (take c xs)) ≡ contents cb ++ take c xs
    → c ≤ length xs
    → Wrote (put_in cb (take c xs)) (drop c xs) (offset + c) o
    → Wrote cb xs offset o
Wrote-append cb xs offset c (finished cb' n) b h w = (
  w.0,
  omega (arith, w.1, length-drop c xs),
  w.2
      ∙ ap (λ l. l ++ drop c xs) b
      ∙ append_assoc (contents cb) (take c xs) (drop c xs)
      ∙ ap (λ l. contents cb ++ l) (take-append-drop c xs),
)
Wrote-append cb xs offset c (waiting cb' n) b h w = w
Wrote-append cb xs offset c stuck b h w = w

write_loop-Wrote :
    (fuel : ℕ) (turns : List Turn) {cb : CircularBuffer} (xs : List ℕ) (offset : ℕ)
    → IsValid cb
    → length xs ≤ room cb
    → length xs < fuel
    → Wrote cb xs offset (write_loop fuel turns cb xs offset)
write_loop-Wrote zero turns xs offset v h f = absurd (omega arith)
write_loop-Wrote (suc fuel) turns {cb} [] offset v h f =
    unfold write_loop in (v, omega arith, sym (append-nil (contents cb)))
write_loop-Wrote (suc fuel) turns {cb} (x ∷ r) offset v h f =
    let c = chunk cb (length (x ∷ r)) in
    let p : 0 < c = chunk_pos (length (x ∷ r)) v (omega arith) (omega arith) in
    let q = round (x ∷ r) v in
    rw (write_loop_copies fuel turns x r offset v (omega arith)) (
      Wrote-append cb (x ∷ r) offset c
        (write_loop fuel turns (put_in cb (take c (x ∷ r))) (drop c (x ∷ r)) (offset + c)) q.bytes
        (omega arith)
        (write_loop-Wrote fuel turns (drop c (x ∷ r)) (offset + c) q.valid
          (omega (arith, q.count, q.same_size, length-drop c (x ∷ r), room-lt-size q.valid))
          (omega (arith, length-drop c (x ∷ r)))))

-- A write that fits into the room of a valid buffer returns at once, whatever the turns: it reports
-- all of its bytes, the contents grow by exactly those bytes, in order, and the buffer stays valid.
pub write_fits :
    (fuel : ℕ) (turns : List Turn) {cb : CircularBuffer} (xs : List ℕ)
    → IsValid cb
    → length xs ≤ pos_part (write_available cb)
    → length xs < fuel
    → Wrote cb xs 0 (write fuel turns cb xs)
unfolding write
write_fits fuel turns xs v h f =
    write_loop-Wrote fuel turns xs 0 v (rw (write_available_lem v) at h) f

-- ===== src/Ipc/MessageQueue/Rings.antt =====
-- The calls of the ring that a message queue makes: on a ring of 64 KiB that has the bytes, or the
-- room, each returns.
use aexkernel.Base.{
  ℕ, zero, suc, ◌+◌, ◌-◌, ◌≤◌, ◌<◌, ◌≡◌, refl, sym, ap, ◌∙◌, arith, List, [], ◌++◌, min, length,
  take, drop, take-append, drop-append, length-take, length-drop, drop-add, ==_ne,
}
use mathlib.Core.Path.{subst}
use aexkernel.Base.Int.{pos, minus_one}
use aexkernel.Mem.CircularBuffer.{CircularBuffer, Outcome, finished, waiting, stuck, read, write}
use aexkernel.Mem.CircularBuffer.Distance.{
  IsValid, used, used-lt-size, read_available_lem, write_available_lem,
}
use aexkernel.Mem.CircularBuffer.Window.{contents, length-window}
use aexkernel.Mem.CircularBuffer.Read.{Took, read_ready}
use aexkernel.Mem.CircularBuffer.Write.{Wrote, write_fits}
use aexkernel.Mem.CircularBuffer.Size.{Sized, read-Sized, write-Sized}
use aexkernel.Ipc.MessageQueue.{ring_fuel, drain, max_waiting_size}

-- A ring of 64 KiB with these bytes.
pub record Has (cb : CircularBuffer) (bytes : List ℕ) : Type 0 where
  pub valid : IsValid cb
  pub size : cb.size ≡ 65536
  pub bytes_of : contents cb ≡ bytes

Has-used : {cb : CircularBuffer} {bytes : List ℕ} → Has cb bytes → used cb ≡ length bytes
Has-used {cb} h = sym (length-window cb.buffer cb.size cb.read_pos (used cb)) ∙ ap length h.bytes_of

split_at :
    (out rest bytes : List ℕ) (n : ℕ)
    → out ++ rest ≡ bytes
    → length out ≡ n
    → (out ≡ take n bytes) × (rest ≡ drop n bytes)
split_at out rest bytes n e l = (
  sym (ap (λ b. take n b) (sym e) ∙ ap (λ x. take x (out ++ rest)) (sym l) ∙ take-append out rest),
  sym (ap (λ b. drop n b) (sym e) ∙ ap (λ x. drop x (out ++ rest)) (sym l) ∙ drop-append out rest),
)

pub read-Has :
    (cb : CircularBuffer) (bytes : List ℕ) (len : ℕ)
    → Has cb bytes
    → len ≤ length bytes
    → (cb' : CircularBuffer) × (read ring_fuel [] minus_one cb (pos len)
        ≡ finished cb' (take len bytes))
      × Has cb' (drop len bytes)
read-Has cb bytes len h fits =
    after (read ring_fuel [] minus_one cb (pos len)) refl
      (read_ready ring_fuel [] minus_one len h.valid
        (rw (read_available_lem h.valid) (omega (arith, fits, Has-used h)))
        (omega (arith, fits, Has-used h, used-lt-size h.valid, h.size)))
      (read-Sized ring_fuel minus_one cb (pos len))
  where
    zero_add : (x : ℕ) → 0 + x ≡ x
    zero_add x = omega arith

    after :
        (o : Outcome (List ℕ))
        → read ring_fuel [] minus_one cb (pos len) ≡ o
        → Took cb len [] o
        → Sized cb.size o
        → (cb' : CircularBuffer) × (read ring_fuel [] minus_one cb (pos len)
            ≡ finished cb' (take len bytes))
          × Has cb' (drop len bytes)
    after (finished cb' out) e (v, all, l) s =
        let (x, y) = split_at out (contents cb') bytes len (all ∙ h.bytes_of) (l ∙ zero_add len) in
        (cb', e ∙ ap (λ o. finished cb' o) x, record { valid = v; size = s ∙ h.size; bytes_of = y })
    after (waiting _ _) e t s = elim t [ ]
    after stuck e t s = elim t [ ]

pub write-Has :
    (cb : CircularBuffer) (bytes xs : List ℕ)
    → Has cb bytes
    → length bytes + length xs ≤ max_waiting_size
    → (cb' : CircularBuffer) × (n : ℕ) × (write ring_fuel [] cb xs ≡ finished cb' n)
      × Has cb' (bytes ++ xs)
write-Has cb bytes xs h fits =
    after (write ring_fuel [] cb xs) refl
      (write_fits ring_fuel [] xs h.valid
        (rw (write_available_lem h.valid) (omega (arith, fits, Has-used h, h.size)))
        (omega (arith, fits)))
      (write-Sized ring_fuel cb xs)
  where
    after :
        (o : Outcome ℕ)
        → write ring_fuel [] cb xs ≡ o
        → Wrote cb xs 0 o
        → Sized cb.size o
        → (cb' : CircularBuffer) × (n : ℕ) × (write ring_fuel [] cb xs ≡ finished cb' n)
          × Has cb' (bytes ++ xs)
    after (finished cb' n) e (v, _, all) s = (
      cb',
      n,
      e,
      record { valid = v; size = s ∙ h.size; bytes_of = all ∙ ap (λ b. b ++ xs) h.bytes_of },
    )
    after (waiting _ _) e t s = elim t [ ]
    after stuck e t s = elim t [ ]

-- The rest of a message goes, in pieces of 32 bytes.
pub drain-Has :
    (fuel : ℕ) (cb : CircularBuffer) (bytes : List ℕ) (left : ℕ)
    → left < fuel
    → Has cb bytes
    → left ≤ length bytes
    → (cb' : CircularBuffer) × (drain fuel cb left ≡ finished cb' []) × Has cb' (drop left bytes)
unfolding drain
drain-Has zero cb bytes left f h fits = absurd (omega (arith, f))
drain-Has (suc fuel) cb bytes zero f h fits = (cb, refl, h)
drain-Has (suc fuel) cb bytes (suc l) f h fits =
    let n = min (suc l) 32 in
    let (cb1, e1, h1) = read-Has cb bytes n h (omega (arith, fits)) in
    let (cb2, e2, h2) =
      drain-Has fuel cb1 (drop n bytes) (suc l - n) (omega (arith, f)) h1
        (omega (arith, fits, length-drop n bytes)) in
    (
      cb2,
      rw
          (
            ==_ne (suc l) 0 (λ z. omega (arith, z)),
            e1,
            ==_ne (length (take n bytes)) 0 (λ z. omega (arith, z, length-take n bytes, fits)),
            e2,
          )
          refl,
      subst (λ b. Has cb2 b) (sym (drop-add n (suc l - n) bytes) ∙ ap (λ x. drop x bytes) (parts l))
          h2,
    )
  where
    parts : (l : ℕ) → min (suc l) 32 + (suc l - min (suc l) 32) ≡ suc l
    parts l = omega arith

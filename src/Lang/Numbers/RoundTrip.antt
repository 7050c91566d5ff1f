-- ===== src/Lang/Numbers/RoundTrip.antt =====
-- What `itos` writes, and that `stoi` reads it back.
use mathlib.Core.List.{reverse, reverse-cons}
use mathlib.Core.Path.{subst}
use native.Mathlib.Nat.{mul-le-mul_right, mul_comm}
use aexkernel.Base.{
  ℕ, suc, ◌+◌, ◌-◌, ◌*◌, ◌≤◌, ◌<◌, ◌≡◌, ◌≢◌, refl, sym, ap, ◌∙◌, inl, inr, Bool, ◌||◌, true, false,
  List, [], ◌∷◌, ◌++◌, append_assoc, append-nil, map, All, length, length-append, ltb, ◌==◌, some,
  if◌then◌else◌, Bool-cases, ==_ne, arith,
}
use aexkernel.Base.Int.{ℤ, pos, negsuc}
use aexkernel.Lang.Numbers.{
  itos, stoi, stoi_loop, add_digit, sign_of, swap_loop, magnitude, max_int,
}
use aexkernel.Lang.Numbers.Digits.{digit_char, value, IsNumeral, digit_loop-Writes}
use aexkernel.Lang.Numbers.Reversal.{swap_loop-reverse, same_loop}

in_range :
    {base : ℕ} {A : Type 0} (x y : A)
    → 2 ≤ base
    → base ≤ 36
    → (if ltb base 2 || ltb 36 base then x else y) ≡ y
in_range x y lo hi = ground arith

-- For a base from 2 to 36, what `itos` writes is a `-` where the number is negative and the base 10,
-- then digits below the base that stand for the number's magnitude, the highest first: at least one
-- digit, of which the first is 0 only if it is the only one.
pub itos-value :
    (num : ℤ) (base : ℕ)
    → 2 ≤ base
    → base ≤ 36
    → (ds : List ℕ) × (itos num base ≡ sign_of num base ++ reverse (map digit_char ds))
      × (value base ds ≡ magnitude num)
      × All (λ d. d < base) ds
      × IsNumeral ds
unfolding itos
itos-value num base lo hi =
    let (ds, (e, v, below, numeral)) =
      digit_loop-Writes (magnitude num + 1) num base (sign_of num base) lo hi (omega arith) in
    let xs : List ℕ = map digit_char ds in
    let sign : List ℕ = sign_of num base in
    let n : length (sign ++ xs) ≡ length sign + length xs = length-append sign xs in
    (
      ds,
      in_range [] _ lo hi
          ∙ ap (λ buffer. swap_loop (length buffer) (length sign) (length buffer - 1) buffer) e
          ∙ same_loop (length (sign ++ xs)) refl (omega arith)
              (ap (λ l. sign ++ l) (sym (append-nil xs)))
          ∙ swap_loop-reverse (length (sign ++ xs)) sign xs [] (omega arith)
          ∙ ap (λ l. sign ++ l) (append-nil (reverse xs)),
      v,
      below,
      numeral,
    )

-- One character of `stoi`.
add_digit_lem :
    (base v d : ℕ)
    → d < 10
    → d + base * v + 48 ≤ max_int
    → add_digit base (pos v) (digit_char d) ≡ some (pos (d + base * v))
unfolding add_digit
add_digit_lem base v d h room = ground (arith, mul_comm base v)

digit_char_bounds : (d : ℕ) → d < 10 → digit_char d ≡ 48 + d
digit_char_bounds d h = ground arith

read_digit :
    (base v d : ℕ) (rest : List ℕ)
    → d < 10
    → d + base * v + 48 ≤ max_int
    → stoi_loop base (pos v) (digit_char d ∷ rest) ≡ stoi_loop base (pos (d + base * v)) rest
unfolding stoi_loop
read_digit base v d rest h room =
    let digit : (digit_char d == 0) ≡ false =
      ==_ne _ _ λ e. absurd (omega (arith, digit_char_bounds d h)) in
    rw (digit, add_digit_lem base v d h room) refl

-- The digits below 10, from the highest on, with what follows.
stoi_loop-reverse :
    (base : ℕ) (ds rest : List ℕ)
    → 2 ≤ base
    → base ≤ 10
    → All (λ d. d < base) ds
    → value base ds + 48 ≤ max_int
    → stoi_loop base (pos 0) (reverse (map digit_char ds) ++ rest)
      ≡ stoi_loop base (pos (value base ds)) rest
stoi_loop-reverse base [] rest lo hi below room = refl
stoi_loop-reverse base (d ∷ ds) rest lo hi (h, below) room =
    let smaller = mul-le-mul_right {m = 1} {n = base} (value base ds) (omega arith) in
    rw
      (
        reverse-cons (digit_char d) (map digit_char ds),
        append_assoc (reverse (map digit_char ds)) (digit_char d ∷ []) rest,
      )
      (stoi_loop-reverse base ds (digit_char d ∷ rest) lo hi below (omega (arith, smaller))
        ∙ read_digit base (value base ds) d rest (omega arith) room)

if_same : {A : Type 0} (b : Bool) (x : A) → (if b then x else x) ≡ x
if_same true x = refl
if_same false x = refl

-- A text that does not begin with a `-`.
abbrev IsUnsigned : List ℕ → Type 0
IsUnsigned [] = Unit
IsUnsigned (c ∷ _) = c ≢ b'-'

reverse-IsUnsigned :
    (base : ℕ) (ds rest : List ℕ)
    → base ≤ 10
    → All (λ d. d < base) ds
    → IsUnsigned rest
    → IsUnsigned (reverse (map digit_char ds) ++ rest)
reverse-IsUnsigned base [] rest hi below h = h
reverse-IsUnsigned base (d ∷ ds) rest hi (b, below) h =
    rw
      (
        reverse-cons (digit_char d) (map digit_char ds),
        append_assoc (reverse (map digit_char ds)) (digit_char d ∷ []) rest,
      )
      (reverse-IsUnsigned base ds (digit_char d ∷ rest) hi below
        (λ e. absurd (omega (arith, digit_char_bounds d (omega arith)))))

stoi_unsigned :
    (base : ℕ) (str : List ℕ) → IsUnsigned str → stoi base str ≡ stoi_loop base (pos 0) str
unfolding stoi
stoi_unsigned base [] h = refl
stoi_unsigned base (c ∷ str) h = rw (==_ne c b'-' h) refl

stoi_minus :
    (base n : ℕ) (str : List ℕ)
    → n ≤ max_int
    → stoi_loop base (pos 0) str ≡ some (pos (suc n))
    → stoi base (b'-' ∷ str) ≡ some (negsuc n)
unfolding stoi
stoi_minus base n str h e = rw e (ground arith)

read_signed :
    (num : ℤ) (base : ℕ) (xs : List ℕ)
    → IsUnsigned xs
    → magnitude num + 48 ≤ max_int
    → stoi_loop base (pos 0) xs ≡ some (pos (magnitude num))
    → stoi base (sign_of num base ++ xs) ≡ some (if base == 10 then num else pos (magnitude num))
read_signed (pos n) base xs u room h =
    stoi_unsigned base xs u ∙ h ∙ ap some (sym (if_same (base == 10) (pos n)))
read_signed (negsuc n) base xs u room h = elim (Bool-cases (base == 10)) [
  | inl t ↦ rw t (stoi_minus base n xs (omega arith) h)
  | inr f ↦ rw f (stoi_unsigned base xs u ∙ h)
]

-- In a base up to 10, `stoi` reads what `itos` has written: the number where the base is 10, and
-- its magnitude in the others. The magnitude is at least 48 below the end of `int`.
pub stoi-itos :
    (num : ℤ) (base : ℕ)
    → 2 ≤ base
    → base ≤ 10
    → magnitude num + 48 ≤ max_int
    → stoi base (itos num base) ≡ some (if base == 10 then num else pos (magnitude num))
unfolding stoi_loop
stoi-itos num base lo hi room =
    let (ds, e, v, below, _) = itos-value num base lo (omega arith) in
    let xs : List ℕ = reverse (map digit_char ds) in
    let read = stoi_loop-reverse base ds [] lo hi below (omega (arith, v)) in
    let plain = reverse-IsUnsigned base ds [] hi below tt in
    ap (stoi base) e
    ∙ read_signed num base xs (subst IsUnsigned (append-nil xs) plain) room
        (ap (stoi_loop base (pos 0)) (sym (append-nil xs)) ∙ read ∙ ap (λ n. some (pos n)) v)

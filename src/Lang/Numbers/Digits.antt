-- ===== src/Lang/Numbers/Digits.antt =====
-- The digits that the first loop of `itos` writes.
use native.Mathlib.Nat.{div-lt_self, mod-lt, zero-div}
use native.Mathlib.Omega.{div_any}
use native.Mathlib.Decide.{ℕ_discrete}
use aexkernel.Base.{
  ℕ, zero, suc, ◌+◌, ◌*◌, ◌/◌, ◌%◌, ◌≤◌, ◌<◌, ◌≡◌, ◌≢◌, refl, sym, ap, ◌∙◌, ◌⊎◌, inl, inr, Bool,
  true, false, ◌&&◌, List, [], ◌∷◌, ◌++◌, append_assoc, map, All, ltb, ◌==◌, if◌then◌else◌, ==_iff,
  ==_ne, arith,
}
use aexkernel.Base.Int.{ℤ, pos, negsuc, ◌+ℤ◌}
use aexkernel.Lang.Numbers.{digit_loop, digit, entry, div_int, neg, is_zero, magnitude}

-- The character of a digit: 0 to 9, then a to z.
abbrev pub digit_char : ℕ → ℕ
digit_char d = if ltb d 10 then 48 + d else 87 + d

-- The number that digits stand for, the lowest first.
abbrev pub value : ℕ → List ℕ → ℕ
value base [] = 0
value base (d ∷ ds) = d + base * value base ds

-- The last of the digits, which is the highest.
abbrev pub highest : List ℕ → ℕ
highest [] = 0
highest (d ∷ []) = d
highest (d ∷ e ∷ ds) = highest (e ∷ ds)

-- At least one digit, and the highest is not 0 unless it is the only one.
abbrev pub IsNumeral : List ℕ → Type 0
IsNumeral ds = (highest ds ≢ 0) ⊎ (ds ≡ 0 ∷ [])

one_digit : (d : ℕ) → IsNumeral (d ∷ [])
one_digit d = elim (ℕ_discrete d 0) [ yes z ↦ inr (ap (λ e. e ∷ []) z) | no n ↦ inl n ]

lower_digit : (base d : ℕ) (ds : List ℕ) → value base ds ≢ 0 → IsNumeral ds → IsNumeral (d ∷ ds)
lower_digit base d [] v n = absurd (v refl)
lower_digit base d (e ∷ ds) v (inl n) = inl n
lower_digit base d (e ∷ ds) v (inr z) = absurd (v (ap (λ l. value base l) z ∙ omega arith))

is_entry : ℕ → Bool
is_entry d = (entry (pos 35 +ℤ pos d) == digit_char d) && (entry (pos 35 +ℤ neg d) == digit_char d)

all_entries : ℕ → Bool
all_entries zero = true
all_entries (suc d) = is_entry d && all_entries d

and-left : (a b : Bool) → (a && b) ≡ true → a ≡ true
and-left true b h = refl
and-left false b h = h

and-right : (a b : Bool) → (a && b) ≡ true → b ≡ true
and-right true b h = h
and-right false b h = absurd (cc)

all_entries-is_entry : (k d : ℕ) → d < k → all_entries k ≡ true → is_entry d ≡ true
unfolding all_entries
all_entries-is_entry zero d h e = absurd (omega arith)
all_entries-is_entry (suc k) d h e = elim (ℕ_discrete d k) [
  | yes p ↦ rw p (and-left _ _ e)
  | no n ↦ all_entries-is_entry k d (omega arith) (and-right _ _ e)
]

-- The dictionary holds each digit on both sides of its middle.
dictionary : (d : ℕ) → d < 36 → is_entry d ≡ true
unfolding all_entries is_entry
dictionary d h = all_entries-is_entry 36 d h refl

digit_of_pos : (d : ℕ) → d < 36 → entry (pos 35 +ℤ pos d) ≡ digit_char d
unfolding is_entry
digit_of_pos d h = (==_iff _ _).0 (and-left _ _ (dictionary d h))

digit_of_neg : (d : ℕ) → d < 36 → entry (pos 35 +ℤ neg d) ≡ digit_char d
unfolding is_entry
digit_of_neg d h = (==_iff _ _).0 (and-right _ _ (dictionary d h))

digit_lem :
    (num : ℤ) (base : ℕ) → 2 ≤ base → base ≤ 36 → digit num base ≡ digit_char (magnitude num % base)
digit_lem (pos n) base lo hi =
    digit_of_pos (n % base) (omega (arith, mod-lt n {m = base} (omega arith)))
digit_lem (negsuc n) base lo hi =
    digit_of_neg (suc n % base) (omega (arith, mod-lt (suc n) {m = base} (omega arith)))

magnitude-neg : (n : ℕ) → magnitude (neg n) ≡ n
magnitude-neg zero = refl
magnitude-neg (suc n) = refl

is_zero-neg : (n : ℕ) → is_zero (neg n) ≡ (n == 0)
is_zero-neg zero = refl
is_zero-neg (suc n) = ground arith

magnitude-div_int : (num : ℤ) (base : ℕ) → magnitude (div_int num base) ≡ magnitude num / base
magnitude-div_int (pos n) base = refl
magnitude-div_int (negsuc n) base = magnitude-neg (suc n / base)

is_zero-div_int : (num : ℤ) (base : ℕ) → is_zero (div_int num base) ≡ (magnitude num / base == 0)
is_zero-div_int (pos n) base = refl
is_zero-div_int (negsuc n) base = is_zero-neg (suc n / base)

-- What the loop adds to `out`: digits below the base that stand for the number.
abbrev pub Writes : ℕ → ℤ → ℕ → List ℕ → List ℕ → Type 0
Writes fuel num base out ds =
    (digit_loop fuel num base out ≡ out ++ map digit_char ds)
    × (value base ds ≡ magnitude num)
    × All (λ d. d < base) ds
    × IsNumeral ds

last_digit :
    (fuel : ℕ) (num : ℤ) (base : ℕ) (out : List ℕ)
    → 2 ≤ base
    → base ≤ 36
    → magnitude num / base ≡ 0
    → Writes (suc fuel) num base out (magnitude num % base ∷ [])
unfolding digit_loop
last_digit fuel num base out lo hi q =
    let zero : is_zero (div_int num base) ≡ true = is_zero-div_int num base ∙ (==_iff _ _).1 q in
    (
      (rw (zero, digit_lem num base lo hi) refl),
      omega (arith, div_any (magnitude num) base, ap (λ n. base * n) q),
      (mod-lt (magnitude num) (omega arith), tt),
      one_digit (magnitude num % base),
    )

more_digits :
    (fuel : ℕ) (num : ℤ) (base : ℕ) (out ds : List ℕ)
    → 2 ≤ base
    → base ≤ 36
    → magnitude num / base ≢ 0
    → Writes fuel (div_int num base) base (out ++ (digit num base ∷ [])) ds
    → Writes (suc fuel) num base out (magnitude num % base ∷ ds)
unfolding digit_loop
more_digits fuel num base out ds lo hi q (e, v, below, numeral) =
    let more : is_zero (div_int num base) ≡ false = is_zero-div_int num base ∙ ==_ne _ _ q in
    let quotient : value base ds ≡ magnitude num / base = v ∙ magnitude-div_int num base in
    (
      (rw
          (
            more,
            e,
            append_assoc out (digit num base ∷ []) (map digit_char ds),
            digit_lem num base lo hi,
          )
          refl),
      omega (arith, div_any (magnitude num) base, ap (λ n. base * n) quotient),
      (mod-lt (magnitude num) (omega arith), below),
      lower_digit base (magnitude num % base) ds (λ z. q (sym quotient ∙ z)) numeral,
    )

shrinks :
    (num : ℤ) (base fuel : ℕ)
    → 2 ≤ base
    → magnitude num / base ≢ 0
    → magnitude num < suc fuel
    → magnitude (div_int num base) < fuel
shrinks num base fuel lo q h = elim (ℕ_discrete (magnitude num) 0) [
  | yes z ↦ absurd (q (rw z (zero-div base)))
  | no n ↦ omega (
    arith,
    magnitude-div_int num base,
    div-lt_self {n = magnitude num} {k = base} (omega arith) (omega arith),
  )
]

pub digit_loop-Writes :
    (fuel : ℕ) (num : ℤ) (base : ℕ) (out : List ℕ)
    → 2 ≤ base
    → base ≤ 36
    → magnitude num < fuel
    → (ds : List ℕ) × Writes fuel num base out ds
digit_loop-Writes zero num base out lo hi h = absurd (omega arith)
digit_loop-Writes (suc fuel) num base out lo hi h = elim (ℕ_discrete (magnitude num / base) 0) [
  | yes q ↦ (magnitude num % base ∷ [], last_digit fuel num base out lo hi q)
  | no q ↦
      let (ds, w) =
        digit_loop-Writes fuel (div_int num base) base (out ++ (digit num base ∷ [])) lo hi
          (shrinks num base fuel lo q h) in
      (magnitude num % base ∷ ds, more_digits fuel num base out ds lo hi q w)
]

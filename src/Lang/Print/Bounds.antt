-- ===== src/Lang/Print/Bounds.antt =====
-- What `snprintf` writes stays in the buffer.
use mathlib.Core.Path.{subst}
use aexkernel.Base.{
  ℕ, zero, suc, ◌+◌, ◌-◌, ◌≤◌, ◌<◌, ◌≡◌, refl, inl, inr, min, Bool, true, false, List, [], ◌∷◌,
  ◌++◌, Option, none, some, length, length-append, length-take, length-replicate, take, replicate,
  ltb, ◌==◌, ◌||◌, if◌then◌else◌, Bool-cases, ==_ne, arith,
}
use aexkernel.Base.Int.{ℤ, pos, ◌-ℤ◌, pos_part}
use aexkernel.Lang.Strings.{strlen}
use aexkernel.Lang.Strings.Copy.{length-strlen}
use aexkernel.Lang.Numbers.{stoi}
use aexkernel.Lang.Print.{
  Arg, Size, Printer, Outcome, printed, undefined, stuck, Step, snprintf, print_loop, go_on, round,
  directive, with_width, with_int, with_arg, with_string, convert, is_digit, is_number, read_digits,
  common, put_char, put_text, char_at, behind,
}

-- What is written and the room behind it fill `n` bytes.
abbrev pub Fits : ℕ → Printer → Type 0
Fits n p = length p.written + p.room ≡ n

put_text-Fits :
    (n : ℕ) (text : List ℕ) (k : ℕ) (p : Printer)
    → length text ≡ k
    → k ≤ p.room
    → Fits n p
    → Fits n (put_text text k p)
put_text-Fits n text k p e le h = omega (arith, length-append p.written text)

put_char-Fits : (n c : ℕ) (p : Printer) → Fits n p → Fits n (put_char c p)
unfolding put_char
put_char-Fits n c p h = ground (arith, length-append p.written (c ∷ []))

pub common-Fits :
    (n padchar : ℕ) (padlen : ℤ) (str : List ℕ) (p : Printer)
    → Fits n p
    → Fits n (common padchar padlen str p)
unfolding common
common-Fits n padchar padlen str p h =
    let pad_len : ℕ = min (pos_part (padlen -ℤ pos (strlen str))) p.room in
    let padded = put_text (replicate pad_len padchar) pad_len p in
    let total_len = min (strlen str) padded.room in
    let first : Fits n padded =
      put_text-Fits n _ pad_len p (length-replicate pad_len padchar) (omega arith) h in
    let second : Fits n (put_text (take total_len str) total_len padded) =
      put_text-Fits n _ total_len padded
        (omega (arith, length-take total_len str, length-strlen str)) (omega arith) first in
    elim (Bool-cases (p.room == 0)) [
      | inl e ↦ rw e h
      | inr e ↦ rw e (elim (Bool-cases (padded.room == 0)) [
        | inl f ↦ rw f first
        | inr f ↦
            rw f (elim (Bool-cases (total_len == 0)) [ inl g ↦ rw g first | inr g ↦ rw g second ])
      ])
    ]

-- A step that keeps `Fits`, and leaves at most `m` characters of the format.
abbrev StepFits : ℕ → ℕ → Step → Type 0
StepFits n m none = Unit
StepFits n m (some (p, _, format)) = Fits n p × (length format ≤ m)

module _ (n m : ℕ) where
  if-StepFits :
      (b : Bool) (x y : Step) → StepFits n m x → StepFits n m y → StepFits n m (if b then x else y)
  if-StepFits true x y h k = h
  if-StepFits false x y h k = k

  with_arg-StepFits :
      (args : List Arg) (f : Arg → List Arg → Step)
      → ((a : Arg) (rest : List Arg) → StepFits n m (f a rest))
      → StepFits n m (with_arg args f)
  with_arg-StepFits [] f h = tt
  with_arg-StepFits (a ∷ rest) f h = h a rest

  with_string-StepFits :
      (o : Option (List ℕ)) (f : List ℕ → Step)
      → ((str : List ℕ) → StepFits n m (f str))
      → StepFits n m (with_string o f)
  with_string-StepFits none f h = tt
  with_string-StepFits (some str) f h = h str

  with_int-StepFits :
      (o : Option ℤ) (f : ℤ → Step) → ((z : ℤ) → StepFits n m (f z)) → StepFits n m (with_int o f)
  with_int-StepFits none f h = tt
  with_int-StepFits (some z) f h = h z

  with_width-StepFits :
      (digits : List ℕ) (f : ℤ → Step)
      → ((z : ℤ) → StepFits n m (f z))
      → StepFits n m (with_width digits f)
  unfolding with_width
  with_width-StepFits digits f h =
      if-StepFits (length digits == 0) _ _ (h (pos 0))
        (if-StepFits (ltb 71 (length digits)) none _ tt (with_int-StepFits (stoi 10 digits) f h))

  convert-StepFits :
      (padchar : ℕ) (padlen : ℤ) (size : Size) (p : Printer) (args : List Arg) (format : List ℕ)
      → Fits n p
      → length format ≤ m
      → StepFits n m (convert padchar padlen size p args format)
  unfolding convert
  convert-StepFits padchar padlen size p args format h k =
      let c = char_at format in
      let common_fits : (str : List ℕ) → Fits n (common padchar padlen str p) =
        λ str. common-Fits n padchar padlen str p h in
      if-StepFits (c == 0) _ _ (h, k)
        (if-StepFits (c == b's') _ _
          (with_arg-StepFits args _
            (λ a rest. with_string-StepFits a.string _ (λ str. (common_fits str, k))))
          (if-StepFits (c == b'c') _ _
            (if-StepFits (p.room == 0) _ _ (h, k)
              (with_arg-StepFits args _ (λ a rest. (common_fits _, k))))
            (if-StepFits (is_number c) _ _ (with_arg-StepFits args _ (λ a rest. (common_fits _, k)))
              (put_char-Fits n c p h, k))))

length-read_digits : (format : List ℕ) → length (read_digits format).1 ≤ length format
unfolding read_digits
length-read_digits [] = omega arith
length-read_digits (c ∷ rest) = elim (Bool-cases (is_digit c)) [
  | inl e ↦ rw e (omega (arith, length-read_digits rest))
  | inr e ↦ rw e (omega arith)
]

length-behind : (format : List ℕ) → length (behind format) ≤ length format
length-behind [] = omega arith
length-behind (c ∷ rest) = omega arith

length-behind_if :
    (b : Bool) (format : List ℕ) → length (if b then behind format else format) ≤ length format
length-behind_if true format = length-behind format
length-behind_if false format = omega arith

directive-StepFits :
    (n m : ℕ) (p : Printer) (args : List Arg) (format : List ℕ)
    → Fits n p
    → length format ≤ m
    → StepFits n m (directive p args format)
unfolding directive
directive-StepFits n m p args format h k =
    let zeros = char_at format == b'0' in
    let text = if zeros then behind format else format in
    let left = (read_digits text).1 in
    let c = char_at left in
    with_width-StepFits n m _ _ (λ padlen. convert-StepFits n m _ padlen _ p args _ h (
      omega (
        arith,
        length-behind_if (c == b'l' || c == b'h') left,
        length-read_digits text,
        length-behind_if zeros format,
      )))

round-StepFits :
    (n : ℕ) (p : Printer) (args : List Arg) (format : List ℕ)
    → Fits n p
    → StepFits n (length format) (round p args format)
unfolding round
round-StepFits n p args format h =
    if-StepFits n (length format) (char_at format == b'%') _
      (some (put_char (char_at format) p, args, format))
      (directive-StepFits n (length format) p args (behind format) h (length-behind format))
      (put_char-Fits n (char_at format) p h, omega arith)

-- The text in a buffer of `len` bytes: it ends with a NUL, in the buffer.
abbrev pub Ends : ℕ → Outcome → Type 0
Ends len (printed out) = (length out ≤ len) × ((str : List ℕ) × (out ≡ str ++ (0 ∷ [])))
Ends len undefined = Unit
Ends len stuck = ⊥

go_on-Ends :
    (n m : ℕ) (again : Printer → List Arg → List ℕ → Outcome) (step : Step)
    → StepFits n m step
    → ((p : Printer) (args : List Arg) (rest : List ℕ)
        → Fits n p
        → length rest < m
        → Ends (suc n) (again p args rest))
    → Ends (suc n) (go_on again step)
go_on-Ends n m again none h next = tt
go_on-Ends n m again (some (p, args, [])) h next = tt
go_on-Ends n m again (some (p, args, c ∷ rest)) (h, k) next =
    elim (Bool-cases (char_at rest == 0)) [
      | inl e ↦ rw e (omega (arith, length-append p.written (0 ∷ [])), (p.written, refl))
      | inr e ↦ rw e (next p args rest h (omega arith))
    ]

print_loop-Ends :
    (n fuel : ℕ) (p : Printer) (args : List Arg) (format : List ℕ)
    → Fits n p
    → length format < fuel
    → Ends (suc n) (print_loop fuel p args format)
unfolding print_loop
print_loop-Ends n zero p args format h k = absurd (omega arith)
print_loop-Ends n (suc fuel) p args format h k =
    go_on-Ends n (length format) (print_loop fuel) (round p args format)
      (round-StepFits n p args format h)
      (λ p' args' rest h' k'. print_loop-Ends n fuel p' args' rest h' (omega arith))

-- With room for at least one byte, whatever the format and the arguments, the loop ends with the fuel
-- given; and where what it does is defined, the bytes that it has written are no more than the buffer
-- holds, and the last of them is a NUL.
pub snprintf-Ends :
    (len : ℕ) (format : List ℕ) (args : List Arg) → 1 ≤ len → Ends len (snprintf len format args)
unfolding snprintf
snprintf-Ends len format args h =
    let len_suc : suc (len - 1) ≡ len = omega arith in
    let loop =
      print_loop-Ends (len - 1) (length format + 1) (record { written = []; room = len - 1 }) args
        format (omega arith) (omega arith) in
    rw (==_ne len 0 (λ e. absurd (omega arith))) (
      subst
        (λ k.
          Ends k
            (print_loop (length format + 1) (record { written = []; room = len - 1 }) args format))
        len_suc loop)

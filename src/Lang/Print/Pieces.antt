-- ===== src/Lang/Print/Pieces.antt =====
-- Formats described by their pieces, and the round of the loop that prints one.
use native.Mathlib.Numerals.{unary_clauses}
use aexkernel.Base.{
  ℕ, zero, suc, ◌-◌, ◌%◌, ◌^◌, ◌≡◌, ◌≢◌, refl, sym, ap, ◌∙◌, inl, inr, min, List, [], ◌∷◌, ◌++◌,
  append-nil, none, some, length, length-take, take, take_all, replicate, ◌==◌, if◌then◌else◌,
  Bool-cases, ==_iff, ==_ne, arith,
}
use aexkernel.Base.Int.{pos, ◌-ℤ◌, pos_part}
use aexkernel.Lang.Strings.{strlen}
use aexkernel.Lang.Numbers.{itos}
use aexkernel.Lang.Strings.Copy.{length-strlen}
use aexkernel.Lang.Print.{
  Arg, Size, Printer, round, directive, with_width, convert, number, read_digits, common, put_char,
  put_text, signed, bits,
}

-- The directives that print a number.
pub data Kind : Type 0 where
  decimal : Kind
  unsigned : Kind
  hex : Kind
  pointer : Kind

-- A character, `%s` with its string, or a number with its size and the argument.
pub data Piece : Type 0 where
  plain : ℕ → Piece
  text : List ℕ → Piece
  numeral : Size → Kind → ℕ → Piece

abbrev pub kind_char : Kind → ℕ
kind_char Kind.decimal = b'i'
kind_char Kind.unsigned = b'u'
kind_char Kind.hex = b'x'
kind_char Kind.pointer = b'p'

abbrev pub size_chars : Size → List ℕ → List ℕ
size_chars Size.short rest = b'h' ∷ rest
size_chars Size.int rest = rest
size_chars Size.long rest = b'l' ∷ rest

-- The format of pieces, before `rest`.
abbrev pub format_piece : Piece → List ℕ → List ℕ
format_piece (plain c) rest = c ∷ rest
format_piece (text str) rest = b'%' ∷ b's' ∷ rest
format_piece (numeral size kind n) rest = b'%' ∷ size_chars size (kind_char kind ∷ rest)

abbrev pub format_of : List Piece → List ℕ → List ℕ
format_of [] rest = rest
format_of (piece ∷ pieces) rest = format_piece piece (format_of pieces rest)

abbrev pub args_piece : Piece → List Arg → List Arg
args_piece (plain c) args = args
args_piece (text str) args = record { value = 0; string = some str } ∷ args
args_piece (numeral size kind n) args = record { value = n; string = none } ∷ args

abbrev pub args_of : List Piece → List Arg → List Arg
args_of [] args = args
args_of (piece ∷ pieces) args = args_piece piece (args_of pieces args)

-- The number that a directive names: with a sign, of its size, or a register for a pointer.
abbrev pub shown : Size → Kind → ℕ → List ℕ
shown size Kind.decimal n = itos (signed (bits size) n) 10
shown size Kind.unsigned n = itos (pos (n % 2 ^ bits size)) 10
shown size Kind.hex n = itos (pos (n % 2 ^ bits size)) 16
shown size Kind.pointer n = itos (pos (n % 2 ^ 64)) 16

-- Up to the NUL.
abbrev pub c_string : List ℕ → List ℕ
c_string str = take (strlen str) str

abbrev pub text_piece : Piece → List ℕ
text_piece (plain c) = c ∷ []
text_piece (text str) = c_string str
text_piece (numeral size kind n) = c_string (shown size kind n)

abbrev pub text_of : List Piece → List ℕ
text_of [] = []
text_of (piece ∷ pieces) = text_piece piece ++ text_of pieces

-- A plain character is not the NUL and not `%`.
abbrev pub IsPiece : Piece → Type 0
IsPiece (plain c) = (c ≢ 0) × (c ≢ b'%')
IsPiece (text str) = Unit
IsPiece (numeral size kind n) = Unit

-- The printer with `text` added as far as there is room.
abbrev pub added : List ℕ → Printer → Printer
added str p = record { written = p.written ++ take p.room str; room = p.room - length str }

-- The last character of a piece.
abbrev pub last_char : Piece → ℕ
last_char (plain c) = c
last_char (text str) = b's'
last_char (numeral size kind n) = kind_char kind

same_printer :
    {w v : List ℕ} {r t : ℕ}
    → w ≡ v
    → r ≡ t
    → ◌≡◌ {A = Printer} (record { written = w; room = r }) (record { written = v; room = t })
same_printer e f = cc

put_char-added :
    (c : ℕ) (w : List ℕ) (r : ℕ)
    → let p : Printer = record { written = w; room = r } in put_char c p ≡ added (c ∷ []) p
unfolding put_char
put_char-added c w zero = same_printer (sym (append-nil w)) (omega arith)
put_char-added c w (suc r) =
    rw (==_ne (suc r) 0 (λ e. absurd (omega arith)))
      (same_printer (ap (λ l. w ++ (c ∷ l)) (sym (take_all r [] (omega arith)))) refl)

take-take : (a b : ℕ) (xs : List ℕ) → take b (take a xs) ≡ take (min a b) xs
take-take zero zero xs = refl
take-take zero (suc b) xs = simp unary_clauses refl
take-take (suc a) zero xs = simp unary_clauses refl
take-take (suc a) (suc b) [] = simp unary_clauses refl
take-take (suc a) (suc b) (x ∷ xs) = simp unary_clauses (ap (λ l. x ∷ l) (take-take a b xs))

no_pad : (s r : ℕ) → min (pos_part (pos 0 -ℤ pos s)) r ≡ 0
no_pad s r = ground arith

-- `snprintf_common` behind the padding.
abbrev behind_pad : List ℕ → List ℕ → ℕ → ℕ → Printer
behind_pad str w room pad =
    let padded : Printer = record { written = w ++ replicate pad b' '; room = room } in
    if padded.room == 0
    then padded
    else let total_len = min (strlen str) padded.room in
      if total_len == 0 then padded else put_text (take total_len str) total_len padded

behind_pad-added :
    (str w : List ℕ) (r : ℕ)
    → behind_pad str w (suc r) 0 ≡ added (c_string str) (record { written = w; room = suc r })
behind_pad-added str w r =
    let total_len = min (strlen str) (suc r) in
    let size = length-take (strlen str) str in
    let n = length-strlen str in
    let cut = take-take (strlen str) (suc r) str in
    rw (==_ne (suc r) 0 (λ e. absurd (omega arith))) (elim (Bool-cases (total_len == 0)) [
      | inl e ↦
          let none_left : total_len ≡ 0 = (==_iff total_len 0).0 e in
          rw e (
            same_printer (ap (λ l. w ++ l) (ap (λ k. take k str) (sym none_left) ∙ sym cut))
              (omega arith))
      | inr e ↦ rw (e, append-nil w) (same_printer (ap (λ l. w ++ l) (sym cut)) (omega arith))
    ])

common-added :
    (str w : List ℕ) (r : ℕ)
    → let p : Printer = record { written = w; room = r } in
      common b' ' (pos 0) str p ≡ added (c_string str) p
unfolding common
common-added str w zero = same_printer (sym (append-nil w)) (omega arith)
common-added str w (suc r) = rw (==_ne (suc r) 0 (λ e. absurd (omega arith))) (
    ap (λ k. behind_pad str w (suc r - k) k) (no_pad (strlen str) (suc r))
    ∙ ap (λ m. behind_pad str w m 0) (omega arith)
    ∙ behind_pad-added str w r)

round_numeral :
    (size : Size) (kind : Kind) (n : ℕ) (p : Printer) (args : List Arg) (rest : List ℕ)
    → let piece = numeral size kind n in
      round p (args_piece piece args) (format_piece piece rest)
      ≡ some (common b' ' (pos 0) (shown size kind n) p, args, kind_char kind ∷ rest)
unfolding round directive with_width convert read_digits number
round_numeral Size.short Kind.decimal n p args rest = refl
round_numeral Size.short Kind.unsigned n p args rest = refl
round_numeral Size.short Kind.hex n p args rest = refl
round_numeral Size.short Kind.pointer n p args rest = refl
round_numeral Size.int Kind.decimal n p args rest = refl
round_numeral Size.int Kind.unsigned n p args rest = refl
round_numeral Size.int Kind.hex n p args rest = refl
round_numeral Size.int Kind.pointer n p args rest = refl
round_numeral Size.long Kind.decimal n p args rest = refl
round_numeral Size.long Kind.unsigned n p args rest = refl
round_numeral Size.long Kind.hex n p args rest = refl
round_numeral Size.long Kind.pointer n p args rest = refl

pub round_piece :
    (piece : Piece) (p : Printer) (args : List Arg) (rest : List ℕ)
    → IsPiece piece
    → round p (args_piece piece args) (format_piece piece rest)
      ≡ some (added (text_piece piece) p, args, last_char piece ∷ rest)
unfolding round directive with_width convert read_digits
round_piece (plain c) p args rest (nul, percent) =
    rw (==_ne c b'%' percent)
      (ap (λ q. some (q, args, c ∷ rest)) (put_char-added c p.written p.room))
round_piece (text str) p args rest h =
    ap (λ q. some (q, args, b's' ∷ rest)) (common-added str p.written p.room)
round_piece (numeral size kind n) p args rest h =
    round_numeral size kind n p args rest
    ∙ ap (λ q. some (q, args, kind_char kind ∷ rest))
        (common-added (shown size kind n) p.written p.room)

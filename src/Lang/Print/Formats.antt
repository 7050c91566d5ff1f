-- ===== src/Lang/Print/Formats.antt =====
-- What formats print, and those that are read past their end.
use native.Mathlib.Numerals.{unary_clauses}
use aexkernel.Base.{
  take_all, ℕ, zero, suc, ◌+◌, ◌-◌, ◌≤◌, ◌<◌, ◌≡◌, refl, sym, ap, ◌∙◌, Bool, true, false, List, [],
  ◌∷◌, ◌++◌, append_assoc, append-nil, some, length, take, ◌==◌, ==_ne, All, arith,
}
use aexkernel.Lang.Print.{
  Arg, Size, Printer, Outcome, printed, undefined, snprintf, print_loop, go_on, round, directive,
  with_width, convert, read_digits, char_at,
}
use aexkernel.Lang.Print.Pieces.{
  Piece, plain, text, numeral, size_chars, format_piece, format_of, args_piece, args_of, text_piece,
  text_of, IsPiece, added, last_char, round_piece,
}

take-append_any :
    (n : ℕ) (xs ys : List ℕ) → take n (xs ++ ys) ≡ take n xs ++ take (n - length xs) ys
take-append_any n [] ys =
    rw (take_all {A = ℕ} n [] (omega arith)) (ap (λ k. take k ys) {x = n} {y = n - 0} (omega arith))
take-append_any zero (x ∷ xs) ys =
    ap (λ k. take k ys) {x = 0} {y = 0 - length (x ∷ xs)} (omega arith)
take-append_any (suc n) (x ∷ xs) ys = simp unary_clauses (ap (λ l. x ∷ l) (take-append_any n xs ys))

-- What is printed from `p` on: `str` as far as there is room, and the NUL.
abbrev finished : Printer → List ℕ → Outcome
finished p str = printed ((p.written ++ take p.room str) ++ (0 ∷ []))

finished-added : (p : Printer) (xs ys : List ℕ) → finished (added xs p) ys ≡ finished p (xs ++ ys)
finished-added p xs ys =
    ap (λ l. printed (l ++ (0 ∷ [])))
      (append_assoc p.written (take p.room xs) (take (p.room - length xs) ys)
        ∙ ap (λ l. p.written ++ l) (sym (take-append_any p.room xs ys)))

char_at-format_piece :
    (piece : Piece) (rest : List ℕ)
    → IsPiece piece
    → (char_at (format_piece piece rest) == 0) ≡ false
char_at-format_piece (plain c) rest (nul, _) = ==_ne c 0 nul
char_at-format_piece (text str) rest h = refl
char_at-format_piece (numeral size kind n) rest h = refl

go_on_more :
    (fuel : ℕ) (p : Printer) (args : List Arg) (c : ℕ) (rest : List ℕ)
    → (char_at rest == 0) ≡ false
    → go_on (print_loop fuel) (some (p, args, c ∷ rest)) ≡ print_loop fuel p args rest
go_on_more fuel p args c rest e = rw e refl

-- One piece that is not the last.
loop_piece :
    (fuel : ℕ) (piece : Piece) (p : Printer) (args : List Arg) (rest : List ℕ)
    → IsPiece piece
    → (char_at rest == 0) ≡ false
    → print_loop (suc fuel) p (args_piece piece args) (format_piece piece rest)
      ≡ print_loop fuel (added (text_piece piece) p) args rest
unfolding print_loop
loop_piece fuel piece p args rest h e =
    ap (go_on (print_loop fuel)) (round_piece piece p args rest h)
    ∙ go_on_more fuel (added (text_piece piece) p) args (last_char piece) rest e

loop_last :
    (fuel : ℕ) (piece : Piece) (p : Printer)
    → IsPiece piece
    → print_loop (suc fuel) p (args_piece piece []) (format_piece piece [])
      ≡ finished p (text_piece piece)
unfolding print_loop
loop_last fuel piece p h = ap (go_on (print_loop fuel)) (round_piece piece p [] [] h)

loop_pieces :
    (fuel : ℕ) (piece : Piece) (pieces : List Piece) (p : Printer)
    → All IsPiece (piece ∷ pieces)
    → length pieces < fuel
    → print_loop fuel p (args_of (piece ∷ pieces) []) (format_of (piece ∷ pieces) [])
      ≡ finished p (text_of (piece ∷ pieces))
loop_pieces zero piece pieces p h k = absurd (omega arith)
loop_pieces (suc fuel) piece [] p (h, _) k =
    loop_last fuel piece p h ∙ ap (finished p) (sym (append-nil (text_piece piece)))
loop_pieces (suc fuel) piece (next ∷ pieces) p (h, more) k =
    loop_piece fuel piece p (args_of (next ∷ pieces) []) (format_of (next ∷ pieces) []) h
      (char_at-format_piece next (format_of pieces []) more.0)
    ∙ loop_pieces fuel next pieces (added (text_piece piece) p) more (omega arith)
    ∙ finished-added p (text_piece piece) (text_of (next ∷ pieces))

length-format_of :
    (pieces : List Piece) (rest : List ℕ)
    → length pieces + length rest ≤ length (format_of pieces rest)
length-format_of [] rest = omega arith
length-format_of (plain c ∷ pieces) rest = omega (arith, length-format_of pieces rest)
length-format_of (text str ∷ pieces) rest = omega (arith, length-format_of pieces rest)
length-format_of (numeral Size.short kind n ∷ pieces) rest =
    omega (arith, length-format_of pieces rest)
length-format_of (numeral Size.int kind n ∷ pieces) rest =
    omega (arith, length-format_of pieces rest)
length-format_of (numeral Size.long kind n ∷ pieces) rest =
    omega (arith, length-format_of pieces rest)

-- A format of at least one piece, each a plain character, `%s`, or `%i`, `%u`, `%x` or `%p` with `h`,
-- `l` or no size, and its arguments: the buffer gets the text of the pieces as far as it fits before
-- the last byte, then a NUL. A number's text is what `itos` writes for the argument's bits of the size.
pub snprintf_pieces :
    (len : ℕ) (piece : Piece) (pieces : List Piece)
    → 1 ≤ len
    → All IsPiece (piece ∷ pieces)
    → snprintf len (format_of (piece ∷ pieces) []) (args_of (piece ∷ pieces) [])
      ≡ printed (take (len - 1) (text_of (piece ∷ pieces)) ++ (0 ∷ []))
unfolding snprintf
snprintf_pieces len piece pieces h k = rw (==_ne len 0 (λ e. absurd (omega arith))) (
    loop_pieces (length (format_of (piece ∷ pieces) []) + 1) piece pieces
      (record { written = []; room = len - 1 }) k
      (omega (arith, length-format_of (piece ∷ pieces) [])))

-- A directive that the format ends in: `%`, the `0` or none, the size or none.
abbrev pub open_directive : Bool → Size → List ℕ
open_directive true size = b'%' ∷ b'0' ∷ size_chars size []
open_directive false size = b'%' ∷ size_chars size []

loop_open :
    (fuel : ℕ) (zeros : Bool) (size : Size) (p : Printer) (args : List Arg)
    → print_loop (suc fuel) p args (open_directive zeros size) ≡ undefined
unfolding print_loop round directive with_width convert read_digits
loop_open fuel true Size.short p args = refl
loop_open fuel true Size.int p args = refl
loop_open fuel true Size.long p args = refl
loop_open fuel false Size.short p args = refl
loop_open fuel false Size.int p args = refl
loop_open fuel false Size.long p args = refl

char_at-format_of :
    (pieces : List Piece) (zeros : Bool) (size : Size)
    → All IsPiece pieces
    → (char_at (format_of pieces (open_directive zeros size)) == 0) ≡ false
char_at-format_of [] true size h = refl
char_at-format_of [] false size h = refl
char_at-format_of (piece ∷ pieces) zeros size (h, _) =
    char_at-format_piece piece (format_of pieces (open_directive zeros size)) h

loop_pieces_open :
    (fuel : ℕ) (pieces : List Piece) (zeros : Bool) (size : Size) (p : Printer) (args : List Arg)
    → All IsPiece pieces
    → length pieces < fuel
    → print_loop fuel p (args_of pieces args) (format_of pieces (open_directive zeros size))
      ≡ undefined
loop_pieces_open zero pieces zeros size p args h k = absurd (omega arith)
loop_pieces_open (suc fuel) [] zeros size p args h k = loop_open fuel zeros size p args
loop_pieces_open (suc fuel) (piece ∷ pieces) zeros size p args (h, more) k =
    loop_piece fuel piece p (args_of pieces args) (format_of pieces (open_directive zeros size)) h
      (char_at-format_of pieces zeros size more)
    ∙ loop_pieces_open fuel pieces zeros size (added (text_piece piece) p) args more (omega arith)

-- A format of plain characters, `%s`, and `%i`, `%u`, `%x` or `%p` with `h`, `l` or no size, that ends
-- inside a directive, before its character, is read behind its NUL, whatever the size of the buffer from
-- 1 on and the further arguments.
pub snprintf_reads_past :
    (len : ℕ) (pieces : List Piece) (zeros : Bool) (size : Size) (args : List Arg)
    → 1 ≤ len
    → All IsPiece pieces
    → snprintf len (format_of pieces (open_directive zeros size)) (args_of pieces args) ≡ undefined
unfolding snprintf
snprintf_reads_past len pieces zeros size args h k = rw (==_ne len 0 (λ e. absurd (omega arith))) (
    loop_pieces_open (length (format_of pieces (open_directive zeros size)) + 1) pieces zeros size
      (record { written = []; room = len - 1 }) args k
      (omega (arith, length-format_of pieces (open_directive zeros size))))

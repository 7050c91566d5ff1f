-- ===== src/Lang/Print/Tests.antt =====
-- Directives with widths and sizes, and what does not fit.
use aexkernel.Base.{ℕ, List, [], ◌∷◌, ◌++◌, ◌≡◌, true, refl, none, take, arith}
use aexkernel.Lang.Strings.{strlen}
use aexkernel.Lang.Numbers.{codes, itos, stoi, digit_loop, swap_loop, stoi_loop, add_digit}
use aexkernel.Lang.Print.Bounds.{Ends, snprintf-Ends}
use aexkernel.Lang.Print.Pieces.{Kind, Piece, plain, text, numeral, format_of, args_of, text_of}
use aexkernel.Lang.Print.Formats.{open_directive, snprintf_pieces, snprintf_reads_past}
use aexkernel.Lang.Print.{
  Size, Arg, Outcome, printed, undefined, snprintf, print_loop, round, directive, with_width,
  convert, number, read_digits, common, put_char,
}

word : ℕ → Arg
word n = record { value = n; string = none }

abbrev terminated : List ℕ → Outcome
terminated str = printed (str ++ (0 ∷ []))

padded_hex :
    snprintf 20 (codes "a: 0x%08x.") (word 48879 ∷ []) ≡ terminated (codes "a: 0x0000beef.")
unfolding snprintf print_loop round directive with_width convert number read_digits common put_char
    itos stoi digit_loop swap_loop stoi_loop add_digit word strlen
padded_hex = refl

cut_short : snprintf 4 (codes "abcdef") [] ≡ terminated (codes "abc")
unfolding snprintf print_loop round put_char
cut_short = refl

open_percent : snprintf 9 (codes "50%") [] ≡ undefined
unfolding snprintf print_loop round directive with_width convert read_digits put_char
open_percent = refl

snprintf-Ends_example : Ends 4 (snprintf 4 (codes "%5s%c") (word 7 ∷ []))
snprintf-Ends_example = snprintf-Ends 4 (codes "%5s%c") (word 7 ∷ []) (omega arith)

two_pieces : List Piece
two_pieces = text (codes "up") ∷ numeral Size.long Kind.hex 255 ∷ []

snprintf_pieces_example :
    snprintf 9 (format_of (plain b'a' ∷ two_pieces) []) (args_of (plain b'a' ∷ two_pieces) [])
    ≡ printed (take 8 (text_of (plain b'a' ∷ two_pieces)) ++ (0 ∷ []))
unfolding two_pieces
snprintf_pieces_example = snprintf_pieces 9 (plain b'a') two_pieces (omega arith) (omega arith)

snprintf_reads_past_example :
    snprintf 9 (format_of two_pieces (open_directive true Size.short)) (args_of two_pieces [])
    ≡ undefined
unfolding two_pieces
snprintf_reads_past_example =
    snprintf_reads_past 9 two_pieces true Size.short [] (omega arith) (omega arith)

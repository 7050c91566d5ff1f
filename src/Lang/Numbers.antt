-- ===== src/Lang/Numbers.antt =====
-- `itos` and `stoi` of include/aex/string.hpp: numbers written as text and read back. A number is an
-- integer of any width. A text is the list of its characters, without the NUL.
mod Digits
mod Reversal
pub mod RoundTrip
mod Tests
use Prim.Native.Char.{code}
use Prim.Native.String.{String}
use aexkernel.Base.{
  ℕ, zero, suc, ◌+◌, ◌-◌, ◌*◌, ◌/◌, ◌%◌, Bool, true, false, ◌&&◌, ◌||◌, List, [], ◌∷◌, ◌++◌, Option,
  none, some, ltb, leb, ◌==◌, if◌then◌else◌, length, set, get_or,
}
use aexkernel.Base.Int.{ℤ, pos, negsuc, ◌+ℤ◌, ◌-ℤ◌}

-- The code points of a text.
abbrev pub codes : String → List ℕ
codes String.[] = []
codes (String.◌∷◌ c s) = code c ∷ codes s

-- Index 35 holds the digit 0.
abbrev pub xtox_dictionary : List ℕ
xtox_dictionary = codes "zyxwvutsrqponmlkjihgfedcba9876543210123456789abcdefghijklmnopqrstuvwxyz"

-- `-n`.
abbrev pub neg : ℕ → ℤ
neg zero = pos 0
neg (suc n) = negsuc n

-- Division truncates towards 0, and the remainder has the sign of the number.
abbrev pub div_int : ℤ → ℕ → ℤ
div_int (pos n) base = pos (n / base)
div_int (negsuc n) base = neg (suc n / base)

abbrev pub mod_int : ℤ → ℕ → ℤ
mod_int (pos n) base = pos (n % base)
mod_int (negsuc n) base = neg (suc n % base)

abbrev pub is_zero : ℤ → Bool
is_zero (pos n) = n == 0
is_zero (negsuc _) = false

abbrev pub is_negative : ℤ → Bool
is_negative (pos _) = false
is_negative (negsuc _) = true

abbrev pub magnitude : ℤ → ℕ
magnitude (pos n) = n
magnitude (negsuc n) = suc n

abbrev pub entry : ℤ → ℕ
entry (pos i) = get_or xtox_dictionary i 0
entry (negsuc _) = 0

abbrev pub digit : ℤ → ℕ → ℕ
digit num base = entry (pos 35 +ℤ mod_int num base)

-- The first loop: the digits, the lowest first, behind what is written.
unfoldable pub digit_loop : ℕ → ℤ → ℕ → List ℕ → List ℕ
digit_loop zero num base out = out
digit_loop (suc fuel) num base out =
    let written = out ++ (digit num base ∷ []) in
    let rest = digit_loop fuel (div_int num base) base written in
    if is_zero (div_int num base) then written else rest

-- The second loop: the characters from `low` to `ptr` are swapped from both ends.
unfoldable pub swap_loop : ℕ → ℕ → ℕ → List ℕ → List ℕ
swap_loop zero low ptr buffer = buffer
swap_loop (suc fuel) low ptr buffer =
    let tmp = get_or buffer low 0 in
    let swapped = set (set buffer low (get_or buffer ptr 0)) ptr tmp in
    let rest = swap_loop fuel (low + 1) (ptr - 1) swapped in if ltb low ptr then rest else buffer

abbrev pub sign_of : ℤ → ℕ → List ℕ
sign_of num base = if is_negative num && (base == 10) then b'-' ∷ [] else []

unfoldable pub itos : ℤ → ℕ → List ℕ
itos num base =
    if ltb base 2 || ltb 36 base
    then []
    else let sign = sign_of num base in
      let buffer = digit_loop (magnitude num + 1) num base sign in
      swap_loop (length buffer) (length sign) (length buffer - 1) buffer

-- `int` holds -2147483648 … 2147483647, and what leaves that range is undefined.
abbrev pub max_int : ℕ
max_int = 2147483647

abbrev pub fits : ℤ → Option ℤ
fits (pos n) = if leb n max_int then some (pos n) else none
fits (negsuc n) = if leb n max_int then some (negsuc n) else none

abbrev pub then_int : Option ℤ → (ℤ → Option ℤ) → Option ℤ
then_int none f = none
then_int (some z) f = f z

abbrev pub mul_int : ℤ → ℕ → ℤ
mul_int (pos n) base = pos (n * base)
mul_int (negsuc n) base = neg (suc n * base)

-- `res * base + c - '0'`, each operation in the range of `int`. `char` is signed.
abbrev pub char_int : ℕ → ℤ
char_int c = if ltb c 128 then pos c else neg (256 - c)

unfoldable pub add_digit : ℕ → ℤ → ℕ → Option ℤ
add_digit base res c =
    then_int (fits (mul_int res base))
      (λ scaled. then_int (fits (scaled +ℤ char_int c)) (λ sum. fits (sum -ℤ pos b'0')))

-- The loop of `stoi<int>`, up to a NUL.
unfoldable pub stoi_loop : ℕ → ℤ → List ℕ → Option ℤ
stoi_loop base res [] = some res
stoi_loop base res (c ∷ str) =
    if c == 0 then some res else then_int (add_digit base res c) (λ next. stoi_loop base next str)

unfoldable pub stoi : ℕ → List ℕ → Option ℤ
stoi base [] = stoi_loop base (pos 0) []
stoi base (c ∷ str) =
    if c == b'-'
    then then_int (stoi_loop base (pos 0) str) (λ res. fits (pos 0 -ℤ res))
    else stoi_loop base (pos 0) (c ∷ str)

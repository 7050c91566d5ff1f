-- ===== src/Lang/Print.antt =====
-- kernel/snprintf.cpp: formatted text. The format is its characters, its NUL the one behind the list's
-- end; to read behind that NUL is undefined. A variable argument is a 64-bit register, and the string
-- at that address where it points to one.
pub mod Bounds
pub mod Formats
mod Pieces
mod Tests
use aexkernel.Base.{
  ℕ, zero, suc, ◌+◌, ◌-◌, ◌%◌, ◌^◌, min, Bool, true, false, ◌&&◌, ◌||◌, List, [], ◌∷◌, ◌++◌, Option,
  none, some, ltb, leb, ◌==◌, if◌then◌else◌, length, take, replicate,
}
use aexkernel.Base.Int.{ℤ, pos, negsuc, ◌-ℤ◌, pos_part}
use aexkernel.Lang.Strings.{strlen}
use aexkernel.Lang.Numbers.{itos, stoi}

pub record Arg : Type 0 where
  value : ℕ
  string : Option (List ℕ)

-- `size`.
pub data Size : Type 0 where
  short : Size
  int : Size
  long : Size

-- The buffer up to the pointer, and `len`, the room behind it without the last byte.
pub record Printer : Type 0 where
  written : List ℕ
  room : ℕ

abbrev pub put_text : List ℕ → ℕ → Printer → Printer
put_text text n p = record { written = p.written ++ text; room = p.room - n }

-- One character, where there is room.
unfoldable pub put_char : ℕ → Printer → Printer
put_char c p = if p.room == 0 then p else put_text (c ∷ []) 1 p

-- The lambda `snprintf_common`.
unfoldable pub common : ℕ → ℤ → List ℕ → Printer → Printer
common padchar padlen str p =
    if p.room == 0
    then p
    else let pad_len = min (pos_part (padlen -ℤ pos (strlen str))) p.room in
      let padded = put_text (replicate pad_len padchar) pad_len p in
      if padded.room == 0
      then padded
      else let total_len = min (strlen str) padded.room in
        if total_len == 0 then padded else put_text (take total_len str) total_len padded

-- `*format`, and `++format` from a character before the NUL.
abbrev pub char_at : List ℕ → ℕ
char_at [] = 0
char_at (c ∷ _) = c

abbrev pub behind : List ℕ → List ℕ
behind [] = []
behind (_ ∷ rest) = rest

abbrev pub is_digit : ℕ → Bool
is_digit c = leb b'0' c && leb c b'9'

-- The digits at the front, and what follows them.
unfoldable pub read_digits : List ℕ → List ℕ × List ℕ
read_digits [] = ([], [])
read_digits (c ∷ rest) =
    let (digits, left) = read_digits rest in
    if is_digit c then (c ∷ digits, left) else ([], c ∷ rest)

-- A register's low bits as a number with a sign.
abbrev pub signed : ℕ → ℕ → ℤ
signed w n =
    let low = n % 2 ^ w in if ltb low (2 ^ (w - 1)) then pos low else negsuc (2 ^ w - 1 - low)

abbrev pub bits : Size → ℕ
bits Size.short = 16
bits Size.int = 32
bits Size.long = 64

-- The number that a directive prints: `i`, `u`, `x`, and `p` where `BIT64` is set.
unfoldable pub number : ℕ → Size → ℕ → List ℕ
number c size n =
    if c == b'i'
    then itos (signed (bits size) n) 10
    else if c == b'u'
    then itos (pos (n % 2 ^ bits size)) 10
    else if c == b'x'
    then itos (pos (n % 2 ^ bits size)) 16
    else itos (pos (n % 2 ^ 64)) 16

abbrev pub is_number : ℕ → Bool
is_number c = c == b'i' || c == b'u' || c == b'x' || c == b'p'

-- What a directive leaves: the printer, the arguments, and the format at its last character. None
-- where the behaviour is undefined.
abbrev pub Step : Type 0
Step = Option (Printer × List Arg × List ℕ)

abbrev pub with_arg : List Arg → (Arg → List Arg → Step) → Step
with_arg [] f = none
with_arg (a ∷ rest) f = f a rest

abbrev pub with_string : Option (List ℕ) → (List ℕ → Step) → Step
with_string none f = none
with_string (some str) f = f str

-- The directive's character. `%c` takes its argument only where there is room.
unfoldable pub convert : ℕ → ℤ → Size → Printer → List Arg → List ℕ → Step
convert padchar padlen size p args format =
    let c = char_at format in
    let print =
      λ (str : List ℕ) (rest : List Arg). some (common padchar padlen str p, rest, format) in
    if c == 0
    then some (p, args, format)
    else if c == b's'
    then with_arg args (λ a rest. with_string a.string (λ str. print str rest))
    else if c == b'c'
    then (if p.room == 0
        then some (p, args, format)
        else with_arg args (λ a rest. print ((a.value % 256) ∷ []) rest))
    else if is_number c
    then with_arg args (λ a rest. print (number c size a.value) rest)
    else some (put_char c p, args, format)

abbrev pub with_int : Option ℤ → (ℤ → Step) → Step
with_int none f = none
with_int (some z) f = f z

-- The width: `tmp_buffer` has 72 bytes, for the digits and a NUL.
unfoldable pub with_width : List ℕ → (ℤ → Step) → Step
with_width digits f =
    if length digits == 0
    then f (pos 0)
    else if ltb 71 (length digits)
    then none
    else with_int (stoi 10 digits) f

abbrev pub size_of : ℕ → Size
size_of c = if c == b'l' then Size.long else if c == b'h' then Size.short else Size.int

-- A directive, from behind its `%` on.
unfoldable pub directive : Printer → List Arg → List ℕ → Step
directive p args format =
    let zeros = char_at format == b'0' in
    let padchar = if zeros then b'0' else b' ' in
    let (digits, left) = read_digits (if zeros then behind format else format) in
    with_width digits (λ padlen.
      let c = char_at left in
      convert padchar padlen (size_of c) p args
        (if c == b'l' || c == b'h' then behind left else left))

-- One round of the loop, before its condition.
unfoldable pub round : Printer → List Arg → List ℕ → Step
round p args format =
    if char_at format == b'%'
    then directive p args (behind format)
    else some (put_char (char_at format) p, args, format)

pub data Outcome : Type 0 where
  printed : List ℕ → Outcome
  undefined : Outcome
  stuck : Outcome

-- `while (*++format != '\0')`, then the NUL; `again` is the next round.
abbrev pub go_on : (Printer → List Arg → List ℕ → Outcome) → Step → Outcome
go_on again none = undefined
go_on again (some (p, args, [])) = undefined
go_on again (some (p, args, _ ∷ rest)) =
    if char_at rest == 0 then printed (p.written ++ (0 ∷ [])) else again p args rest

unfoldable pub print_loop : ℕ → Printer → List Arg → List ℕ → Outcome
print_loop zero p args format = stuck
print_loop (suc fuel) p args format = go_on (print_loop fuel) (round p args format)

-- What the buffer of `len` bytes holds then.
unfoldable pub snprintf : ℕ → List ℕ → List Arg → Outcome
snprintf len format args =
    if len == 0
    then printed []
    else print_loop (length format + 1) (record { written = []; room = len - 1 }) args format

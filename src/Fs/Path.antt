-- ===== src/Fs/Path.antt =====
-- fs/path.cpp. A path is the list of its characters before the NUL; the walker's index into it is what
-- is left of the path. The buffer that `canonize_path` writes is a byte for each index.
pub mod Components
pub mod Pieces
pub mod Valid
pub mod Buffers
pub mod Written
pub mod Room
pub mod Canonize
pub mod Tests
use aexkernel.Base.{
  ℕ, zero, suc, ◌+◌, ◌-◌, Bool, true, false, ◌&&◌, ◌||◌, not, Option, none, some, List, [], ◌∷◌,
  ◌++◌, ltb, leb, ◌==◌, if◌then◌else◌, length, min, take, drop, get_or,
}
use aexkernel.Base.Int.{ℤ, pos, negsuc}
use aexkernel.Lang.Strings.{strcmp}

abbrev pub slash : ℕ
slash = 47

abbrev pub max_path_len : ℕ
max_path_len = 2048

abbrev pub max_filename_len : ℕ
max_filename_len = 256

abbrev pub is_empty : List ℕ → Bool
is_empty [] = true
is_empty (c ∷ cs) = false

-- The first character; the NUL where there is none.
abbrev pub first : List ℕ → ℕ
first [] = 0
first (c ∷ cs) = c

-- `while (path[index] == '/') index++;`
unfoldable pub skip_slashes : List ℕ → List ℕ
skip_slashes [] = []
skip_slashes (c ∷ cs) = let rest = skip_slashes cs in if c == slash then rest else c ∷ cs

-- `while (path[index] && path[index] != '/') index++;`
unfoldable pub skip_piece : List ℕ → List ℕ
skip_piece [] = []
skip_piece (c ∷ cs) = let rest = skip_piece cs in if c == slash then c ∷ cs else rest

-- The rounds of `count_levels`, on fuel.
unfoldable pub count_loop : ℕ → List ℕ → ℕ
count_loop zero path = 0
count_loop (suc n) path =
    let rest = count_loop n (skip_slashes (skip_piece path)) in
    if is_empty path then 0 else rest + 1

unfoldable pub count_levels : List ℕ → ℕ
count_levels path = count_loop (length path) (skip_slashes path)

pub record Walker : Type 0 where
  pub rest : List ℕ
  pub too_long : Bool
  pub at_level : ℕ
  pub levels : ℕ

unfoldable pub walker : List ℕ → Walker
walker path = record { rest = path; too_long = false; at_level = 0; levels = count_levels path }

-- The characters of a piece, of which there are `n` in the buffer, what is left, and whether the piece
-- is too long.
unfoldable pub take_piece : ℕ → List ℕ → List ℕ × List ℕ × Bool
take_piece n [] = ([], [], false)
take_piece n (c ∷ cs) =
    let (piece, rest, long) = take_piece (n + 1) cs in
    if c == slash
    then ([], c ∷ cs, false)
    else if leb (max_filename_len - 1) n
    then ([], c ∷ cs, true)
    else (c ∷ piece, rest, long)

unfoldable pub next : Walker → Option (List ℕ) × Walker
next w =
    let (piece, rest, long) = take_piece 0 (skip_slashes w.rest) in
    let moved = record w { rest = rest } in
    if is_empty w.rest || w.too_long
    then (none, w)
    else if long
    then (none, record moved { too_long = true })
    else if is_empty piece
    then (none, moved)
    else (some piece, record moved { at_level = w.at_level + 1 })

abbrev pub is_final : Walker → Bool
is_final w = w.at_level == w.levels

unfoldable pub check_length : List ℕ → Bool
check_length path = ltb (length path + 1) max_path_len

-- `path[strlen(path) - 1] == '/'`: of an empty path it is the byte `before` it that is read.
unfoldable pub ends_with_slash : ℕ → List ℕ → Bool
ends_with_slash before [] = before == slash
ends_with_slash before (c ∷ cs) = get_or (c ∷ cs) (length (c ∷ cs) - 1) 0 == slash

-- A piece of `is_valid`, with its count of characters, or `none` where there are too many.
unfoldable pub count_piece : ℕ → List ℕ → Option (ℕ × List ℕ)
count_piece n [] = some (n, [])
count_piece n (c ∷ cs) =
    let rest = count_piece (n + 1) cs in
    if c == slash then some (n, c ∷ cs) else if leb (max_filename_len - 1) n then none else rest

-- The outer loop of `is_valid`, on fuel; the count goes on from piece to piece.
unfoldable pub valid_loop : ℕ → ℕ → List ℕ → Bool
valid_loop zero n path = true
valid_loop (suc k) n path = if is_empty path then true else elim (count_piece n path) [
  | none ↦ false
  | some (n', rest) ↦ valid_loop k n' (skip_slashes rest)
]

unfoldable pub is_valid : List ℕ → Bool
is_valid path =
    if not (check_length path)
    then false
    else if not (first path == slash)
    then false
    else valid_loop (length path) 0 (skip_slashes (drop 1 path))

-- What is behind the last slash.
unfoldable pub last_piece : List ℕ → List ℕ → List ℕ
last_piece last [] = last
last_piece last (c ∷ cs) = if c == slash then last_piece cs cs else last_piece last cs

-- `get_filename`, with the string that it leaves in a buffer of a byte at least, or the path itself.
unfoldable pub get_filename : List ℕ → ℕ → List ℕ
get_filename path num =
    let slash_last = get_or path (length path - 1) 0 == slash in
    let path' = if slash_last then take (length path - 1) path else path in
    if leb (length path) 1
    then path
    else take (min num (length (last_piece path' path') + 1) - 1) (last_piece path' path')

abbrev pub Buffer : Type 0
Buffer = ℕ → ℕ

abbrev pub put : Buffer → ℕ → ℕ → Buffer
put b i c j = if j == i then c else b j

unfoldable pub store : Buffer → ℕ → List ℕ → Buffer
store b i [] = b
store b i (c ∷ cs) = store (put b i c) (i + 1) cs

abbrev is_zero : ℤ → Bool
is_zero (pos n) = n == 0
is_zero (negsuc n) = false

unfoldable pub is_dot : List ℕ → Bool
is_dot piece = is_zero (strcmp piece (46 ∷ []))

unfoldable pub is_dot_dot : List ℕ → Bool
is_dot_dot piece = is_zero (strcmp piece (46 ∷ 46 ∷ []))

-- `while (index > 0 && buffer[index] != '/') index--;`
unfoldable pub climb : Buffer → ℕ → ℕ
climb b zero = 0
climb b (suc i) = let rest = climb b i in if b (suc i) == slash then suc i else rest

-- A round of the loop over pieces, with `buffer_len` less one.
unfoldable pub canonize_piece : ℕ → List ℕ → Buffer → ℕ → Option (Buffer × ℕ)
canonize_piece limit piece b index =
    if is_dot piece
    then some (b, index)
    else if is_dot_dot piece
    then (if climb b index == 0 then some (b, 0) else some (put b (climb b index) 0, climb b index))
    else if leb limit (index + length piece)
    then none
    else some (
      store (put b index slash) (index + 1)
          (take (min (length piece) (max_path_len - 1)) piece ++ 0 ∷ []),
      index + 1 + length piece,
    )

-- The loop, on fuel.
unfoldable pub canonize_loop : ℕ → ℕ → Walker → Buffer → ℕ → Option (Buffer × ℕ)
canonize_loop zero limit w b index = none
canonize_loop (suc n) limit w b index = elim (next w).0 [
  | none ↦ some (b, index)
  | some piece ↦ elim (canonize_piece limit piece b index) [
    | none ↦ none
    | some (b', index') ↦ canonize_loop n limit (next w).1 b' index'
  ]
]

-- What is before the first piece: the base of a path that does not start with a slash.
unfoldable pub canonize_base : ℕ → List ℕ → List ℕ → Buffer → Option (Buffer × ℕ)
canonize_base limit path base b =
    let b₁ = put (put (put b 0 slash) 1 0) limit 0 in
    let b₂ = put (store b₁ 0 base) (length base) 0 in
    if ltb 0 (length base) && not (first path == slash)
    then (if ltb limit (length base)
        then none
        else if b₂ (length base - 1) == slash
        then some (b₂, length base - 1)
        else some (b₂, length base))
    else some (b₁, 0)

unfoldable pub canonize_end : ℕ → ℕ → List ℕ → Buffer → ℕ → Option Buffer
canonize_end limit before path b index =
    if ends_with_slash before path
    then (if leb limit index then none else some (put (put b index slash) (index + 1) 0))
    else some b

-- `canonize_path`, with the buffer that it leaves; `before` is the byte before the path.
unfoldable pub canonize_path : ℕ → List ℕ → List ℕ → Buffer → ℕ → Option Buffer
canonize_path before path base b buffer_len =
    let limit = buffer_len - 1 in
    if ltb buffer_len 2 then none else elim (canonize_base limit path base b) [
      | none ↦ none
      | some (b₁, index₁) ↦ elim (canonize_loop (length path + 1) limit (walker path) b₁ index₁) [
        | none ↦ none
        | some (b₂, index₂) ↦ canonize_end limit before path b₂ index₂
      ]
    ]

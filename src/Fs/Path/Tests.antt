-- ===== src/Fs/Path/Tests.antt =====
-- Runs over paths, and the theorems on them at concrete inputs.
use aexkernel.Base.{
  ℕ, ◌+◌, ◌≡◌, refl, true, ◌&&◌, inl, inr, Option, none, some, List, [], ◌∷◌, ◌++◌, ◌==◌,
  if◌then◌else◌, ltb, leb, length, arith,
}
use aexkernel.Lang.Strings.{strcmp}
use aexkernel.Fs.Path.{
  slash, first, walker, next, take_piece, skip_slashes, skip_piece, count_levels, count_loop,
  is_final, is_valid, ends_with_slash, Buffer, store, climb, is_dot, is_dot_dot, canonize_path,
  canonize_base, canonize_loop, canonize_piece, canonize_end, get_filename, last_piece,
}
use aexkernel.Fs.Path.Pieces.{walk_pieces, walker-components}
use aexkernel.Fs.Path.Components.{split, components}
use aexkernel.Fs.Path.Valid.{name_chars, is_valid-name_chars}
use aexkernel.Fs.Path.Buffers.{render, resolve, step_into}
use aexkernel.Fs.Path.Canonize.{Reads, StartsAt, slash_last, canonize_path-Reads}

-- "/a//bc/", "../d", "/a", ".."
abbrev a_bc : List ℕ
a_bc = 47 ∷ 97 ∷ 47 ∷ 47 ∷ 98 ∷ 99 ∷ 47 ∷ []

abbrev up_d : List ℕ
up_d = 46 ∷ 46 ∷ 47 ∷ 100 ∷ []

abbrev root_a : List ℕ
root_a = 47 ∷ 97 ∷ []

abbrev up : List ℕ
up = 46 ∷ 46 ∷ []

abbrev noughts : Buffer
noughts i = 0

walker-components_example :
    ((walk_pieces 8 (walker a_bc)).0 ≡ components a_bc)
    × (count_levels a_bc ≡ length (components a_bc))
    × (is_final (walk_pieces 8 (walker a_bc)).1 ≡ true)
unfolding components split
walker-components_example = walker-components a_bc (omega arith, (omega arith, tt))

-- The components are "a" and "bc".
components_test : components a_bc ≡ (97 ∷ []) ∷ (98 ∷ 99 ∷ []) ∷ []
unfolding components split
components_test = refl

-- `get_filename` of "/a//bc/" is "bc".
get_filename_test : get_filename a_bc 10 ≡ 98 ∷ 99 ∷ []
unfolding get_filename last_piece
get_filename_test = refl

relative_start : StartsAt up_d root_a ((97 ∷ []) ∷ [])
unfolding render
relative_start =
    inr (
      (λ e. omega (arith, e)),
      refl,
      omega arith,
      ((omega arith, ((λ e. omega (arith, e)), tt)), tt),
    )

canonize_path-Reads_example :
    (b' : Buffer) × (canonize_path 0 up_d root_a noughts 20 ≡ some b')
    × Reads b' (
        render (resolve ((97 ∷ []) ∷ []) (components up_d))
        ++ (if slash_last up_d then slash ∷ [] else []))
unfolding components split resolve step_into is_dot is_dot_dot strcmp
canonize_path-Reads_example =
    canonize_path-Reads 0 up_d root_a noughts 20 ((97 ∷ []) ∷ []) (omega arith) relative_start
      (omega arith, (omega arith, tt)) (omega arith) (inl (omega arith))

-- `..` of "/a" should be "/", and what stays in the buffer is "/a".
abbrev above_a : Option (ℕ × ℕ × ℕ)
above_a = elim (canonize_path 0 up root_a noughts 20) [
  | none ↦ none
  | some b ↦ some (b 0, b 1, b 2)
]

above_a_test : above_a ≡ some (47, 97, 0)
unfolding canonize_path canonize_base canonize_loop canonize_piece canonize_end walker next
    take_piece skip_slashes count_levels count_loop skip_piece store climb is_dot is_dot_dot strcmp
    ends_with_slash
above_a_test = refl

is_valid-name_chars_example :
    is_valid a_bc
    ≡ (ltb (length a_bc + 1) 2048 && (first a_bc == slash) && leb (name_chars a_bc) 255)
is_valid-name_chars_example = is_valid-name_chars a_bc

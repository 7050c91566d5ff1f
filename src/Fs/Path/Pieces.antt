-- ===== src/Fs/Path/Pieces.antt =====
-- The pieces of a path, and how the walker and `count_levels` go through them.
use aexkernel.Base.{
  ℕ, zero, suc, ◌+◌, ◌≤◌, ◌<◌, ◌≡◌, refl, sym, ap, ◌∙◌, true, false, ◌⊎◌, inl, inr, none, some,
  List, [], ◌∷◌, ==_iff, Bool-cases, length, All, arith,
}
use mathlib.Core.Path.{subst}
use aexkernel.Fs.Path.{
  is_empty, skip_slashes, skip_piece, count_loop, count_levels, Walker, walker, next, is_final,
}
use aexkernel.Fs.Path.Components.{
  split, components, before, components-skip_slashes, skip_slashes-before, components-cons,
  length-skip_piece, length-skip_slashes, take_piece-before,
}

-- A component that the walker's buffer takes.
abbrev pub Short : List ℕ → Type 0
Short piece = length piece ≤ 255

-- A call of `next` where no component is too long: nothing where none is left, or the next component.
pub next-component :
    (w : Walker)
    → w.too_long ≡ false
    → All Short (components w.rest)
    → ((components w.rest ≡ []) × ((next w).0 ≡ none))
      ⊎ ((piece : List ℕ) × (rest : List ℕ) × (next w
            ≡ (some piece, record w { rest = rest; at_level = w.at_level + 1 }))
          × (components w.rest ≡ piece ∷ components rest)
          × (length rest + length piece ≤ length w.rest)
          × (1 ≤ length piece))
unfolding next components split skip_slashes before skip_piece
next-component w h short = elim (skip_slashes-before w.rest) [
  | inl z ↦ inl (sym (components-skip_slashes w.rest) ∙ ap components z, nothing z)
  | inr (c, cs, q, b) ↦
      let parts = sym (components-skip_slashes w.rest) ∙ ap components q ∙ components-cons c cs b in
      let (fits, _) : Short (before (c ∷ cs)) × All Short (components (skip_piece (c ∷ cs))) =
        subst (All Short) parts short in
      inr (
        before (c ∷ cs),
        skip_piece (c ∷ cs),
        rw (something w.rest c cs q, h, q, take_piece-before 0 (c ∷ cs) (omega (arith, fits)), b)
            refl,
        parts,
        subst (λ x. x ≤ length w.rest) (sym (length-skip_piece (c ∷ cs)))
            (subst (λ x. length x ≤ length w.rest) q (length-skip_slashes w.rest)),
        rw b (omega arith),
      )
]
  where
    nothing : skip_slashes w.rest ≡ [] → (next w).0 ≡ none
    nothing z = elim (Bool-cases (is_empty w.rest)) [
      | inl e ↦ rw e refl
      | inr n ↦ rw (n, h, z, take_piece-before 0 [] (omega arith)) refl
    ]

    something : (r : List ℕ) (c : ℕ) (cs : List ℕ) → skip_slashes r ≡ c ∷ cs → is_empty r ≡ false
    something [] c cs q = absurd (clash q)
      where
        clash : ◌≡◌ {A = List ℕ} [] (c ∷ cs) → ⊥
        clash x = cc
    something (x ∷ xs) c cs q = refl

-- The pieces that the calls of `next` give, until there is none.
pub walk_pieces : ℕ → Walker → List (List ℕ) × Walker
walk_pieces zero w = ([], w)
walk_pieces (suc n) w =
    let (pieces, last) = walk_pieces n (next w).1 in
    elim (next w).0 [ none ↦ ([], w) | some piece ↦ (piece ∷ pieces, last) ]

walk_pieces-none : (n : ℕ) (w : Walker) → (next w).0 ≡ none → walk_pieces (suc n) w ≡ ([], w)
unfolding walk_pieces
walk_pieces-none n w q = rw (q, walk_pieces) refl

walk_pieces-some :
    (n : ℕ) (w w' : Walker) (piece : List ℕ)
    → next w ≡ (some piece, w')
    → walk_pieces (suc n) w ≡ (piece ∷ (walk_pieces n w').0, (walk_pieces n w').1)
unfolding walk_pieces
walk_pieces-some n w w' piece q =
    rw (ap (λ x. x.0) q, walk_pieces)
      (ap (λ x. (piece ∷ (walk_pieces n x).0, (walk_pieces n x).1)) (ap (λ x. x.1) q))

walk_pieces-components :
    (n : ℕ) (w : Walker)
    → w.too_long ≡ false
    → All Short (components w.rest)
    → length w.rest < n
    → ((walk_pieces n w).0 ≡ components w.rest)
      × ((walk_pieces n w).1.at_level ≡ w.at_level + length (components w.rest))
      × ((walk_pieces n w).1.levels ≡ w.levels)
unfolding walk_pieces
walk_pieces-components zero w h short lt = absurd (none_below (length w.rest) lt)
  where
    none_below : (x : ℕ) → x < 0 → ⊥
    none_below x l = omega (arith, l)
walk_pieces-components (suc n) w h short lt = elim (next-component w h short) [
  | inl (z, q) ↦ rw (walk_pieces-none n w q, z) (refl, omega arith, refl)
  | inr (piece, rest, q, parts, less, some_chars) ↦
      let (_, short') : Short piece × All Short (components rest) = subst (All Short) parts short in
      let (a, b, c) =
        walk_pieces-components n (record w { rest = rest; at_level = w.at_level + 1 }) h short'
          (omega (arith, lt, less, some_chars)) in
      rw (walk_pieces-some n w (record w { rest = rest; at_level = w.at_level + 1 }) piece q, parts)
        (ap (λ x. piece ∷ x) a, b ∙ omega arith, c)
]

count_loop-length :
    (n : ℕ) (p : List ℕ)
    → length p ≤ n
    → count_loop n (skip_slashes p) ≡ length (components (skip_slashes p))
unfolding count_loop skip_slashes components split
count_loop-length zero [] h = refl
count_loop-length zero (c ∷ cs) h = absurd (omega (arith, h))
count_loop-length (suc n) p h = elim (skip_slashes-before p) [
  | inl z ↦ rw z refl
  | inr (c, cs, q, b) ↦
      let rest = skip_piece (c ∷ cs) in
      rw (q, components-cons c cs b)
        (ap (λ x. x + 1)
            (count_loop-length n rest (shorter c cs q b) ∙ ap length (components-skip_slashes rest))
          ∙ one_more (length (components rest)))
]
  where
    one_more : (x : ℕ) → x + 1 ≡ suc x
    one_more x = omega arith

    shorter :
        (c : ℕ) (cs : List ℕ)
        → skip_slashes p ≡ c ∷ cs
        → before (c ∷ cs) ≡ c ∷ before cs
        → length (skip_piece (c ∷ cs)) ≤ n
    shorter c cs q b =
        go (length (skip_piece (c ∷ cs))) (length cs) (length p) (length (before cs))
          (sym (ap (λ x. length (skip_piece (c ∷ cs)) + length x) b) ∙ length-skip_piece (c ∷ cs))
          (subst (λ x. length x ≤ length p) q (length-skip_slashes p)) h
      where
        go : (a c' l b' : ℕ) → a + suc b' ≡ suc c' → suc c' ≤ l → l ≤ suc n → a ≤ n
        go a c' l b' x y z = omega (arith, x, y, z)

pub count_levels-length : (p : List ℕ) → count_levels p ≡ length (components p)
unfolding count_levels
count_levels-length p =
    count_loop-length (length p) p (omega arith) ∙ ap length (components-skip_slashes p)

-- Where no component has more than 255 characters, the calls of `next` give the components of the path
-- in their order, and then nothing; `count_levels` is their number, and the walker is final after them.
pub walker-components :
    (path : List ℕ)
    → All Short (components path)
    → ((walk_pieces (length path + 1) (walker path)).0 ≡ components path)
      × (count_levels path ≡ length (components path))
      × (is_final (walk_pieces (length path + 1) (walker path)).1 ≡ true)
unfolding walker
walker-components path short =
    let (a, b, c) =
      walk_pieces-components (length path + 1) (walker path) refl short (omega arith) in
    (
      a,
      count_levels-length path,
      (==_iff _ _).1 (b ∙ final ∙ sym (count_levels-length path) ∙ sym c),
    )
  where
    final : 0 + length (components path) ≡ length (components path)
    final = omega arith

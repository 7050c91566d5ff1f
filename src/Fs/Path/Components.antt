-- ===== src/Fs/Path/Components.antt =====
-- The components of a path, and the loops that skip slashes and characters between them.
use aexkernel.Base.{
  ℕ, suc, ◌+◌, ◌≤◌, ◌≡◌, ◌≢◌, refl, sym, ap, ◌∙◌, false, ◌⊎◌, inl, inr, List, [], ◌∷◌, ◌==◌, ==_ne,
  if◌then◌else◌, leb, length, arith,
}
use mathlib.Core.Path.{subst}
use native.Mathlib.Decide.{ℕ_discrete}
use aexkernel.Fs.Path.{slash, skip_slashes, skip_piece, take_piece}

-- The parts of a path between slashes, the empty ones left out.
abbrev pub into : ℕ → List (List ℕ) → List (List ℕ)
into c [] = (c ∷ []) ∷ []
into c (x ∷ xs) = (c ∷ x) ∷ xs

unfoldable pub split : List ℕ → List (List ℕ)
split [] = [] ∷ []
split (c ∷ cs) = let rest = split cs in if c == slash then [] ∷ rest else into c rest

abbrev pub nonempty : List (List ℕ) → List (List ℕ)
nonempty [] = []
nonempty ([] ∷ xs) = nonempty xs
nonempty ((c ∷ cs) ∷ xs) = (c ∷ cs) ∷ nonempty xs

unfoldable pub components : List ℕ → List (List ℕ)
unfolding split
components path = nonempty (split path)

-- The first part, and what is behind it.
unfoldable pub before : List ℕ → List ℕ
before [] = []
before (c ∷ cs) = let rest = before cs in if c == slash then [] else c ∷ rest

abbrev behind : List ℕ → List (List ℕ)
behind [] = []
behind (c ∷ cs) = split cs

split-before : (p : List ℕ) → split p ≡ before p ∷ behind (skip_piece p)
unfolding split before skip_piece
split-before [] = refl
split-before (c ∷ cs) = elim (ℕ_discrete c slash) [
  | yes e ↦ rw (e) refl
  | no n ↦ rw (==_ne c slash n, split-before cs) refl
]

components-behind : (p : List ℕ) → nonempty (behind (skip_piece p)) ≡ components (skip_piece p)
unfolding components skip_piece split
components-behind [] = refl
components-behind (c ∷ cs) = elim (ℕ_discrete c slash) [
  | yes e ↦ rw (e) refl
  | no n ↦ rw (==_ne c slash n) (components-behind cs)
]

skip_slashes-ne : (c : ℕ) (cs : List ℕ) → c ≢ slash → skip_slashes (c ∷ cs) ≡ c ∷ cs
unfolding skip_slashes
skip_slashes-ne c cs n = rw (==_ne c slash n) refl

components-slash : (cs : List ℕ) → components (slash ∷ cs) ≡ components cs
unfolding components split
components-slash cs = refl

skip_slashes-slash : (cs : List ℕ) → skip_slashes (slash ∷ cs) ≡ skip_slashes cs
unfolding skip_slashes
skip_slashes-slash cs = refl

pub components-skip_slashes : (p : List ℕ) → components (skip_slashes p) ≡ components p
unfolding skip_slashes
components-skip_slashes [] = refl
components-skip_slashes (c ∷ cs) = elim (ℕ_discrete c slash) [
  | yes e ↦ rw e (components-skip_slashes cs ∙ sym (components-slash cs))
  | no n ↦ ap components (skip_slashes-ne c cs n)
]

-- What does not start with a slash is empty, or its first part is not.
pub skip_slashes-before :
    (p : List ℕ)
    → (skip_slashes p ≡ [])
      ⊎ ((c : ℕ) × (cs : List ℕ) × (skip_slashes p ≡ c ∷ cs) × (before (c ∷ cs) ≡ c ∷ before cs))
unfolding before skip_slashes
skip_slashes-before [] = inl refl
skip_slashes-before (c ∷ cs) = elim (ℕ_discrete c slash) [
  | yes e ↦ rw e (rw (skip_slashes-slash cs) (skip_slashes-before cs))
  | no n ↦ inr (c, cs, skip_slashes-ne c cs n, rw (==_ne c slash n) refl)
]

-- The first component of a path that starts with one.
pub components-cons :
    (c : ℕ) (cs : List ℕ)
    → before (c ∷ cs) ≡ c ∷ before cs
    → components (c ∷ cs) ≡ before (c ∷ cs) ∷ components (skip_piece (c ∷ cs))
unfolding components
components-cons c cs h =
    ap nonempty (split-before (c ∷ cs))
    ∙ ap (λ x. nonempty (x ∷ behind (skip_piece (c ∷ cs)))) h
    ∙ ap (λ x. (c ∷ before cs) ∷ x) (components-behind (c ∷ cs))
    ∙ ap (λ x. x ∷ components (skip_piece (c ∷ cs))) (sym h)

pub length-skip_piece : (p : List ℕ) → length (skip_piece p) + length (before p) ≡ length p
unfolding skip_piece before
length-skip_piece [] = refl
length-skip_piece (c ∷ cs) = elim (ℕ_discrete c slash) [
  | yes e ↦ rw e (omega arith)
  | no n ↦ rw (==_ne c slash n) (omega (arith, length-skip_piece cs))
]

pub length-skip_slashes : (p : List ℕ) → length (skip_slashes p) ≤ length p
unfolding skip_slashes
length-skip_slashes [] = omega arith
length-skip_slashes (c ∷ cs) = elim (ℕ_discrete c slash) [
  | yes e ↦ rw e (omega (arith, length-skip_slashes cs))
  | no n ↦ rw (==_ne c slash n) (omega arith)
]

pub before-ne : (c : ℕ) (cs : List ℕ) → c ≢ slash → before (c ∷ cs) ≡ c ∷ before cs
unfolding before
before-ne c cs d = rw (==_ne c slash d) refl

pub take_piece-before :
    (n : ℕ) (p : List ℕ)
    → n + length (before p) ≤ 255
    → take_piece n p ≡ (before p, skip_piece p, false)
unfolding take_piece before skip_piece
take_piece-before n [] h = refl
take_piece-before n (c ∷ cs) h = elim (ℕ_discrete c slash) [
  | yes e ↦ rw e refl
  | no d ↦
      let (room, less) = space d in
      rw (==_ne c slash d, room, take_piece-before (n + 1) cs less) refl
]
  where
    space : c ≢ slash → (leb 255 n ≡ false) × (n + 1 + length (before cs) ≤ 255)
    space d = (ground (arith, h'), omega (arith, h'))
      where
        h' : n + suc (length (before cs)) ≤ 255
        h' = subst (λ x. n + length x ≤ 255) (before-ne c cs d) h

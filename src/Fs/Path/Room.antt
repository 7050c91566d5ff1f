-- ===== src/Fs/Path/Room.antt =====
-- The components of a path are pieces, and the room that they take.
use aexkernel.Base.{ℕ, suc, ◌+◌, ◌≤◌, ◌≡◌, ◌≢◌, refl, List, [], ◌∷◌, ==_ne, length, All, arith}
use native.Mathlib.Decide.{ℕ_discrete}
use aexkernel.Fs.Path.{slash}
use aexkernel.Fs.Path.Components.{split, nonempty, components, into}
use aexkernel.Fs.Path.Written.{IsPiece}

-- The components of a path are pieces, and take no more room than the path.
split-no_slash : (p : List ℕ) → All (All (λ c. c ≢ slash)) (split p)
unfolding split
split-no_slash [] = (tt, tt)
split-no_slash (c ∷ cs) = elim (ℕ_discrete c slash) [
  | yes e ↦ rw e (tt, split-no_slash cs)
  | no n ↦ rw (==_ne c slash n) (grown (split cs) (split-no_slash cs) n)
]
  where
    grown :
        (xs : List (List ℕ))
        → All (All (λ x. x ≢ slash)) xs
        → c ≢ slash
        → All (All (λ x. x ≢ slash)) (into c xs)
    grown [] h n = ((n, tt), tt)
    grown (x ∷ xs) (h, hs) n = ((n, h), hs)

pub components-IsPiece : (p : List ℕ) → All IsPiece (components p)
unfolding components
components-IsPiece p = kept (split p) (split-no_slash p)
  where
    kept : (xs : List (List ℕ)) → All (All (λ c. c ≢ slash)) xs → All IsPiece (nonempty xs)
    kept [] h = tt
    kept ([] ∷ xs) (h, hs) = kept xs hs
    kept ((c ∷ cs) ∷ xs) (h, hs) = ((omega arith, h), kept xs hs)

-- The room for pieces, each with its slash.
unfoldable pub cost : List (List ℕ) → ℕ
cost [] = 0
cost (x ∷ xs) = 1 + length x + cost xs

cost-split : (p : List ℕ) → cost (split p) ≡ length p + 1
unfolding cost split
cost-split [] = refl
cost-split (c ∷ cs) = elim (ℕ_discrete c slash) [
  | yes e ↦ rw e (omega (arith, cost-split cs))
  | no n ↦ rw (==_ne c slash n) (grown (split cs) (length cs) (cost-split cs))
]
  where
    grown : (xs : List (List ℕ)) (l : ℕ) → cost xs ≡ l + 1 → cost (into c xs) ≡ suc l + 1
    grown [] l h = absurd (none_there l h)
      where
        none_there : (x : ℕ) → 0 ≡ x + 1 → ⊥
        none_there x e = omega (arith, e)
    grown (x ∷ xs) l h = omega (arith, h)

pub cost-components : (p : List ℕ) → cost (components p) ≤ length p + 1
unfolding components cost
cost-components p = below (split p) (length p + 1) (cost-split p)
  where
    smaller : (xs : List (List ℕ)) → cost (nonempty xs) ≤ cost xs
    smaller [] = omega arith
    smaller ([] ∷ xs) = omega (arith, smaller xs)
    smaller ((c ∷ cs) ∷ xs) = omega (arith, smaller xs)

    below : (xs : List (List ℕ)) (l : ℕ) → cost xs ≡ l → cost (nonempty xs) ≤ l
    below xs l h = omega (arith, h, smaller xs)

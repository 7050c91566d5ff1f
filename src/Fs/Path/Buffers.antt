-- ===== src/Fs/Path/Buffers.antt =====
-- The buffer of canonize_path as characters from an index on, and the pieces that it is to have.
use aexkernel.Base.{
  ℕ, zero, suc, ◌+◌, ◌≤◌, ◌<◌, ◌≡◌, ◌≢◌, refl, sym, ◌∙◌, ◌⊎◌, inl, inr, List, [], ◌∷◌, ◌++◌,
  ==_refl, ==_ne, if◌then◌else◌, length, arith,
}
use mathlib.Core.Path.{subst}
use aexkernel.Fs.Path.{slash, Buffer, put, store, is_dot, is_dot_dot, climb}

-- The pieces that are still there, the last one first, written with a slash before each.
unfoldable pub render : List (List ℕ) → List ℕ
render [] = []
render (piece ∷ pieces) = render pieces ++ slash ∷ piece

-- What a piece does to them.
unfoldable pub step_into : List (List ℕ) → List ℕ → List (List ℕ)
step_into [] piece = if is_dot piece then [] else if is_dot_dot piece then [] else piece ∷ []
step_into (x ∷ xs) piece =
    if is_dot piece then x ∷ xs else if is_dot_dot piece then xs else piece ∷ x ∷ xs

unfoldable pub resolve : List (List ℕ) → List (List ℕ) → List (List ℕ)
resolve pieces [] = pieces
resolve pieces (piece ∷ rest) = resolve (step_into pieces piece) rest

-- The buffer has these characters from index `i` on.
abbrev pub Holds : Buffer → ℕ → List ℕ → Type 0
Holds b i [] = Unit
Holds b i (c ∷ cs) = (b i ≡ c) × Holds b (i + 1) cs

pub Holds-append :
    (b : Buffer) (i : ℕ) (xs ys : List ℕ)
    → Holds b i xs
    → Holds b (i + length xs) ys
    → Holds b i (xs ++ ys)
Holds-append b i [] ys h k = subst (λ j. Holds b j ys) (add_zero i) k
  where
    add_zero : (x : ℕ) → x + 0 ≡ x
    add_zero x = omega arith
Holds-append b i (x ∷ xs) ys (h, hs) k =
    (h, Holds-append b (i + 1) xs ys hs (subst (λ j. Holds b j ys) (next_index i (length xs)) k))
  where
    next_index : (x y : ℕ) → x + suc y ≡ x + 1 + y
    next_index x y = omega arith

pub Holds-split :
    (b : Buffer) (i : ℕ) (xs ys : List ℕ)
    → Holds b i (xs ++ ys)
    → Holds b i xs × Holds b (i + length xs) ys
Holds-split b i [] ys h = (tt, subst (λ j. Holds b j ys) (sym (add_zero i)) h)
  where
    add_zero : (x : ℕ) → x + 0 ≡ x
    add_zero x = omega arith
Holds-split b i (x ∷ xs) ys (h, hs) =
    let (a, k) = Holds-split b (i + 1) xs ys hs in
    ((h, a), subst (λ j. Holds b j ys) (sym (next_index i (length xs))) k)
  where
    next_index : (x y : ℕ) → x + suc y ≡ x + 1 + y
    next_index x y = omega arith

-- Only other bytes have changed.
pub Holds-same :
    (b b' : Buffer) (i : ℕ) (xs : List ℕ)
    → ((j : ℕ) → i ≤ j → j < i + length xs → b' j ≡ b j)
    → Holds b i xs
    → Holds b' i xs
Holds-same b b' i [] same h = tt
Holds-same b b' i (x ∷ xs) same (h, hs) = (
  same i (omega arith) (omega arith) ∙ h,
  Holds-same b b' (i + 1) xs (λ j low high. same j (omega (arith, low)) (omega (arith, high))) hs,
)

pub put_other : (b : Buffer) (i c j : ℕ) → j ≢ i → put b i c j ≡ b j
put_other b i c j n = rw (==_ne j i n) refl

pub put_self : (b : Buffer) (i c : ℕ) → put b i c i ≡ c
put_self b i c = rw (==_refl i) refl

pub store-below : (b : Buffer) (i : ℕ) (xs : List ℕ) (j : ℕ) → j < i → store b i xs j ≡ b j
unfolding store
store-below b i [] j h = refl
store-below b i (x ∷ xs) j h =
    store-below (put b i x) (i + 1) xs j (omega (arith, h))
    ∙ put_other b i x j (λ e. omega (arith, e, h))

pub store-Holds : (b : Buffer) (i : ℕ) (xs : List ℕ) → Holds (store b i xs) i xs
unfolding store
store-Holds b i [] = tt
store-Holds b i (x ∷ xs) = (
  store-below (put b i x) (i + 1) xs i (omega arith) ∙ put_self b i x,
  store-Holds (put b i x) (i + 1) xs,
)

-- The index climbs to the slash before the last piece, or to 0.
pub climb-to :
    (b : Buffer) (i n : ℕ)
    → (i ≡ 0) ⊎ (b i ≡ slash)
    → ((j : ℕ) → i < j → j ≤ i + n → b j ≢ slash)
    → climb b (i + n) ≡ i
unfolding climb
climb-to b i zero s h = rw (add_zero i) (stays i s)
  where
    add_zero : (x : ℕ) → x + 0 ≡ x
    add_zero x = omega arith

    stays : (x : ℕ) → (x ≡ 0) ⊎ (b x ≡ slash) → climb b x ≡ x
    stays zero _ = refl
    stays (suc x) (inl e) = absurd (omega (arith, e))
    stays (suc x) (inr e) = rw e refl
climb-to b i (suc n) s h = rw (next_index i n) (
    rw (==_ne (b (suc (i + n))) slash (h (suc (i + n)) (omega arith) (omega arith)))
      (climb-to b i n s (λ j low high. h j low (omega (arith, high)))))
  where
    next_index : (x y : ℕ) → x + suc y ≡ suc (x + y)
    next_index x y = omega arith

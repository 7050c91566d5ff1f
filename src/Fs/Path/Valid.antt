-- ===== src/Fs/Path/Valid.antt =====
-- What `is_valid` takes for a valid path.
use aexkernel.Base.{
  ℕ, zero, suc, ◌+◌, ◌≤◌, ◌<◌, ◌≡◌, refl, sym, ap, ◌∙◌, Bool, true, false, ◌&&◌, not, ◌⊎◌, inl, inr,
  none, some, List, [], ◌∷◌, ◌==◌, ==_ne, if◌then◌else◌, ltb, leb, length, arith,
}
use mathlib.Core.Path.{subst}
use native.Mathlib.Decide.{ℕ_discrete, dec_lt}
use aexkernel.Fs.Path.{
  slash, first, skip_slashes, skip_piece, check_length, count_piece, valid_loop, is_valid,
}
use aexkernel.Fs.Path.Components.{
  before, skip_slashes-before, length-skip_piece, length-skip_slashes,
}

-- The characters that are no slashes.
pub name_chars : List ℕ → ℕ
name_chars [] = 0
name_chars (c ∷ cs) = let rest = name_chars cs in if c == slash then rest else suc rest

name_chars-skip_slashes : (p : List ℕ) → name_chars (skip_slashes p) ≡ name_chars p
unfolding name_chars skip_slashes
name_chars-skip_slashes [] = refl
name_chars-skip_slashes (c ∷ cs) = elim (ℕ_discrete c slash) [
  | yes e ↦ rw e (name_chars-skip_slashes cs)
  | no n ↦ rw (==_ne c slash n, ==_ne c slash n) refl
]

name_chars-before : (p : List ℕ) → name_chars p ≡ length (before p) + name_chars (skip_piece p)
unfolding name_chars before skip_piece
name_chars-before [] = refl
name_chars-before (c ∷ cs) = elim (ℕ_discrete c slash) [
  | yes e ↦ rw e (omega arith)
  | no n ↦ rw (==_ne c slash n) (omega (arith, name_chars-before cs))
]

-- A piece is counted, or there are too many characters with it.
count_piece-before :
    (n : ℕ) (p : List ℕ)
    → n ≤ 255
    → ((n + length (before p) ≤ 255)
        × (count_piece n p ≡ some (n + length (before p), skip_piece p)))
      ⊎ ((255 < n + length (before p)) × (count_piece n p ≡ none))
unfolding count_piece before skip_piece
count_piece-before n [] h = inl (omega (arith, h), ap (λ x. some (x, [])) (omega arith))
count_piece-before n (c ∷ cs) h = elim (ℕ_discrete c slash) [
  | yes e ↦ rw e (inl (omega (arith, h), ap (λ x. some (x, slash ∷ cs)) (omega arith)))
  | no d ↦ rw (==_ne c slash d) (elim (dec_lt n 255) [
    | no full ↦ rw (at_limit full) (inr (omega (arith, full, h), refl))
    | yes room ↦ rw (below_limit room) (elim (count_piece-before (n + 1) cs (omega (arith, room))) [
      | inl (fits, q) ↦ inl (
        omega (arith, fits),
        q ∙ ap (λ x. some (x, skip_piece cs)) (one_more (length (before cs))),
      )
      | inr (over, q) ↦ inr (omega (arith, over), q)
    ])
  ])
]
  where
    at_limit : ¬ (n < 255) → leb 255 n ≡ true
    at_limit x = ground (arith, x)

    below_limit : n < 255 → leb 255 n ≡ false
    below_limit x = ground (arith, x)

    one_more : (x : ℕ) → n + 1 + x ≡ n + suc x
    one_more x = omega arith

valid_loop-name_chars :
    (k n : ℕ) (p : List ℕ)
    → n ≤ 255
    → length p ≤ k
    → valid_loop k n (skip_slashes p) ≡ leb (n + name_chars p) 255
unfolding valid_loop name_chars skip_slashes
valid_loop-name_chars zero n [] h l = sym (none_more n h)
  where
    none_more : (x : ℕ) → x ≤ 255 → leb (x + 0) 255 ≡ true
    none_more x y = ground (arith, y)
valid_loop-name_chars zero n (c ∷ cs) h l = absurd (omega (arith, l))
valid_loop-name_chars (suc k) n p h l = elim (skip_slashes-before p) [
  | inl z ↦ rw z (
      sym
        (ap (λ x. leb (n + x) 255) (sym (name_chars-skip_slashes p) ∙ ap name_chars z) ∙ none_more))
  | inr (c, cs, q, b) ↦
      let total = sym (name_chars-skip_slashes p) ∙ ap name_chars q ∙ name_chars-before (c ∷ cs) in
      rw q (elim (count_piece-before n (c ∷ cs) h) [
        | inr (over, e) ↦ rw e (
            sym (
              ap (λ x. leb (n + x) 255) total
              ∙ too_many (length (before (c ∷ cs))) (name_chars (skip_piece (c ∷ cs))) over))
        | inl (fits, e) ↦ rw e (
            valid_loop-name_chars k (n + length (before (c ∷ cs))) (skip_piece (c ∷ cs)) fits
              (shorter c cs q b)
            ∙ sym (
                ap (λ x. leb (n + x) 255) total
                ∙ ap (λ x. leb x 255)
                    (regroup (length (before (c ∷ cs))) (name_chars (skip_piece (c ∷ cs))))))
      ])
]
  where
    none_more : leb (n + 0) 255 ≡ true
    none_more = ground (arith, h)

    too_many : (a b : ℕ) → 255 < n + a → leb (n + (a + b)) 255 ≡ false
    too_many a b x = ground (arith, x)

    regroup : (a b : ℕ) → n + (a + b) ≡ n + a + b
    regroup a b = omega arith

    shorter :
        (c : ℕ) (cs : List ℕ)
        → skip_slashes p ≡ c ∷ cs
        → before (c ∷ cs) ≡ c ∷ before cs
        → length (skip_piece (c ∷ cs)) ≤ k
    shorter c cs q b =
        go (length (skip_piece (c ∷ cs))) (length cs) (length p) (length (before cs))
          (sym (ap (λ x. length (skip_piece (c ∷ cs)) + length x) b) ∙ length-skip_piece (c ∷ cs))
          (subst (λ x. length x ≤ length p) q (length-skip_slashes p)) l
      where
        go : (a c' l' b' : ℕ) → a + suc b' ≡ suc c' → suc c' ≤ l' → l' ≤ suc k → a ≤ k
        go a c' l' b' x y z = omega (arith, x, y, z)

-- A path is valid to `is_valid` just if it has fewer than 2047 characters, starts with a slash, and has
-- no more than 255 characters that are no slashes, in all of its pieces together.
pub is_valid-name_chars :
    (path : List ℕ)
    → is_valid path
      ≡ (ltb (length path + 1) 2048 && (first path == slash) && leb (name_chars path) 255)
unfolding is_valid check_length name_chars
is_valid-name_chars [] = refl
is_valid-name_chars (c ∷ cs) = elim (ℕ_discrete c slash) [
  | no d ↦
      rw (==_ne c slash d) (both (ltb (suc (length cs) + 1) 2048) (leb (suc (name_chars cs)) 255))
  | yes e ↦ rw e (guarded (ltb (suc (length cs) + 1) 2048))
]
  where
    both : (b x : Bool) → (if not b then false else false) ≡ ((b && false) && x)
    both true x = refl
    both false x = refl

    guarded :
        (b : Bool)
        → (if not b then false else valid_loop (suc (length cs)) 0 (skip_slashes cs))
          ≡ ((b && true) && leb (name_chars cs) 255)
    guarded true =
        valid_loop-name_chars (suc (length cs)) 0 cs (omega arith) (omega arith)
        ∙ ap (λ x. leb x 255) (zero_more (name_chars cs))
      where
        zero_more : (x : ℕ) → 0 + x ≡ x
        zero_more x = omega arith
    guarded false = refl

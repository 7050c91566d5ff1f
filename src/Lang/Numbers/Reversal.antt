-- ===== src/Lang/Numbers/Reversal.antt =====
-- The second loop of `itos` turns the characters around.
use mathlib.Core.List.{reverse, reverse-cons, reverse-append}
use mathlib.Core.Path.{subst}
use native.Mathlib.Nat.{suc-add, zero-add}
use aexkernel.Base.{
  get_or-append, set-append, ℕ, zero, suc, ◌+◌, ◌-◌, ◌≤◌, ◌<◌, ◌≡◌, refl, sym, ap, ◌∙◌, List, [],
  ◌∷◌, ◌++◌, append_assoc, length, set, get_or, ltb, false, lt→ltb, length-append, arith,
}
use aexkernel.Lang.Numbers.{swap_loop}

last_cases : (x : ℕ) (xs : List ℕ) → (init : List ℕ) × (y : ℕ) × (x ∷ xs ≡ init ++ (y ∷ []))
last_cases x [] = ([], x, refl)
last_cases x (y ∷ ys) = let (init, l, e) = last_cases y ys in (x ∷ init, l, ap (λ r. x ∷ r) e)

not_less : (a b : ℕ) → b ≤ a → ltb a b ≡ false
not_less a b h = ground arith

-- One round swaps the first and the last of what is left.
swap_ends :
    (pre : List ℕ) (x : ℕ) (mid : List ℕ) (z : ℕ) (post : List ℕ)
    → let buffer = pre ++ (x ∷ (mid ++ (z ∷ post))) in
      let ptr = length pre + suc (length mid) in
      set (set buffer (length pre) (get_or buffer ptr 0)) ptr (get_or buffer (length pre) 0)
      ≡ pre ++ (z ∷ (mid ++ (x ∷ post)))
swap_ends [] x mid z post =
    rw (zero-add, get_or-append mid z post 0) (ap (λ l. z ∷ l) (set-append mid z x post))
swap_ends (p ∷ pre) x mid z post = rw suc-add (ap (λ l. p ∷ l) (swap_ends pre x mid z post))

swap_step :
    (fuel low ptr : ℕ) (buffer swapped : List ℕ)
    → low < ptr
    → set (set buffer low (get_or buffer ptr 0)) ptr (get_or buffer low 0) ≡ swapped
    → swap_loop (suc fuel) low ptr buffer ≡ swap_loop fuel (low + 1) (ptr - 1) swapped
unfolding swap_loop
swap_step fuel low ptr buffer swapped h e = rw (lt→ltb low ptr h, e) refl

swap_stop :
    (fuel low ptr : ℕ) (buffer : List ℕ) → ptr ≤ low → swap_loop fuel low ptr buffer ≡ buffer
unfolding swap_loop
swap_stop zero low ptr buffer h = refl
swap_stop (suc fuel) low ptr buffer h = rw (not_less low ptr h) refl

pub same_loop :
    (fuel : ℕ) {a b p q : ℕ} {xs ys : List ℕ}
    → a ≡ b
    → p ≡ q
    → xs ≡ ys
    → swap_loop fuel a p xs ≡ swap_loop fuel b q ys
same_loop fuel e f g = cc

turned :
    (pre : List ℕ) (x : ℕ) (mid : List ℕ) (z : ℕ) (post : List ℕ)
    → (pre ++ (z ∷ [])) ++ (reverse mid ++ (x ∷ post))
      ≡ pre ++ (reverse (x ∷ (mid ++ (z ∷ []))) ++ post)
turned pre x mid z post =
    rw
      (
        reverse-cons x (mid ++ (z ∷ [])),
        reverse-append mid (z ∷ []),
        append_assoc pre (z ∷ []) (reverse mid ++ (x ∷ post)),
        append_assoc (reverse (z ∷ []) ++ reverse mid) (x ∷ []) post,
        append_assoc (z ∷ []) (reverse mid) (x ∷ post),
      )
      refl

abbrev Turned : ℕ → List ℕ → List ℕ → List ℕ → Type 0
Turned fuel pre xs post =
    swap_loop fuel (length pre) (length pre + length xs - 1) (pre ++ (xs ++ post))
    ≡ pre ++ (reverse xs ++ post)

turn_ends :
    (fuel : ℕ) (pre : List ℕ) (x : ℕ) (mid : List ℕ) (z : ℕ) (post : List ℕ)
    → Turned fuel (pre ++ (z ∷ [])) mid (x ∷ post)
    → Turned (suc fuel) pre (x ∷ (mid ++ (z ∷ []))) post
turn_ends fuel pre x mid z post ih =
    let n = length-append mid (z ∷ []) in
    let m = length-append pre (z ∷ []) in
    same_loop (suc fuel) refl (omega arith)
      (ap (λ l. pre ++ (x ∷ l)) (append_assoc mid (z ∷ []) post))
    ∙ swap_step fuel (length pre) (length pre + suc (length mid)) _ _ (omega arith)
        (swap_ends pre x mid z post)
    ∙ same_loop fuel (omega arith) (omega arith)
        (sym (append_assoc pre (z ∷ []) (mid ++ (x ∷ post))))
    ∙ ih
    ∙ turned pre x mid z post

pub swap_loop-reverse :
    (fuel : ℕ) (pre xs post : List ℕ)
    → length xs ≤ suc fuel
    → swap_loop fuel (length pre) (length pre + length xs - 1) (pre ++ (xs ++ post))
      ≡ pre ++ (reverse xs ++ post)
swap_loop-reverse fuel pre [] post h = swap_stop fuel _ _ _ (omega arith)
swap_loop-reverse fuel pre (x ∷ []) post h = swap_stop fuel _ _ _ (omega arith)
swap_loop-reverse zero pre (x ∷ y ∷ ys) post h = absurd (omega arith)
swap_loop-reverse (suc fuel) pre (x ∷ y ∷ ys) post h =
    let (mid, z, e) = last_cases y ys in
    let n : length (y ∷ ys) ≡ length mid + 1 = ap length e ∙ length-append mid (z ∷ []) in
    subst (λ l. Turned (suc fuel) pre (x ∷ l) post) (sym e)
      (turn_ends fuel pre x mid z post
        (swap_loop-reverse fuel (pre ++ (z ∷ [])) mid (x ∷ post) (omega arith)))

-- ===== src/Lang/Strings/Copy.antt =====
-- What `strncpy` leaves in memory.
use aexkernel.Base.{
  ℕ, zero, suc, ◌+◌, ◌-◌, ◌≤◌, ◌<◌, ◌≡◌, refl, sym, ap, ◌∙◌, min, List, [], ◌∷◌, ◌++◌, append_assoc,
  length, length-append, get_or, get_or-append, set, set-append, take, drop, length-take, ◌==◌,
  if◌then◌else◌, inl, inr, Bool-cases, arith,
}
use aexkernel.Lang.Strings.{strlen, copy_loop, strncpy}

copy_step :
    (n : ℕ) (pre : List ℕ) (d : ℕ) (ds before : List ℕ) (s : ℕ) (ss : List ℕ)
    → length pre ≡ length before
    → copy_loop (suc n) (length pre) (pre ++ (d ∷ ds)) (before ++ (s ∷ ss))
      ≡ copy_loop n (length pre + 1) (pre ++ (s ∷ ds)) (before ++ (s ∷ ss))
unfolding copy_loop
copy_step n pre d ds before s ss e =
    ap
      (λ v.
        copy_loop n (length pre + 1) (set (pre ++ (d ∷ ds)) (length pre) v) (before ++ (s ∷ ss)))
      (ap (λ k. get_or (before ++ (s ∷ ss)) k 0) e ∙ get_or-append before s ss 0)
    ∙ ap (λ l. copy_loop n (length pre + 1) l (before ++ (s ∷ ss))) (set-append pre d s ds)

same_copy :
    (n : ℕ) {i j : ℕ} {xs ys us vs : List ℕ}
    → i ≡ j
    → xs ≡ ys
    → us ≡ vs
    → copy_loop n i xs us ≡ copy_loop n j ys vs
same_copy n e f g = cc

-- From an index on, the loop puts the bytes of the source over those of the destination.
copies :
    (n : ℕ) (pre dst before src : List ℕ)
    → length pre ≡ length before
    → n ≤ length dst
    → n ≤ length src
    → copy_loop n (length pre) (pre ++ dst) (before ++ src) ≡ pre ++ (take n src ++ drop n dst)
unfolding copy_loop
copies zero pre dst before src e h k = refl
copies (suc n) pre [] before src e h k = absurd (omega arith)
copies (suc n) pre (d ∷ ds) before [] e h k = absurd (omega arith)
copies (suc n) pre (d ∷ ds) before (s ∷ ss) e h k =
    let m = length-append pre (s ∷ []) in
    copy_step n pre d ds before s ss e
    ∙ same_copy n (omega arith) (sym (append_assoc pre (s ∷ []) ds))
        (sym (append_assoc before (s ∷ []) ss))
    ∙ copies n (pre ++ (s ∷ [])) ds (before ++ (s ∷ [])) ss
        (omega (arith, length-append before (s ∷ []))) (omega arith) (omega arith)
    ∙ append_assoc pre (s ∷ []) (take n ss ++ drop n ds)

pub length-strlen : (str : List ℕ) → strlen str ≤ length str
unfolding strlen
length-strlen [] = omega arith
length-strlen (c ∷ str) = ground (arith, length-strlen str)

first_of_drop : (n : ℕ) (xs : List ℕ) → n < length xs → (x : ℕ) × (drop n xs ≡ x ∷ drop (suc n) xs)
first_of_drop n [] h = absurd (omega arith)
first_of_drop zero (x ∷ xs) h = (x, refl)
first_of_drop (suc n) (x ∷ xs) h = first_of_drop n xs (omega arith)

-- The number of characters that `strncpy` copies.
abbrev pub copied : List ℕ → ℕ → ℕ
copied src num = if num == 0 then strlen src else min (strlen src) (num - 1)

copied-strlen : (src : List ℕ) (num : ℕ) → copied src num ≤ strlen src
copied-strlen src num = elim (Bool-cases (num == 0)) [
  | inl e ↦ rw e (omega arith)
  | inr e ↦ rw e (omega arith)
]

put_nul :
    (n : ℕ) (front dst : List ℕ)
    → length front ≡ n
    → n < length dst
    → set (front ++ drop n dst) n 0 ≡ front ++ (0 ∷ drop (suc n) dst)
put_nul n front dst e h =
    let (x, first) = first_of_drop n dst h in
    ap (λ l. set (front ++ l) n 0) first
    ∙ ap (λ k. set (front ++ (x ∷ drop (suc n) dst)) k 0) (sym e)
    ∙ set-append front x 0 (drop (suc n) dst)

-- Where the destination has room for them and a NUL, `strncpy` leaves the first characters of the
-- source there, `num - 1` of them or as many as there are before its NUL, all of these if `num` is 0;
-- then a NUL, and behind it the bytes that there were.
pub strncpy-take :
    (dst src : List ℕ) (num : ℕ)
    → copied src num < length dst
    → strncpy dst src num ≡ take (copied src num) src ++ (0 ∷ drop (suc (copied src num)) dst)
unfolding strncpy
strncpy-take dst src num h =
    let n = copied src num in
    let short = copied-strlen src num in
    ap (λ l. set l n 0)
      (copies n [] dst [] src refl (omega arith) (omega (arith, length-strlen src)))
    ∙ put_nul n (take n src) dst (omega (arith, length-take n src, length-strlen src)) h

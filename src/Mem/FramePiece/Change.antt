-- ===== src/Mem/FramePiece/Change.antt =====
-- What the loop of `alloc` and `free` does to the bits.
use aexkernel.Base.{
  ℕ, zero, suc, ◌+◌, ◌*◌, ◌/◌, ◌%◌, ◌≤◌, ◌<◌, ◌≡◌, refl, ◌∙◌, arith, Bool, true, false, not, Option,
  none, some, List, if◌then◌else◌, ltb, leb, ◌&&◌, ◌==◌, length, ==_ne,
}
use native.Mathlib.Decide.{ℕ_discrete}
use aexkernel.Mem.Bitmap.{
  Word, taken, put, next_word_lem, next_bit_lem, AreWords, put-AreWords, length-put, taken-put,
  clear_below, clear_below-set, clear_below-clear,
}
use aexkernel.Mem.FramePiece.{same, change_bits}

-- The loop over the bits' numbers.
pub change : Bool → ℕ → List Word → ℕ → Option (List Word)
change v zero bitmap k = some bitmap
change v (suc n) bitmap k =
    let rest = change v n (put bitmap k v) (k + 1) in if same v (taken bitmap k) then none else rest

pub change_bits-eq :
    (v : Bool) (n : ℕ) (bitmap : List Word) (k : ℕ)
    → change_bits v n bitmap (k / 32) (k % 32) ≡ change v n bitmap k
unfolding change_bits change
change_bits-eq v zero bitmap k = refl
change_bits-eq v (suc n) bitmap k =
    rw (next_word_lem k, next_bit_lem k, change_bits-eq v n (put bitmap k v) (k + 1)) refl

-- Frame `j` is one of the `n` from `k` on.
abbrev pub within : ℕ → ℕ → ℕ → Bool
within k n j = leb k j && ltb j (k + n)

-- The clear bits that a change of `n` bits to `v` leaves of `c`.
abbrev pub Recount : Bool → ℕ → ℕ → ℕ → Type 0
Recount true n c c' = c' + n ≡ c
Recount false n c c' = c' ≡ c + n

-- The bits from `k` on are `v` now, and no other bit has changed.
pub record Changed (v : Bool) (n : ℕ) (bitmap : List Word) (k : ℕ) (bitmap' : List Word)
    : Type 0 where
  pub words : AreWords bitmap'
  pub as_long : length bitmap' ≡ length bitmap
  pub bits : (j : ℕ) → taken bitmap' j ≡ (if within k n j then v else taken bitmap j)
  pub count : (m : ℕ) → k + n ≤ m → Recount v n (clear_below bitmap m) (clear_below bitmap' m)

Changed-none :
    (v : Bool) (bitmap : List Word) (k : ℕ) → AreWords bitmap → Changed v 0 bitmap k bitmap
Changed-none v bitmap k w = record {
  words = w;
  as_long = refl;
  bits = λ j. rw (within-none k j) refl;
  count = λ m h. count_none v (clear_below bitmap m);
}
  where
    within-none : (k j : ℕ) → within k 0 j ≡ false
    within-none k j = ground arith

    count_none : (v : Bool) (c : ℕ) → Recount v 0 c c
    count_none true c = omega arith
    count_none false c = omega arith

same-not : (v : Bool) → same v (not v) ≡ false
same-not true = refl
same-not false = refl

count_one :
    (v : Bool) (bitmap : List Word) (k m : ℕ)
    → AreWords bitmap
    → k < 32 * length bitmap
    → k < m
    → taken bitmap k ≡ not v
    → Recount v 1 (clear_below bitmap m) (clear_below (put bitmap k v) m)
count_one true bitmap k m w f q c = clear_below-set bitmap k m w f q c
count_one false bitmap k m w f q c = clear_below-clear bitmap k m w f q c

count_add : (v : Bool) (n a b c : ℕ) → Recount v 1 a b → Recount v n b c → Recount v (suc n) a c
count_add true n a b c p q = omega arith
count_add false n a b c p q = omega arith

pub within-suc :
    (v : Bool) (k n j : ℕ) (b : Bool)
    → (if within (k + 1) n j then v else if k == j then v else b)
      ≡ (if within k (suc n) j then v else b)
within-suc v k n j b = ground arith

Changed-step :
    (v : Bool) (n : ℕ) (bitmap : List Word) (k : ℕ) (b : List Word)
    → AreWords bitmap
    → k < 32 * length bitmap
    → taken bitmap k ≡ not v
    → Changed v n (put bitmap k v) (k + 1) b
    → Changed v (suc n) bitmap k b
Changed-step v n bitmap k b w f h c = record {
  words = c.words;
  as_long = c.as_long ∙ length-put bitmap k v;
  bits = λ j. c.bits j ∙ rw (taken-put bitmap k j v w f) (within-suc v k n j (taken bitmap j));
  count = λ m q.
      count_add v n (clear_below bitmap m) (clear_below (put bitmap k v) m) (clear_below b m)
        (count_one v bitmap k m w f (omega arith) h) (c.count m (omega arith));
}

pub change-Changed :
    (v : Bool) (n : ℕ) (bitmap : List Word) (k : ℕ)
    → AreWords bitmap
    → k + n ≤ 32 * length bitmap
    → ((j : ℕ) → k ≤ j → j < k + n → taken bitmap j ≡ not v)
    → (b : List Word) × (change v n bitmap k ≡ some b) × Changed v n bitmap k b
unfolding change
change-Changed v zero bitmap k w f h = (bitmap, refl, Changed-none v bitmap k w)
change-Changed v (suc n) bitmap k w f h =
    let here : taken bitmap k ≡ not v = h k (omega arith) (omega arith) in
    let (b, e, c) =
      change-Changed v n (put bitmap k v) (k + 1) (put-AreWords bitmap k v w (omega arith))
        (omega (arith, length-put bitmap k v))
        (λ j p q.
          taken-put bitmap k j v w (omega arith)
          ∙ rw (==_ne k j (omega arith)) (h j (omega arith) (omega arith))) in
    (b, rw (here, same-not v) e, Changed-step v n bitmap k b w (omega arith) here c)

-- A bit that has the new value already stops the loop.
pub change_panics :
    (v : Bool) (n : ℕ) (bitmap : List Word) (k j : ℕ)
    → AreWords bitmap
    → k + n ≤ 32 * length bitmap
    → k ≤ j
    → j < k + n
    → taken bitmap j ≡ v
    → change v n bitmap k ≡ none
unfolding change
change_panics v zero bitmap k j w f p q h = absurd (omega arith)
change_panics v (suc n) bitmap k j w f p q h = elim (ℕ_discrete k j) [
  | yes e ↦ rw (e, h, same_self v) refl
  | no e ↦
      rw
        (change_panics v n (put bitmap k v) (k + 1) j (put-AreWords bitmap k v w (omega arith))
          (omega (arith, length-put bitmap k v)) (omega arith) (omega arith)
          (taken-put bitmap k j v w (omega arith) ∙ rw (==_ne k j e) h))
        (if_same (same v (taken bitmap k)))
]
  where
    same_self : (v : Bool) → same v v ≡ true
    same_self true = refl
    same_self false = refl

    if_same : (b : Bool) → ◌≡◌ {A = Option (List Word)} (if b then none else none) none
    if_same true = refl
    if_same false = refl

-- ===== src/Mem/Heap/Marks.antt =====
-- The loops of `mark` and `unmark` on the bits of a slab, and the exclusive or of a header.
use aexkernel.Base.{
  ℕ, zero, suc, ◌+◌, ◌*◌, ◌/◌, ◌%◌, ◌^◌, ◌⊎◌, inl, inr, ◌≤◌, ◌<◌, ◌≡◌, refl, sym, ◌∙◌, arith, Bool,
  true, false, List, if◌then◌else◌, length,
}
use native.Mathlib.Decide.{dec_lt}
use Prim.Native.Nat.{bit_xor, bit_xor-bitwise, digits, differ}
use native.Mathlib.Omega.{pow_step}
use mathlib.Core.Path.{subst}
use aexkernel.Mem.Bitmap.{
  Word, taken, put, next_word_lem, next_bit_lem, AreWords, put-AreWords, length-put, taken-put,
}
use aexkernel.Mem.FramePiece.Change.{within, within-suc}
use aexkernel.Mem.Heap.{mark_bits}

-- The bits from `k` on are `v` now, and no other bit has changed.
pub record Marked (v : Bool) (n : ℕ) (bitmap : List Word) (k : ℕ) (bitmap' : List Word)
    : Type 0 where
  pub words : AreWords bitmap'
  pub as_long : length bitmap' ≡ length bitmap
  pub bits : (j : ℕ) → taken bitmap' j ≡ (if within k n j then v else taken bitmap j)

within-none : (k j : ℕ) → within k 0 j ≡ false
within-none k j = ground arith

pub within-cases :
    (q n k : ℕ)
    → ((q ≤ k) × (k < q + n) × (within q n k ≡ true))
      ⊎ (((k < q) ⊎ (q + n ≤ k)) × (within q n k ≡ false))
within-cases q n k = elim (dec_lt k q) [
  | yes before ↦ inr (inl before, ground (arith, before))
  | no l ↦ elim (dec_lt k (q + n)) [
    | yes inside ↦ inl (omega (arith, l), inside, ground (arith, l, inside))
    | no after ↦ inr (inr (omega (arith, after)), ground (arith, l, after))
  ]
]

pub mark_bits-Marked :
    (v : Bool) (n : ℕ) (bitmap : List Word) (k : ℕ)
    → AreWords bitmap
    → k + n ≤ 32 * length bitmap
    → Marked v n bitmap k (mark_bits v n bitmap (k / 32) (k % 32))
unfolding mark_bits
mark_bits-Marked v zero bitmap k w f = record {
  words = w;
  as_long = refl;
  bits = λ j. rw (within-none k j) refl;
}
mark_bits-Marked v (suc n) bitmap k w f =
    let m =
      mark_bits-Marked v n (put bitmap k v) (k + 1) (put-AreWords bitmap k v w (omega (arith, f)))
        (omega (arith, f, length-put bitmap k v)) in
    rw (next_word_lem k, next_bit_lem k)
      (record {
        words = m.words;
        as_long = m.as_long ∙ length-put bitmap k v;
        bits = λ j.
            m.bits j
            ∙ rw (taken-put bitmap k j v w (omega (arith, f)))
                (within-suc v k n j (taken bitmap j));
      })

differ_bit : (x y : ℕ) → x < 2 → y < 2 → differ x y < 2
differ_bit zero y h l = l
differ_bit (suc zero) zero h l = omega arith
differ_bit (suc (suc x)) zero h l = absurd (omega (arith, h))
differ_bit (suc zero) (suc y) h l = omega (arith, l)
differ_bit (suc (suc x)) (suc y) h l = absurd (omega (arith, h))

double : (d f m : ℕ) → d < m → f < 2 → d * 2 + f < m * 2
double d f m h l = omega (arith, h, l)

-- No exclusive or has more digits than its arguments.
digits_below : (k n a b : ℕ) → a < 2 ^ k → b < 2 ^ k → digits (λ d. d) differ n a b < 2 ^ k
digits_below k zero a b h l = l
digits_below k (suc n) zero b h l = l
digits_below zero (suc n) (suc a) b h l = absurd (omega (arith, h))
digits_below (suc k) (suc n) (suc a) b h l = omega (
  arith,
  pow_step 2 k,
  digits_below k n (suc a / 2) (b / 2) (omega (arith, h, pow_step 2 k))
      (omega (arith, l, pow_step 2 k)),
  differ_bit (suc a % 2) (b % 2) (omega arith) (omega arith),
)

pub xor_below : (a b : ℕ) → a < 2 ^ 64 → b < 2 ^ 64 → bit_xor a b < 2 ^ 64
xor_below a b h l = subst (λ x. x < 2 ^ 64) (sym (bit_xor-bitwise a b)) (digits_below 64 a a b h l)

-- ===== src/Mem/Heap/Runs.antt =====
-- First runs of clear bits, while blocks are taken and freed.
use aexkernel.Base.{
  ℕ, ◌+◌, ◌⊎◌, ◌≤◌, ◌<◌, ◌≡◌, sym, ap, ◌∙◌, arith, Bool, true, false, some, List, inl, inr,
  if◌then◌else◌,
}
use mathlib.Core.Bool.{false≢true}
use native.Mathlib.Decide.{dec_lt}
use aexkernel.Mem.Bitmap.{Word, taken}
use aexkernel.Mem.FramePiece.Change.{within}
use aexkernel.Mem.FramePiece.Find.{IsRun, Finds}
use aexkernel.Mem.Heap.Marks.{within-cases}

pub restored_bits :
    (bits bits1 bits2 : ℕ → Bool) (q n : ℕ)
    → ((j : ℕ) → q ≤ j → j < q + n → bits j ≡ false)
    → ((j : ℕ) → bits1 j ≡ (if within q n j then true else bits j))
    → ((j : ℕ) → bits2 j ≡ (if within q n j then false else bits1 j))
    → (j : ℕ) → bits2 j ≡ bits j
restored_bits bits bits1 bits2 q n clear set unset j = elim (within-cases q n j) [
  | inl (low, high, w) ↦ unset j ∙ ap (λ b. if b then false else bits1 j) w ∙ sym (clear j low high)
  | inr (_, w) ↦
      unset j
      ∙ ap (λ b. if b then false else bits1 j) w
      ∙ set j
      ∙ ap (λ b. if b then true else bits j) w
]

-- The first run stays the first when it is clear, and no bit is clear that was not.
pub Finds-less :
    (bitmap bitmap' : List Word) (size n q : ℕ)
    → Finds bitmap size n (some q)
    → ((j : ℕ) → q ≤ j → j < q + n → taken bitmap' j ≡ false)
    → ((j : ℕ) → taken bitmap' j ≡ false → taken bitmap j ≡ false)
    → Finds bitmap' size n (some q)
Finds-less bitmap bitmap' size n q (run, first) clear less =
    ((run.0, clear), λ t lt run'. first t lt (run'.0, λ j low high. less j (run'.1 j low high)))

pub Finds-unique :
    (bitmap : List Word) (size n q p : ℕ)
    → Finds bitmap size n (some q)
    → Finds bitmap size n (some p)
    → q ≡ p
Finds-unique bitmap size n q p (run, first) (run', first') = elim (dec_lt q p) [
  | yes before ↦ absurd (first' q before run)
  | no l ↦ elim (dec_lt p q) [
    | yes after ↦ absurd (first p after run')
    | no l' ↦ omega (arith, l, l')
  ]
]

-- A run for two blocks has room for the second when the first is the first run of its length.
pub second_run :
    (bitmap bitmap1 : List Word) (size n m q r : ℕ)
    → 0 < n
    → IsRun bitmap size (n + m) r
    → Finds bitmap size n (some q)
    → ((j : ℕ) → taken bitmap1 j ≡ (if within q n j then true else taken bitmap j))
    → IsRun bitmap1 size m (r + n)
second_run bitmap bitmap1 size n m q r some_n (inside, clear) (run, first) bits = (
  omega (arith, inside),
  λ j low high.
      bits j
      ∙ ap (λ b. if b then true else taken bitmap j) (out j low)
      ∙ clear j (omega (arith, low)) (omega (arith, high)),
)
  where
    not_after : ¬ (r < q)
    not_after lt =
        first r lt (omega (arith, inside), λ j low high. clear j low (omega (arith, high)))

    out : (j : ℕ) → r + n ≤ j → within q n j ≡ false
    out j low = elim (within-cases q n j) [
      | inl (_, high, _) ↦ absurd (omega (arith, high, low, not_before))
      | inr (_, w) ↦ w
    ]
      where
        not_before : q ≤ r
        not_before = omega (arith, not_after)

-- The bits after two blocks are taken and the first is freed.
pub freed_first :
    (bits bits1 bits2 bits3 : ℕ → Bool) (q n p m : ℕ)
    → ((j : ℕ) → bits1 j ≡ (if within q n j then true else bits j))
    → ((j : ℕ) → bits2 j ≡ (if within p m j then true else bits1 j))
    → ((j : ℕ) → bits3 j ≡ (if within q n j then false else bits2 j))
    → (j : ℕ) → ((q ≤ j) × (j < q + n) × (bits3 j ≡ false)) ⊎ (bits3 j ≡ false → bits j ≡ false)
freed_first bits bits1 bits2 bits3 q n p m e1 e2 e3 j = elim (within-cases q n j) [
  | inl (low, high, w) ↦ inl (low, high, e3 j ∙ ap (λ b. if b then false else bits2 j) w)
  | inr (_, w) ↦ inr (λ t.
      sym (e1 j ∙ ap (λ b. if b then true else bits j) w)
      ∙ was_clear (within p m j) (bits1 j)
          (sym (e2 j) ∙ sym (e3 j ∙ ap (λ b. if b then false else bits2 j) w) ∙ t))
]
  where
    was_clear : (b c : Bool) → (if b then true else c) ≡ false → c ≡ false
    was_clear true c e = absurd (false≢true (sym e))
    was_clear false c e = e

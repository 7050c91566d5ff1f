-- ===== src/Mem/FramePiece/Laws.antt =====
-- A piece that is allocated from and freed to: its counter stays right, and the two undo each other.
use aexkernel.Base.{
  ℕ, zero, suc, ◌+◌, ◌-◌, ◌*◌, ◌/◌, ◌%◌, ◌^◌, ◌≤◌, ◌<◌, ◌≡◌, refl, sym, ◌∙◌, arith, Bool, true,
  false, none, some, List, if◌then◌else◌, length,
}
use aexkernel.Mem.Bitmap.{Word, taken, AreWords, clear_below}
use aexkernel.Mem.FramePiece.{FramePiece, to_size, alloc, free, find}
use aexkernel.Mem.FramePiece.Change.{change_bits-eq, change-Changed, change_panics, within}
use aexkernel.Mem.FramePiece.Find.{IsRun, find-Finds}

pub record IsValid (p : FramePiece) : Type 0 where
  pub words : AreWords p.bitmap
  pub covered : p.size ≤ 32 * length p.bitmap
  pub counted : p.frames_free ≡ clear_below p.bitmap p.size
  pub small : p.size < 2 ^ 31  -- frames are numbered by ints

-- The `n` bits from `s` on are set.
abbrev pub AreTaken : List Word → ℕ → ℕ → Type 0
AreTaken bitmap s n = (j : ℕ) → s ≤ j → j < s + n → taken bitmap j ≡ true

clear_below-le : (bitmap : List Word) (n : ℕ) → clear_below bitmap n ≤ n
clear_below-le bitmap zero = omega arith
clear_below-le bitmap (suc n) = ground (arith, clear_below-le bitmap n)

-- An int that is not negative is the size_t that it is turned into.
to_size_small : (s : ℕ) → s < 2 ^ 31 → to_size s ≡ s
unfolding to_size
to_size_small s h = ground arith

narrow : (s : ℕ) → s < 2 ^ 31 → s / 32 % 2 ^ 32 ≡ s / 32
narrow s h = omega arith

-- What a change of `n` frames from `s` on to `v` gives.
pub record Result (v : Bool) (p : FramePiece) (s n : ℕ) (p' : FramePiece) : Type 0 where
  pub valid : IsValid p'
  pub start : p'.start ≡ p.start
  pub size : p'.size ≡ p.size
  pub bits : (j : ℕ) → taken p'.bitmap j ≡ (if within s n j then v else taken p.bitmap j)

-- Of a valid piece, `alloc` of free frames succeeds: exactly those frames become taken, the counter
-- goes down by their number without wrapping, and the piece stays valid.
pub alloc_lem :
    {p : FramePiece} (s n : ℕ)
    → IsValid p
    → IsRun p.bitmap p.size n s
    → (p' : FramePiece) × (alloc p s n ≡ some p')
      × Result true p s n p'
      × (p'.frames_free + n ≡ p.frames_free)
unfolding alloc
alloc_lem {p} s n v (f, clear) =
    let (b, e, c) = change-Changed true n p.bitmap s v.words (omega (arith, v.covered)) clear in
    let count = c.count p.size f in
    let low : s < 2 ^ 31 = omega (arith, v.small) in
    let wrap : (p.frames_free + 2 ^ 32 - n) % 2 ^ 32 ≡ clear_below b p.size =
      omega (arith, v.counted, v.small, count, clear_below-le p.bitmap p.size) in
    (
      record p { bitmap = b; frames_free = (p.frames_free + 2 ^ 32 - n) % 2 ^ 32 },
      rw (to_size_small s low, narrow s low, change_bits-eq true n p.bitmap s, e) refl,
      record {
        valid = record {
          words = c.words;
          covered = omega (arith, v.covered, c.as_long);
          counted = wrap;
          small = v.small;
        };
        start = refl;
        size = refl;
        bits = c.bits;
      },
      omega (arith, wrap, count, v.counted),
    )

-- Of a valid piece, `free` of taken frames succeeds: exactly those frames become free, the counter
-- goes up by their number without wrapping, and the piece stays valid.
pub free_lem :
    {p : FramePiece} (s n : ℕ)
    → IsValid p
    → s + n ≤ p.size
    → AreTaken p.bitmap s n
    → (p' : FramePiece) × (free p s n ≡ some p')
      × Result false p s n p'
      × (p'.frames_free ≡ p.frames_free + n)
unfolding free
free_lem {p} s n v f held =
    let (b, e, c) = change-Changed false n p.bitmap s v.words (omega (arith, v.covered)) held in
    let count = c.count p.size f in
    let low : s < 2 ^ 31 = omega (arith, v.small) in
    let wrap : (p.frames_free + n) % 2 ^ 32 ≡ clear_below b p.size =
      omega (arith, v.counted, v.small, count, clear_below-le b p.size) in
    (
      record p { bitmap = b; frames_free = (p.frames_free + n) % 2 ^ 32 },
      rw (to_size_small s low, narrow s low, change_bits-eq false n p.bitmap s, e) refl,
      record {
        valid = record {
          words = c.words;
          covered = omega (arith, v.covered, c.as_long);
          counted = wrap;
          small = v.small;
        };
        start = refl;
        size = refl;
        bits = c.bits;
      },
      omega (arith, wrap, count, v.counted),
    )

-- `free` of frames of which one is free already, a double free, panics and changes nothing.
pub double_free_panics :
    {p : FramePiece} (s n j : ℕ)
    → IsValid p
    → s + n ≤ p.size
    → s ≤ j
    → j < s + n
    → taken p.bitmap j ≡ false
    → free p s n ≡ none
unfolding free
double_free_panics {p} s n j v f a b h =
    rw
      (
        to_size_small s (omega (arith, v.small)),
        narrow s (omega (arith, v.small)),
        change_bits-eq false n p.bitmap s,
        change_panics false n p.bitmap s j v.words (omega (arith, v.covered)) a b h,
      )
      refl

within-in : (s n j : ℕ) → s ≤ j → j < s + n → within s n j ≡ true
within-in s n j a b = ground arith

if_back :
    (b : Bool) (x : Bool)
    → (b ≡ true → x ≡ false)
    → (if b then false else if b then true else x) ≡ x
if_back true x h = sym (h refl)
if_back false x h = refl

within-out : (s n j : ℕ) → within s n j ≡ true → (s ≤ j) × (j < s + n)
within-out s n j h = ground arith

-- Frames that `find` has found in a valid piece, one of fewer than 2 ^ 31 frames, allocated and then
-- freed again: both calls succeed, and leave the piece valid, where it was, and with the bits and the
-- counter that it had.
pub alloc-free :
    {p : FramePiece} (n s : ℕ)
    → IsValid p
    → 0 < n
    → find p n ≡ some s
    → (p₁ p₂ : FramePiece) × (alloc p s n ≡ some p₁)
      × (free p₁ s n ≡ some p₂)
      × ((j : ℕ) → taken p₂.bitmap j ≡ taken p.bitmap j)
      × (p₂.frames_free ≡ p.frames_free)
      × IsValid p₂
      × (p₁.start ≡ p.start)
alloc-free {p} n s v h e =
    let run : IsRun p.bitmap p.size n s = (rw e at (find-Finds p n v.counted v.small h)).0 in
    let (p₁, e₁, r₁, c₁) = alloc_lem s n v run in
    let (p₂, e₂, r₂, c₂) =
      free_lem s n r₁.valid (omega (arith, run.0, r₁.size))
        (λ j a b. r₁.bits j ∙ rw (within-in s n j a b) refl) in
    (
      p₁,
      p₂,
      e₁,
      e₂,
      λ j.
          r₂.bits j
          ∙ rw (r₁.bits j) (
              if_back (within s n j) (taken p.bitmap j)
                (λ w. let (a, b) = within-out s n j w in run.1 j a b)),
      omega (arith, c₁, c₂),
      r₂.valid,
      r₁.start,
    )

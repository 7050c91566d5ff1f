-- ===== src/Mem/FramePiece/Find.antt =====
-- `find`: the first run of clear bits that is long enough.
use aexkernel.Base.{
  ℕ, zero, suc, ◌+◌, ◌-◌, ◌/◌, ◌%◌, ◌^◌, ◌≤◌, ◌<◌, ◌≡◌, refl, sym, ◌∙◌, arith, true, false, Option,
  none, some, List, ltb, ==_ne, ==_iff, inl, inr, Bool-cases, lt→ltb, ◌≢◌,
}
use mathlib.Core.Bool.{false≢true}
use native.Mathlib.Decide.{ℕ_discrete, dec_lt}
use native.Mathlib.Nat.{suc-add, zero-add, le_trans}
use aexkernel.Mem.Bitmap.{Word, taken, next_word_lem, next_bit_lem, AreClear, clear_below}
use aexkernel.Mem.FramePiece.{FramePiece, start_at, find_loop, as_int32, find}

-- A run of `n` clear bits from `s` on, among the first `size` bits.
abbrev pub IsRun : List Word → ℕ → ℕ → ℕ → Type 0
IsRun bitmap size n s = (s + n ≤ size) × AreClear bitmap s n

-- The result is the start of the first run, or there is none.
abbrev pub Finds : List Word → ℕ → ℕ → Option ℕ → Type 0
Finds bitmap size n (some s) = IsRun bitmap size n s × ((t : ℕ) → t < s → ¬ IsRun bitmap size n t)
Finds bitmap size n none = (t : ℕ) → ¬ IsRun bitmap size n t

-- Between two rounds: the `found` bits before `i` are clear, and no run starts before them.
pub record Progress (bitmap : List Word) (size n i found : ℕ) (start : Option ℕ) : Type 0 where
  pub short : found < n
  pub from : start_at start i + found ≡ i
  pub clear : AreClear bitmap (start_at start i) found
  pub earlier : (t : ℕ) → t < start_at start i → ¬ IsRun bitmap size n t

module _ (bitmap : List Word) (size n : ℕ) where
  pub Progress-clear :
      (i found : ℕ) (start : Option ℕ)
      → taken bitmap i ≡ false
      → found + 1 ≢ n
      → Progress bitmap size n i found start
      → Progress bitmap size n (i + 1) (found + 1) (some (start_at start i))
  Progress-clear i found start h m p = record {
    short = omega (arith, p.short);
    from = omega (arith, p.from);
    clear = λ j a b. elim (ℕ_discrete j i) [
      | yes e ↦ rw e h
      | no e ↦ p.clear j a (omega (arith, p.from))
    ];
    earlier = p.earlier;
  }

  pub Progress-taken :
      (i found : ℕ) (start : Option ℕ)
      → taken bitmap i ≡ true
      → Progress bitmap size n i found start
      → Progress bitmap size n (i + 1) 0 none
  Progress-taken i found start h p = record {
    short = omega (arith, p.short);
    from = omega arith;
    clear = λ j a b. absurd (omega arith);
    earlier = λ t a r. elim (dec_lt t (start_at start i)) [
      | yes before ↦ p.earlier t before r
      | no inside ↦ false≢true (sym (r.1 i (omega arith) (omega (arith, p.short, p.from))) ∙ h)
    ];
  }

  pub whole :
      (i found : ℕ) (start : Option ℕ)
      → taken bitmap i ≡ false
      → found + 1 ≡ n
      → Progress bitmap size n i found start
      → i < size
      → IsRun bitmap size n (start_at start i)
  whole i found start h m p q = (
    omega (arith, p.from),
    λ j a b. elim (ℕ_discrete j i) [ yes e ↦ rw e h | no e ↦ p.clear j a (omega (arith, p.from)) ],
  )

  find_loop-Finds :
      (left i found : ℕ) (start : Option ℕ)
      → i + left ≡ size
      → Progress bitmap size n i found start
      → Finds bitmap size n (find_loop left n bitmap i (i / 32) (i % 32) found start)
  unfolding find_loop
  find_loop-Finds zero i found start e p =
      λ t r. p.earlier t (omega (arith, p.short, p.from, r.0)) r
  find_loop-Finds (suc left) i found start e p =
      rw (next_word_lem i, next_bit_lem i)
        (elim (Bool-cases (taken bitmap i)) [
          | inl h ↦
              rw h (
                find_loop-Finds left (i + 1) 0 none (omega arith)
                  (Progress-taken i found start h p))
          | inr h ↦ elim (ℕ_discrete (found + 1) n) [
            | yes m ↦
                rw (h, (==_iff (found + 1) n).1 m)
                  (whole i found start h m p (omega arith), p.earlier)
            | no m ↦
                rw (h, ==_ne (found + 1) n m)
                  (find_loop-Finds left (i + 1) (found + 1) (some (start_at start i)) (omega arith)
                    (Progress-clear i found start h m p))
          ]
        ])

clear_below_mono :
    (bitmap : List Word) (m k : ℕ) → clear_below bitmap m ≤ clear_below bitmap (k + m)
clear_below_mono bitmap m zero = rw zero-add (omega arith)
clear_below_mono bitmap m (suc k) = rw suc-add (ground (arith, clear_below_mono bitmap m k))

-- A run has no more bits than are clear.
run-le-clear : (bitmap : List Word) (s n : ℕ) → AreClear bitmap s n → n ≤ clear_below bitmap (n + s)
run-le-clear bitmap s zero h = omega arith
run-le-clear bitmap s (suc n) h =
    rw (suc-add, h (n + s) (omega arith) (omega arith))
      (omega (arith, run-le-clear bitmap s n (λ j a b. h j a (omega arith))))

pub run_fits :
    (bitmap : List Word) (size n s : ℕ) → IsRun bitmap size n s → n ≤ clear_below bitmap size
run_fits bitmap size n s (f, h) =
    let e : size - (n + s) + (n + s) ≡ size = omega arith in
    rw e at
      (le_trans (run-le-clear bitmap s n h) (clear_below_mono bitmap (n + s) (size - (n + s))))

as_int32-Finds :
    (bitmap : List Word) (size n : ℕ) (o : Option ℕ)
    → 0 < n
    → size < 2 ^ 31
    → Finds bitmap size n o
    → Finds bitmap size n (as_int32 o)
as_int32-Finds bitmap size n none h small f = f
as_int32-Finds bitmap size n (some s) h small f =
    let bits : s % 2 ^ 32 ≡ s = omega (arith, f.0.0) in
    rw (bits, ==_ne s (2 ^ 32 - 1) (omega (arith, f.0.0))) f

-- Of a piece of fewer than 2 ^ 31 frames whose counter is right, `find` of at least one frame gives
-- the start of the first run of that many free frames, and -1 exactly if there is no such run.
pub find-Finds :
    (p : FramePiece) (n : ℕ)
    → p.frames_free ≡ clear_below p.bitmap p.size
    → p.size < 2 ^ 31
    → 0 < n
    → Finds p.bitmap p.size n (find p n)
unfolding find
find-Finds p n e small h = elim (dec_lt p.frames_free n) [
  | yes less ↦
      rw (==_ne n 0 (omega arith), lt→ltb p.frames_free n less)
        (λ t r. absurd (omega (arith, run_fits p.bitmap p.size n t r)))
  | no enough ↦
      rw (==_ne n 0 (omega arith), ge→ltb p.frames_free n enough)
        (as_int32-Finds p.bitmap p.size n _ h small (
          find_loop-Finds p.bitmap p.size n p.size 0 0 none (omega arith) (record {
            short = h;
            from = refl;
            clear = λ j a b. absurd (omega arith);
            earlier = λ t a. absurd (omega arith);
          })))
]
  where
    ge→ltb : (a b : ℕ) → ¬ (a < b) → ltb a b ≡ false
    ge→ltb a b q = ground arith

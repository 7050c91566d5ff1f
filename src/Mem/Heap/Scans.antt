-- ===== src/Mem/Heap/Scans.antt =====
-- The loop of `findFree` over the bits of a word, and the words of a bitmap.
use aexkernel.Base.{
  ℕ, zero, suc, ◌+◌, ◌*◌, ◌/◌, ◌%◌, ◌≤◌, ◌<◌, ◌≡◌, refl, sym, ap, ◌∙◌, arith, true, false, Option,
  none, some, List, [], ◌∷◌, ==_ne, ==_iff, inl, inr, Bool-cases, length, get_or,
}
use mathlib.Core.Path.{subst}
use native.Mathlib.Decide.{ℕ_discrete}
use aexkernel.Mem.Bitmap.{Word, taken, AreWords, IsWord}
use aexkernel.Mem.FramePiece.{start_at}
use aexkernel.Mem.FramePiece.Find.{IsRun, Progress, Progress-clear, Progress-taken, whole}
use aexkernel.Mem.Heap.{all_ones, Scan, found, scanned, scan, word_at}

-- What a scan of some bits of a word has come to.
abbrev pub Scans : List Word → ℕ → ℕ → ℕ → Scan → Type 0
Scans bitmap size n next (found s) =
    IsRun bitmap size n s × ((t : ℕ) → t < s → ¬ IsRun bitmap size n t)
Scans bitmap size n next (scanned combo start) = Progress bitmap size n next combo start

pub scan-Scans :
    (bitmap : List Word) (size n left : ℕ) (word : Word) (i index combo : ℕ) (start : Option ℕ)
    → ((j : ℕ) → j < left → taken bitmap (index + j) ≡ get_or word (i + j) false)
    → index + left ≤ size
    → Progress bitmap size n index combo start
    → Scans bitmap size n (index + left) (scan left word i n index combo start)
unfolding scan
scan-Scans bitmap size n zero word i index combo start bits h p =
    subst (λ x. Progress bitmap size n x combo start) (add_zero index) p
  where
    add_zero : (x : ℕ) → x ≡ x + 0
    add_zero x = omega arith
scan-Scans bitmap size n (suc left) word i index combo start bits h p =
    elim (Bool-cases (get_or word i false)) [
      | inl b ↦ rw b (
          subst (λ x. Scans bitmap size n x (scan left word (i + 1) n (index + 1) 0 none))
            (shift index left)
            (scan-Scans bitmap size n left word (i + 1) (index + 1) 0 none later (omega (arith, h))
              (Progress-taken bitmap size n index combo start (here ∙ b) p)))
      | inr b ↦ elim (ℕ_discrete (combo + 1) n) [
        | yes e ↦
            rw (b, (==_iff (combo + 1) n).1 e)
              (whole bitmap size n index combo start (here ∙ b) e p (omega (arith, h)), p.earlier)
        | no e ↦
            rw (b, ==_ne (combo + 1) n e)
              (subst
                (λ x.
                  Scans bitmap size n x (
                    scan left word (i + 1) n (index + 1) (combo + 1) (some (start_at start index))))
                (shift index left)
                (scan-Scans bitmap size n left word (i + 1) (index + 1) (combo + 1)
                  (some (start_at start index)) later (omega (arith, h))
                  (Progress-clear bitmap size n index combo start (here ∙ b) e p)))
      ]
    ]
  where
    shift : (x y : ℕ) → x + 1 + y ≡ x + suc y
    shift x y = omega arith

    add_zero : (x : ℕ) → x + 0 ≡ x
    add_zero x = omega arith

    here : taken bitmap index ≡ get_or word i false
    here =
        ap (taken bitmap) (sym (add_zero index))
        ∙ bits 0 (omega arith)
        ∙ ap (λ x. get_or word x false) (add_zero i)

    later : (j : ℕ) → j < left → taken bitmap (index + 1 + j) ≡ get_or word (i + 1 + j) false
    later j lt =
        ap (taken bitmap) (shift index j)
        ∙ bits (suc j) (omega (arith, lt))
        ∙ ap (λ x. get_or word x false) (sym (shift i j))

pub word_at-inside :
    (bitmap : List Word) (past : ℕ → Word) (ii : ℕ)
    → ii < length bitmap
    → word_at bitmap past ii ≡ get_or bitmap ii []
word_at-inside [] past ii h = absurd (omega (arith, h))
word_at-inside (w ∷ ws) past zero h = refl
word_at-inside (w ∷ ws) past (suc ii) h =
    word_at-inside ws (λ k. past (suc k)) ii (omega (arith, h))

pub word_at-behind :
    (bitmap : List Word) (past : ℕ → Word) (ii : ℕ)
    → length bitmap ≤ ii
    → word_at bitmap past ii ≡ past ii
word_at-behind [] past ii h = refl
word_at-behind (w ∷ ws) past zero h = absurd (omega (arith, h))
word_at-behind (w ∷ ws) past (suc ii) h =
    word_at-behind ws (λ k. past (suc k)) ii (omega (arith, h))

pub taken-word :
    (bitmap : List Word) (index ii j : ℕ)
    → index ≡ 32 * ii
    → j < 32
    → taken bitmap (index + j) ≡ get_or (get_or bitmap ii []) j false
taken-word bitmap index ii j e h = rw (row, column) refl
  where
    row : (index + j) / 32 ≡ ii
    row = omega (arith, e, h)

    column : (index + j) % 32 ≡ j
    column = omega (arith, e, h)

pub get_or-IsWord :
    (bitmap : List Word) (ii : ℕ)
    → AreWords bitmap
    → ii < length bitmap
    → IsWord (get_or bitmap ii [])
get_or-IsWord [] ii w h = absurd (omega (arith, h))
get_or-IsWord (x ∷ xs) zero (w, _) h = w
get_or-IsWord (x ∷ xs) (suc ii) (_, ws) h = get_or-IsWord xs ii ws (omega (arith, h))

pub all_ones-bit : (w : Word) (j : ℕ) → all_ones w ≡ true → j < length w → get_or w j false ≡ true
all_ones-bit [] j a h = absurd (omega (arith, h))
all_ones-bit (true ∷ bs) zero a h = refl
all_ones-bit (false ∷ bs) j a h = cc
all_ones-bit (true ∷ bs) (suc j) a h = all_ones-bit bs j a (omega (arith, h))

-- Past bits that are taken, one at least.
pub Progress-skip :
    (bitmap : List Word) (size n k index combo : ℕ) (start : Option ℕ)
    → ((j : ℕ) → j < suc k → taken bitmap (index + j) ≡ true)
    → Progress bitmap size n index combo start
    → Progress bitmap size n (index + suc k) 0 none
Progress-skip bitmap size n zero index combo start bits p =
    Progress-taken bitmap size n index combo start
      (ap (taken bitmap) (sym (add_zero index)) ∙ bits 0 (omega arith)) p
  where
    add_zero : (x : ℕ) → x + 0 ≡ x
    add_zero x = omega arith
Progress-skip bitmap size n (suc k) index combo start bits p =
    subst (λ x. Progress bitmap size n x 0 none) (shift index k)
      (Progress-taken bitmap size n (index + suc k) 0 none (bits (suc k) (omega arith))
        (Progress-skip bitmap size n k index combo start (λ j lt. bits j (omega (arith, lt))) p))
  where
    shift : (x y : ℕ) → x + suc y + 1 ≡ x + suc (suc y)
    shift x y = omega arith

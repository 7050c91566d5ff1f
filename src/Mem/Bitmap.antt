-- ===== src/Mem/Bitmap.antt =====
-- Bitmaps of `uint32_t` words, as mem/frame_piece.hpp and mem/heap.cpp keep them.
-- A word is the list of its 32 bits, the least significant first: `w & (1 << i)` reads bit `i`,
-- `w |= 1 << i` sets it and `w &= ~(1 << i)` clears it.
use aexkernel.Base.{
  ℕ, zero, suc, ◌+◌, ◌*◌, ◌/◌, ◌%◌, ◌≤◌, ◌<◌, ◌≡◌, refl, ap, ◌∙◌, arith, Bool, true, false, List,
  [], ◌∷◌, leb, ◌==◌, if◌then◌else◌, length, get_or, set, All, length-set, get_or-set_self,
  get_or-set_ne, get_or-set, ==_iff, ==_ne,
}
use native.Mathlib.Decide.{ℕ_discrete}

abbrev pub Word : Type 0
Word = List Bool

abbrev pub word_bits : ℕ
word_bits = 32

-- A read past the last word finds clear bits, and a write there changes nothing.
abbrev pub test_bit : List Word → ℕ → ℕ → Bool
test_bit bitmap ii ib = get_or (get_or bitmap ii []) ib false

abbrev pub write_bit : List Word → ℕ → ℕ → Bool → List Word
write_bit bitmap ii ib v = set bitmap ii (set (get_or bitmap ii []) ib v)

-- `ib++; if (ib >= 32) { ii++; ib = 0; }`
abbrev pub next_word : ℕ → ℕ → ℕ
next_word ii ib = if leb word_bits (ib + 1) then ii + 1 else ii

abbrev pub next_bit : ℕ → ℕ
next_bit ib = if leb word_bits (ib + 1) then 0 else ib + 1

-- The bit with a number of its own, over all words.
abbrev pub taken : List Word → ℕ → Bool
taken bitmap k = test_bit bitmap (k / 32) (k % 32)

abbrev pub put : List Word → ℕ → Bool → List Word
put bitmap k v = write_bit bitmap (k / 32) (k % 32) v

abbrev pub IsWord : Word → Type 0
IsWord w = length w ≡ 32

abbrev pub AreWords : List Word → Type 0
AreWords = All IsWord

pub next_word_lem : (k : ℕ) → next_word (k / 32) (k % 32) ≡ (k + 1) / 32
next_word_lem k = ground arith

pub next_bit_lem : (k : ℕ) → next_bit (k % 32) ≡ (k + 1) % 32
next_bit_lem k = ground arith

get_or-IsWord :
    (bitmap : List Word) (i : ℕ) → AreWords bitmap → i < length bitmap → IsWord (get_or bitmap i [])
get_or-IsWord [] i h p = absurd (omega arith)
get_or-IsWord (w ∷ ws) zero h p = h.0
get_or-IsWord (w ∷ ws) (suc i) h p = get_or-IsWord ws i h.1 (omega arith)

set-AreWords :
    (bitmap : List Word) (i : ℕ) (w : Word) → AreWords bitmap → IsWord w → AreWords (set bitmap i w)
set-AreWords [] i w h p = tt
set-AreWords (v ∷ ws) zero w h p = (p, h.1)
set-AreWords (v ∷ ws) (suc i) w h p = (h.0, set-AreWords ws i w h.1 p)

pub put-AreWords :
    (bitmap : List Word) (k : ℕ) (v : Bool)
    → AreWords bitmap
    → k < 32 * length bitmap
    → AreWords (put bitmap k v)
put-AreWords bitmap k v h p = set-AreWords bitmap (k / 32) _ h (
    length-set (get_or bitmap (k / 32) []) (k % 32) v
    ∙ get_or-IsWord bitmap (k / 32) h (omega arith))

pub length-put : (bitmap : List Word) (k : ℕ) (v : Bool) → length (put bitmap k v) ≡ length bitmap
length-put bitmap k v = length-set bitmap (k / 32) _

same_test : (k j : ℕ) → k / 32 ≡ j / 32 → (k % 32 == j % 32) ≡ (k == j)
same_test k j h = ground arith

-- Writing one bit changes that bit and no other.
pub taken-put :
    (bitmap : List Word) (k j : ℕ) (v : Bool)
    → AreWords bitmap
    → k < 32 * length bitmap
    → taken (put bitmap k v) j ≡ (if k == j then v else taken bitmap j)
taken-put bitmap k j v h p = elim (ℕ_discrete (k / 32) (j / 32)) [
  | yes same ↦
      rw
        (
          ← same,
          get_or-set_self bitmap (k / 32) _ [] (omega arith),
          get_or-set (get_or bitmap (k / 32) []) (k % 32) (j % 32) v false
              (omega (arith, get_or-IsWord bitmap (k / 32) h (omega arith))),
        )
        (ap (λ b. if b then v else test_bit bitmap (k / 32) (j % 32)) (same_test k j same))
  | no other ↦
      rw
        (
          get_or-set_ne bitmap (k / 32) (j / 32) _ [] other,
          ==_ne k j (λ e. other (ap (λ t. t / 32) e)),
        )
        refl
]

-- How many of the first `n` bits are clear.
abbrev pub clear_below : List Word → ℕ → ℕ
clear_below bitmap zero = 0
clear_below bitmap (suc n) =
    let rest = clear_below bitmap n in if taken bitmap n then rest else suc rest

-- The `n` bits from `s` on are clear.
abbrev pub AreClear : List Word → ℕ → ℕ → Type 0
AreClear bitmap s n = (j : ℕ) → s ≤ j → j < s + n → taken bitmap j ≡ false

clear_below-put_above :
    (bitmap : List Word) (k n : ℕ) (v : Bool)
    → AreWords bitmap
    → k < 32 * length bitmap
    → n ≤ k
    → clear_below (put bitmap k v) n ≡ clear_below bitmap n
clear_below-put_above bitmap k zero v h p q = refl
clear_below-put_above bitmap k (suc n) v h p q =
    rw
      (
        taken-put bitmap k n v h p,
        ==_ne k n (omega arith),
        clear_below-put_above bitmap k n v h p (omega arith),
      )
      refl

-- Setting a clear bit takes one from the clear bits.
pub clear_below-set :
    (bitmap : List Word) (k n : ℕ)
    → AreWords bitmap
    → k < 32 * length bitmap
    → k < n
    → taken bitmap k ≡ false
    → clear_below (put bitmap k true) n + 1 ≡ clear_below bitmap n
clear_below-set bitmap k zero h p q c = absurd (omega arith)
clear_below-set bitmap k (suc n) h p q c = elim (ℕ_discrete k n) [
  | yes e ↦
      rw
        (
          ← e,
          taken-put bitmap k k true h p,
          (==_iff k k).1 refl,
          clear_below-put_above bitmap k k true h p (omega arith),
          c,
        )
        (omega arith)
  | no e ↦
      rw (taken-put bitmap k n true h p, ==_ne k n e)
        (ground (arith, clear_below-set bitmap k n h p (omega arith) c))
]

-- Clearing a set bit adds one to the clear bits.
pub clear_below-clear :
    (bitmap : List Word) (k n : ℕ)
    → AreWords bitmap
    → k < 32 * length bitmap
    → k < n
    → taken bitmap k ≡ true
    → clear_below (put bitmap k false) n ≡ clear_below bitmap n + 1
clear_below-clear bitmap k zero h p q c = absurd (omega arith)
clear_below-clear bitmap k (suc n) h p q c = elim (ℕ_discrete k n) [
  | yes e ↦
      rw
        (
          ← e,
          taken-put bitmap k k false h p,
          (==_iff k k).1 refl,
          clear_below-put_above bitmap k k false h p (omega arith),
          c,
        )
        (omega arith)
  | no e ↦
      rw (taken-put bitmap k n false h p, ==_ne k n e)
        (ground (arith, clear_below-clear bitmap k n h p (omega arith) c))
]

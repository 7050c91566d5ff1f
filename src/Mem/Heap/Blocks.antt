-- ===== src/Mem/Heap/Blocks.antt =====
-- The blocks that a slab has given and that are not freed yet, as a map from a block's first piece to
-- its number of pieces, and what the slab's bitmap and its memory say of them.
use aexkernel.Base.{
  ℕ, ◌+◌, ◌*◌, ◌^◌, ◌⊎◌, ◌≤◌, ◌<◌, ◌≡◌, ◌≢◌, sym, ap, ◌∙◌, arith, true, false, Option, none, some,
  ◌==◌, ==_ne, inl, inr, Bool-cases, if◌then◌else◌,
}
use Prim.Native.Nat.{bit_xor}
use mathlib.Core.Bool.{false≢true}
use native.Mathlib.Decide.{ℕ_discrete, dec_lt}
use aexkernel.Mem.Bitmap.{taken, AreClear}
use aexkernel.Mem.Heap.{Memory, Slab, alloc_size, sanity_xor, header_sanity, header_len}
use aexkernel.Mem.Heap.Bytes.{Same, load-Same}
use aexkernel.Mem.Heap.Search.{IsSlab}

abbrev pub Live : Type 0
Live = ℕ → Option ℕ

abbrev pub add : Live → ℕ → ℕ → Live
add live q n a = if a == q then some n else live a

abbrev pub remove : Live → ℕ → Live
remove live q a = if a == q then none else live a

-- The address of a piece.
abbrev pub piece_at : Slab → ℕ → ℕ
piece_at s k = s.data_at + k * alloc_size

-- The block that starts at a piece: its header says how long it is, and is sane.
pub record Holds (s : Slab) (mem : Memory) (a n : ℕ) : Type 0 where
  pub some_pieces : 0 < n
  pub inside : a + n ≤ s.pieces
  pub len : header_len mem (piece_at s a) ≡ n
  pub sane : header_sanity mem (piece_at s a) ≡ bit_xor (piece_at s a + alloc_size) sanity_xor

-- The blocks are in the slab and do not overlap, and the pieces that are taken are theirs.
pub record IsHeap (s : Slab) (mem : Memory) (live : Live) : Type 0 where
  pub slab : IsSlab s
  pub fits : piece_at s s.pieces + alloc_size < 2 ^ 64
  pub holds : (a n : ℕ) → live a ≡ some n → Holds s mem a n
  pub apart : (a n b m : ℕ) → live a ≡ some n → live b ≡ some m → a < b → a + n ≤ b
  pub marked : (a n k : ℕ) → live a ≡ some n → a ≤ k → k < a + n → taken s.bitmap k ≡ true
  pub covered :
      (k : ℕ)
      → k < s.pieces
      → taken s.bitmap k ≡ true
      → (a : ℕ) × (n : ℕ) × (live a ≡ some n) × (a ≤ k) × (k < a + n)

-- Nothing has changed but the `len` bytes from `at` on.
abbrev pub Outside : ℕ → ℕ → Memory → Memory → Type 0
Outside at len mem mem' = (b : ℕ) → (b < at) ⊎ (at + len ≤ b) → mem' b ≡ mem b

-- Two runs of pieces with none in common.
abbrev pub AreApart : ℕ → ℕ → ℕ → ℕ → Type 0
AreApart a n b m = (a + n ≤ b) ⊎ (b + m ≤ a)

-- A block keeps its header when memory changes only in pieces that are apart from it.
pub Holds-Outside :
    (s t : Slab) (mem mem' : Memory) (a n q m : ℕ)
    → t.data_at ≡ s.data_at
    → t.pieces ≡ s.pieces
    → AreApart a n q m
    → Outside (piece_at s q) (m * alloc_size) mem mem'
    → Holds s mem a n
    → Holds t mem' a n
Holds-Outside s t mem mem' a n q m same_data same_pieces apart outside h = record {
  some_pieces = h.some_pieces;
  inside = omega (arith, h.inside, same_pieces);
  len =
      ap (λ x. header_len mem' (x + a * alloc_size)) same_data
      ∙ load-Same 4 mem mem' (piece_at s a + 8) (header 8 4 (omega arith))
      ∙ h.len;
  sane =
      ap (λ x. header_sanity mem' (x + a * alloc_size)) same_data
      ∙ load-Same 8 mem mem' (piece_at s a)
          (λ b low high. outside b (side b low (omega (arith, high)) apart))
      ∙ h.sane
      ∙ ap (λ x. bit_xor (x + a * alloc_size + alloc_size) sanity_xor) (sym same_data);
}
  where
    side :
        (b : ℕ)
        → piece_at s a ≤ b
        → b < piece_at s a + 16
        → AreApart a n q m
        → (b < piece_at s q) ⊎ (piece_at s q + m * alloc_size ≤ b)
    side b low high (inl before) = inl (omega (arith, low, high, before, h.some_pieces))
    side b low high (inr after) = inr (omega (arith, low, high, after))

    header : (k j : ℕ) → k + j ≤ 16 → Same (piece_at s a + k) j mem mem'
    header k j f b low high = outside b (side b (omega (arith, low)) (omega (arith, high, f)) apart)

module _ (live : Live) where
  pub add-cases :
      (q n a m : ℕ) → add live q n a ≡ some m → ((a ≡ q) × (n ≡ m)) ⊎ ((a ≢ q) × (live a ≡ some m))
  add-cases q n a m e = elim (ℕ_discrete a q) [
    | yes same ↦
        inl
          (same, some_inj n m (sym (ap (λ b. if b then some n else live a) (eq_true a q same)) ∙ e))
    | no other ↦ inr (other, sym (ap (λ b. if b then some n else live a) (==_ne a q other)) ∙ e)
  ]
    where
      eq_true : (x y : ℕ) → x ≡ y → (x == y) ≡ true
      eq_true x y e = ground (arith, e)

      some_inj : (x y : ℕ) → some x ≡ some y → x ≡ y
      some_inj x y e = cc

  pub remove-other : (q a m : ℕ) → remove live q a ≡ some m → (a ≢ q) × (live a ≡ some m)
  remove-other q a m e = elim (Bool-cases (a == q)) [
    | inl same ↦ absurd (none_some m (sym (ap (λ b. if b then none else live a) same) ∙ e))
    | inr other ↦ (different a q other, sym (ap (λ b. if b then none else live a) other) ∙ e)
  ]
    where
      none_some : (x : ℕ) → none ≢ some x
      none_some x e = cc

      different : (x y : ℕ) → (x == y) ≡ false → x ≢ y
      different x y e = ground (arith, e)

  module _ (s : Slab) (mem : Memory) (h : IsHeap s mem live) where
    pub different-AreApart :
        (a n b m : ℕ) → live a ≡ some n → live b ≡ some m → a ≢ b → AreApart a n b m
    different-AreApart a n b m p q other = elim (dec_lt a b) [
      | yes before ↦ inl (h.apart a n b m p q before)
      | no after ↦ inr (h.apart b m a n q p (omega (arith, after, other)))
    ]

    -- A run of clear bits has no piece in common with a block.
    pub clear-AreApart :
        (a m q n : ℕ) → live a ≡ some m → 0 < n → AreClear s.bitmap q n → AreApart a m q n
    clear-AreApart a m q n p some_n clear = elim (dec_lt q (a + m)) [
      | no before ↦ inl (omega (arith, before))
      | yes after ↦ elim (dec_lt a (q + n)) [
        | no behind ↦ inr (omega (arith, behind))
        | yes inside ↦ elim (dec_lt a q) [
          | yes early ↦ absurd (
              false≢true (
                sym (clear q (omega arith) (omega (arith, some_n)))
                ∙ h.marked a m q p (omega (arith, early)) after))
          | no late ↦ absurd (
              false≢true (
                sym (clear a (omega (arith, late)) inside)
                ∙ h.marked a m a p (omega arith) (omega (arith, (h.holds a m p).some_pieces))))
        ]
      ]
    ]

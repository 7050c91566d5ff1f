-- ===== src/Mem/Heap/Payload.antt =====
-- Writes inside of a block: a caller's own, and the copy that `realloc` makes.
use aexkernel.Base.{
  ℕ, ◌+◌, ◌-◌, ◌*◌, ◌⊎◌, ◌≤◌, ◌<◌, ◌≡◌, refl, ap, ◌∙◌, arith, true, false, some, leb, ltb, ◌&&◌,
  lt→ltb, inl, inr, if◌then◌else◌, min,
}
use native.Mathlib.Decide.{ℕ_discrete, dec_lt}
use aexkernel.Mem.Heap.{Memory, Slab, alloc_size, copy}
use aexkernel.Mem.Heap.Bytes.{load-Same}
use aexkernel.Mem.Heap.Blocks.{
  Live, piece_at, Holds, IsHeap, Outside, AreApart, Holds-Outside, different-AreApart,
}

-- The bytes of a block behind its header.
abbrev pub Payload : Slab → ℕ → ℕ → Memory → Memory → Type 0
Payload s p k mem mem' = Outside (piece_at s p + alloc_size) ((k - 1) * alloc_size) mem mem'

-- Whatever is written inside of a block, behind its header, the blocks are as they were.
pub payload-IsHeap :
    (s : Slab) (mem mem' : Memory) (live : Live) (p k : ℕ)
    → IsHeap s mem live
    → live p ≡ some k
    → Payload s p k mem mem'
    → IsHeap s mem' live
payload-IsHeap s mem mem' live p k h e same = record {
  slab = h.slab;
  fits = h.fits;
  holds = λ a n f. elim (ℕ_discrete a p) [
    | yes here ↦ own a n here (h.holds a n f)
    | no other ↦
        Holds-Outside s s mem mem' a n p k refl refl
          (different-AreApart live s mem h a n p k f e other) wider (h.holds a n f)
  ];
  apart = h.apart;
  marked = h.marked;
  covered = h.covered;
}
  where
    some_k : 0 < k
    some_k = (h.holds p k e).some_pieces

    wider : Outside (piece_at s p) (k * alloc_size) mem mem'
    wider b (inl before) = same b (inl (omega (arith, before)))
    wider b (inr after) = same b (inr (omega (arith, after, some_k)))

    own : (a n : ℕ) → a ≡ p → Holds s mem a n → Holds s mem' a n
    own a n here held = record {
      some_pieces = held.some_pieces;
      inside = held.inside;
      len =
          load-Same 4 mem mem' (piece_at s a + 8)
            (λ b low high. same b (inl (omega (arith, high, here))))
          ∙ held.len;
      sane =
          load-Same 8 mem mem' (piece_at s a)
            (λ b low high. same b (inl (omega (arith, high, here))))
          ∙ held.sane;
    }

copy_inside :
    (mem : Memory) (dst src len b : ℕ) → b < len → copy mem dst src len (dst + b) ≡ mem (src + b)
copy_inside mem dst src len b lt =
    ap (λ c. if c then mem (src + (dst + b - dst)) else mem (dst + b)) hit
    ∙ ap (λ x. mem (src + x)) back
  where
    hit : (leb dst (dst + b) && ltb (dst + b) (dst + len)) ≡ true
    hit = ground (arith, lt)

    back : dst + b - dst ≡ b
    back = omega arith

pub copy-Outside : (mem : Memory) (dst src len : ℕ) → Outside dst len mem (copy mem dst src len)
copy-Outside mem dst src len b out = ap (λ c. if c then mem (src + (b - dst)) else mem b) (miss out)
  where
    miss : (b < dst) ⊎ (dst + len ≤ b) → (leb dst b && ltb b (dst + len)) ≡ false
    miss (inl l) = ground (arith, l)
    miss (inr l) = ground (arith, l)

-- Two blocks and a copy from one into the other that is freed next: what a byte is afterwards.
module _ (s : Slab) (mem mem1 mem2 : Memory) (p k q n size : ℕ) where
  pub moved_byte :
      AreApart p k q n
      → size ≤ (k - 1) * alloc_size
      → 0 < n
      → Outside (piece_at s p) (k * alloc_size) mem mem1
      → ((b : ℕ) → piece_at s p + alloc_size ≤ b → b < piece_at s p + k * alloc_size → mem1 b ≡ 0)
      → Outside
          (piece_at s q)
          (n * alloc_size)
          (copy mem1
            (piece_at s p + alloc_size)
            (piece_at s q + alloc_size)
            (min ((n - 1) * alloc_size) size))
          mem2
      → (b : ℕ) → b < size
      → mem2 (piece_at s p + alloc_size + b) ≡ (
          if ltb b (min ((n - 1) * alloc_size) size)
          then mem (piece_at s q + alloc_size + b)
          else 0)
  moved_byte apart fits some_n out zeroed out2 b lt =
      elim (dec_lt b (min ((n - 1) * alloc_size) size)) [
        | yes inside ↦ rw (lt→ltb b (min ((n - 1) * alloc_size) size) inside) (
            out2 (piece_at s p + alloc_size + b) (there apart)
            ∙ copy_inside mem1 (piece_at s p + alloc_size) (piece_at s q + alloc_size)
                (min ((n - 1) * alloc_size) size) b inside
            ∙ out (piece_at s q + alloc_size + b) (source inside apart))
        | no outside ↦ rw (not_less outside) (
            out2 (piece_at s p + alloc_size + b) (there apart)
            ∙ copy-Outside mem1 (piece_at s p + alloc_size) (piece_at s q + alloc_size)
                (min ((n - 1) * alloc_size) size) (piece_at s p + alloc_size + b)
                (inr (omega (arith, outside)))
            ∙ zeroed (piece_at s p + alloc_size + b) (omega arith) (omega (arith, lt, fits)))
      ]
    where
      not_less :
          ¬ (b < min ((n - 1) * alloc_size) size) → ltb b (min ((n - 1) * alloc_size) size) ≡ false
      not_less l = ground (arith, l)

      there :
          AreApart p k q n
          → (piece_at s p + alloc_size + b < piece_at s q)
            ⊎ (piece_at s q + n * alloc_size ≤ piece_at s p + alloc_size + b)
      there (inl l) = inl (omega (arith, l, lt, fits))
      there (inr l) = inr (omega (arith, l))

      source :
          b < min ((n - 1) * alloc_size) size
          → AreApart p k q n
          → (piece_at s q + alloc_size + b < piece_at s p)
            ⊎ (piece_at s p + k * alloc_size ≤ piece_at s q + alloc_size + b)
      source inside (inl l) = inr (omega (arith, l))
      source inside (inr l) = inl (omega (arith, l, inside, some_n))

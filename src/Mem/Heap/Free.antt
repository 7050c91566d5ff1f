-- ===== src/Mem/Heap/Free.antt =====
-- `Slab::free` and `Slab::size`: a block that is freed leaves the others as they are, and cannot be
-- freed again.
use aexkernel.Base.{
  ℕ, ◌+◌, ◌-◌, ◌*◌, ◌/◌, ◌%◌, ◌^◌, ◌⊎◌, ◌≤◌, ◌<◌, ◌≡◌, ◌≢◌, refl, sym, ap, ◌∙◌, arith, true, false,
  none, some, ==_ne, ==_refl, inl, inr, if◌then◌else◌,
}
use Prim.Native.Nat.{bit_xor}
use mathlib.Core.Bool.{false≢true}
use aexkernel.Mem.Bitmap.{taken}
use aexkernel.Mem.FramePiece.Change.{within}
use aexkernel.Mem.Heap.{
  Memory, Slab, alloc_size, sanity_xor, fill, is_sane, mark, slab_free, slab_size,
}
use aexkernel.Mem.Heap.Bytes.{fill_inside, fill_below, fill_above, load-fill}
use aexkernel.Mem.Heap.Marks.{within-cases, Marked, mark_bits-Marked}
use aexkernel.Mem.Heap.Blocks.{
  Live, remove, piece_at, Holds, IsHeap, Outside, AreApart, Holds-Outside, remove-other,
  different-AreApart,
}

some_inj : (x y : ℕ) → some x ≡ some y → x ≡ y
some_inj x y e = cc

-- After the block of `n` pieces from piece `q` on is freed.
pub record Freed (s : Slab) (mem : Memory) (live : Live) (n q : ℕ) (s' : Slab) (mem' : Memory)
    : Type 0 where
  pub heap : IsHeap s' mem' (remove live q)
  pub same_data : s'.data_at ≡ s.data_at
  pub same_pieces : s'.pieces ≡ s.pieces
  pub poisoned : (b : ℕ) → piece_at s q ≤ b → b < piece_at s q + n * alloc_size → mem' b ≡ 0x5A
  pub outside : Outside (piece_at s q) (n * alloc_size) mem mem'
  pub bits : (j : ℕ) → taken s'.bitmap j ≡ (if within q n j then false else taken s.bitmap j)

module _ (s : Slab) (mem : Memory) (live : Live) (h : IsHeap s mem live) (q n : ℕ)
    (e : live q ≡ some n) where
  held : Holds s mem q n
  held = h.holds q n e

  marks : Marked false n s.bitmap q (mark s false q n).bitmap
  marks =
      mark_bits-Marked false n s.bitmap q h.slab.words (omega (arith, held.inside, h.slab.all_bits))

  abbrev poison : Memory
  poison = fill mem (piece_at s q) (n * alloc_size) 0x5A

  poison-Outside : Outside (piece_at s q) (n * alloc_size) mem poison
  poison-Outside b (inl before) = fill_below mem (piece_at s q) (n * alloc_size) 0x5A b before
  poison-Outside b (inr after) = fill_above mem (piece_at s q) (n * alloc_size) 0x5A b after

  left_IsHeap : IsHeap (mark s false q n) poison (remove live q)
  left_IsHeap = record {
    slab = record {
      words = marks.words;
      all_bits = h.slab.all_bits ∙ ap (λ x. 32 * x) (sym marks.as_long);
      all_pieces = h.slab.all_pieces;
      small = h.slab.small;
    };
    fits = h.fits;
    holds = λ a m e'.
        let (other, f) = remove-other live q a m e' in
        Holds-Outside s (mark s false q n) mem poison a m q n refl refl
          (different-AreApart live s mem h a m q n f e other) poison-Outside (h.holds a m f);
    apart = λ a m b k e1 e2 lt.
        h.apart a m b k (remove-other live q a m e1).1 (remove-other live q b k e2).1 lt;
    marked = λ a m k e' low high.
        let (other, f) = remove-other live q a m e' in
        marks.bits k
        ∙ still a m k low high f (different-AreApart live s mem h a m q n f e other)
            (within-cases q n k);
    covered = λ k inside t. cover k inside (within-cases q n k) (sym (marks.bits k) ∙ t);
  }
    where
      still :
          (a m k : ℕ)
          → a ≤ k
          → k < a + m
          → live a ≡ some m
          → AreApart a m q n
          → ((q ≤ k) × (k < q + n) × (within q n k ≡ true))
            ⊎ (((k < q) ⊎ (q + n ≤ k)) × (within q n k ≡ false))
          → (if within q n k then false else taken s.bitmap k) ≡ true
      still a m k low high f (inl before) (inl (x, y, w)) = absurd (omega (arith, before, x, high))
      still a m k low high f (inr after) (inl (x, y, w)) = absurd (omega (arith, after, y, low))
      still a m k low high f apart (inr (_, w)) = rw w (h.marked a m k f low high)

      cover :
          (k : ℕ)
          → k < s.pieces
          → ((q ≤ k) × (k < q + n) × (within q n k ≡ true))
            ⊎ (((k < q) ⊎ (q + n ≤ k)) × (within q n k ≡ false))
          → (if within q n k then false else taken s.bitmap k) ≡ true
          → (a : ℕ) × (m : ℕ) × (remove live q a ≡ some m) × (a ≤ k) × (k < a + m)
      cover k inside (inl (_, _, w)) t =
          absurd (false≢true (sym (ap (λ b. if b then false else taken s.bitmap k) w) ∙ t))
      cover k inside (inr (out, w)) t =
          let (a, m, f, low, high) =
            h.covered k inside (sym (ap (λ b. if b then false else taken s.bitmap k) w) ∙ t) in
          (a, m, rw (==_ne a q (other_start a m k f low high out)) f, low, high)
        where
          same_len : (a m : ℕ) → live a ≡ some m → a ≡ q → n ≡ m
          same_len a m f same = some_inj n m (sym e ∙ sym (ap live same) ∙ f)

          other_start :
              (a m k : ℕ) → live a ≡ some m → a ≤ k → k < a + m → ((k < q) ⊎ (q + n ≤ k)) → a ≢ q
          other_start a m k f low high (inl before) same = omega (arith, before, low, same)
          other_start a m k f low high (inr after) same =
              omega (arith, after, high, same, same_len a m f same)

  back : piece_at s q + alloc_size - alloc_size ≡ piece_at s q
  back = omega arith

  start : (piece_at s q - s.data_at) % 2 ^ 32 / alloc_size ≡ q
  start = omega (arith, held.inside, held.some_pieces, h.slab.small)

  sane : is_sane mem (piece_at s q + alloc_size) ≡ true
  sane = rw (back, held.sane) (==_refl (bit_xor (piece_at s q + alloc_size) sanity_xor))

  frees : slab_free s mem (piece_at s q + alloc_size) ≡ some (mark s false q n, poison)
  unfolding slab_free
  frees = rw (sane, back, held.len, start) refl

  -- A block that is live is freed: its pieces are clear and its bytes are 0x5A, and nothing else has
  -- changed; the other blocks are all there.
  pub slab_free-Freed :
      (s' : Slab) × (mem' : Memory) × (slab_free s mem (piece_at s q + alloc_size)
        ≡ some (s', mem'))
      × Freed s mem live n q s' mem'
  slab_free-Freed = (
    mark s false q n,
    poison,
    frees,
    record {
      heap = left_IsHeap;
      same_data = refl;
      same_pieces = refl;
      poisoned = fill_inside mem (piece_at s q) (n * alloc_size) 0x5A;
      outside = poison-Outside;
      bits = marks.bits;
    },
  )

  -- `size` of a block that is live: the bytes behind its header.
  pub slab_size-live : slab_size mem (piece_at s q + alloc_size) ≡ some ((n - 1) * alloc_size)
  slab_size-live = rw (sane, back, held.len) refl

  -- The second of two calls of `free` on one address is a panic, for every address but the one whose
  -- header would be 0x5A in each byte.
  pub double_free_panics :
      bit_xor (piece_at s q + alloc_size) sanity_xor ≢ 0x5A5A5A5A5A5A5A5A
      → (s' : Slab) × (mem' : Memory) × (slab_free s mem (piece_at s q + alloc_size)
          ≡ some (s', mem'))
        × (slab_free s' mem' (piece_at s q + alloc_size) ≡ none)
  unfolding slab_free
  double_free_panics other = (
    mark s false q n,
    poison,
    frees,
    rw
        (
          back,
          load-fill mem (piece_at s q) (n * alloc_size) (omega (arith, held.some_pieces)),
          ==_ne 0x5A5A5A5A5A5A5A5A (bit_xor (piece_at s q + alloc_size) sanity_xor)
              (λ x. other (sym x)),
        )
        refl,
  )

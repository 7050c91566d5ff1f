-- ===== src/Mem/Heap/Alloc.antt =====
-- `Slab::alloc`: the new block, its bytes, and the blocks that were there before.
use aexkernel.Base.{
  ℕ, ◌+◌, ◌*◌, ◌%◌, ◌^◌, ◌⊎◌, ◌≤◌, ◌<◌, ◌≡◌, ◌≢◌, refl, sym, ap, ◌∙◌, arith, true, false, Option,
  none, some, ==_ne, ==_refl, inl, inr, if◌then◌else◌, length,
}
use mathlib.Core.Path.{subst}
use mathlib.Core.Bool.{false≢true}
use aexkernel.Mem.Bitmap.{Word, taken}
use aexkernel.Mem.FramePiece.Change.{within}
use aexkernel.Mem.FramePiece.Find.{IsRun, Finds}
use aexkernel.Mem.Heap.{
  Memory, Slab, alloc_size, ceil_to_piece, mark, new_block, find_free, slab_alloc, all_ones,
}
use aexkernel.Mem.Heap.Marks.{within-cases, Marked, mark_bits-Marked}
use aexkernel.Mem.Heap.Search.{IsSlab, find_free-Finds, find_free_hangs}
use aexkernel.Mem.Heap.Blocks.{
  Live, add, piece_at, Holds, IsHeap, Outside, AreApart, Holds-Outside, add-cases, clear-AreApart,
}
use aexkernel.Mem.Heap.NewBlock.{new_block-Outside, new_block_zeroed, new_block-len, new_block_sane}

-- After an allocation of `n` pieces from piece `q` on.
pub record Allocated (s : Slab) (mem : Memory) (live : Live) (n q : ℕ) (s' : Slab) (mem' : Memory)
    : Type 0 where
  pub heap : IsHeap s' mem' (add live q n)
  pub same_data : s'.data_at ≡ s.data_at
  pub same_pieces : s'.pieces ≡ s.pieces
  pub first : Finds s.bitmap s.pieces n (some q)
  pub fresh : live q ≡ none
  pub zeroed :
      (b : ℕ) → piece_at s q + alloc_size ≤ b → b < piece_at s q + n * alloc_size → mem' b ≡ 0
  pub outside : Outside (piece_at s q) (n * alloc_size) mem mem'
  pub bits : (j : ℕ) → taken s'.bitmap j ≡ (if within q n j then true else taken s.bitmap j)

module _ (s : Slab) (mem : Memory) (live : Live) (h : IsHeap s mem live) (n q : ℕ)
    (some_n : 0 < n) where
  marks : IsRun s.bitmap s.pieces n q → Marked true n s.bitmap q (mark s true q n).bitmap
  marks run =
      mark_bits-Marked true n s.bitmap q h.slab.words (omega (arith, run.0, h.slab.all_bits))

  not_live : Finds s.bitmap s.pieces n (some q) → live q ≡ none
  not_live f = go (live q) refl
    where
      go : (r : Option ℕ) → live q ≡ r → r ≡ none
      go none e = refl
      go (some m) e = absurd (
          false≢true (
            sym (f.0.1 q (omega arith) (omega (arith, some_n)))
            ∙ h.marked q m q e (omega arith) (omega (arith, (h.holds q m e).some_pieces))))

  module _ (f : Finds s.bitmap s.pieces n (some q)) where
    run : IsRun s.bitmap s.pieces n q
    run = f.0

    new_Holds : Holds (mark s true q n) (new_block mem (piece_at s q) n) q n
    new_Holds = record {
      some_pieces = some_n;
      inside = run.0;
      len = new_block-len mem (piece_at s q) n (omega (arith, run.0, h.slab.small));
      sane = new_block_sane mem (piece_at s q) n (omega (arith, run.0, some_n, h.fits));
    }

    old_AreApart : (a m : ℕ) → live a ≡ some m → AreApart a m q n
    old_AreApart a m e = clear-AreApart live s mem h a m q n e some_n run.1

    new_IsHeap : IsHeap (mark s true q n) (new_block mem (piece_at s q) n) (add live q n)
    new_IsHeap = record {
      slab = record {
        words = (marks run).words;
        all_bits = h.slab.all_bits ∙ ap (λ x. 32 * x) (sym (marks run).as_long);
        all_pieces = h.slab.all_pieces;
        small = h.slab.small;
      };
      fits = h.fits;
      holds = λ a m e. elim (add-cases live q n a m e) [
        | inl (same, len) ↦
            subst (λ x. Holds (mark s true q n) (new_block mem (piece_at s q) n) x m) (sym same)
              (subst (λ x. Holds (mark s true q n) (new_block mem (piece_at s q) n) q x) len
                new_Holds)
        | inr (_, e') ↦
            Holds-Outside s (mark s true q n) mem (new_block mem (piece_at s q) n) a m q n refl refl
              (old_AreApart a m e') (new_block-Outside mem (piece_at s q) n some_n) (h.holds a m e')
      ];
      apart = λ a m b k e e' lt.
          apart_blocks a m b k lt (add-cases live q n a m e) (add-cases live q n b k e');
      marked = λ a m k e low high.
          (marks run).bits k
          ∙ marked_bit a m k low high (within-cases q n k) (add-cases live q n a m e);
      covered = λ k inside t. cover k inside (within-cases q n k) (sym ((marks run).bits k) ∙ t);
    }
      where
        apart_blocks :
            (a m b k : ℕ)
            → a < b
            → ((a ≡ q) × (n ≡ m)) ⊎ ((a ≢ q) × (live a ≡ some m))
            → ((b ≡ q) × (n ≡ k)) ⊎ ((b ≢ q) × (live b ≡ some k))
            → a + m ≤ b
        apart_blocks a m b k lt (inl (x, y)) (inl (x', y')) = absurd (omega (arith, lt, x, x'))
        apart_blocks a m b k lt (inl (x, y)) (inr (x', y')) = elim (old_AreApart b k y') [
          | inl before ↦ absurd (omega (arith, before, lt, x))
          | inr after ↦ omega (arith, after, x, y)
        ]
        apart_blocks a m b k lt (inr (x, y)) (inl (x', y')) = elim (old_AreApart a m y) [
          | inl before ↦ omega (arith, before, x')
          | inr after ↦ absurd (omega (arith, after, lt, x', some_n))
        ]
        apart_blocks a m b k lt (inr (x, y)) (inr (x', y')) = h.apart a m b k y y' lt

        marked_bit :
            (a m k : ℕ)
            → a ≤ k
            → k < a + m
            → ((q ≤ k) × (k < q + n) × (within q n k ≡ true))
              ⊎ (((k < q) ⊎ (q + n ≤ k)) × (within q n k ≡ false))
            → ((a ≡ q) × (n ≡ m)) ⊎ ((a ≢ q) × (live a ≡ some m))
            → (if within q n k then true else taken s.bitmap k) ≡ true
        marked_bit a m k low high (inl (_, _, w)) c = rw w refl
        marked_bit a m k low high (inr (inl before, w)) (inl (x, y)) =
            absurd (omega (arith, before, low, x))
        marked_bit a m k low high (inr (inr after, w)) (inl (x, y)) =
            absurd (omega (arith, after, high, x, y))
        marked_bit a m k low high (inr (_, w)) (inr (_, e)) = rw w (h.marked a m k e low high)

        none_some : (x : ℕ) → none ≢ some x
        none_some x e = cc

        old_start : (a m : ℕ) → live a ≡ some m → a ≢ q
        old_start a m e same = none_some m (sym (not_live f) ∙ ap live (sym same) ∙ e)

        cover :
            (k : ℕ)
            → k < s.pieces
            → ((q ≤ k) × (k < q + n) × (within q n k ≡ true))
              ⊎ (((k < q) ⊎ (q + n ≤ k)) × (within q n k ≡ false))
            → (if within q n k then true else taken s.bitmap k) ≡ true
            → (a : ℕ) × (m : ℕ) × (add live q n a ≡ some m) × (a ≤ k) × (k < a + m)
        cover k inside (inl (low, high, w)) t = (q, n, rw (==_refl q) refl, low, high)
        cover k inside (inr (out, w)) t =
            let (a, m, e, low, high) =
              h.covered k inside (sym (ap (λ b. if b then true else taken s.bitmap k) w) ∙ t) in
            (a, m, rw (==_ne a q (old_start a m e)) e, low, high)

    pub Allocated-new_block :
        Allocated s mem live n q (mark s true q n) (new_block mem (piece_at s q) n)
    Allocated-new_block = record {
      heap = new_IsHeap;
      same_data = refl;
      same_pieces = refl;
      first = f;
      fresh = not_live f;
      zeroed = new_block_zeroed mem (piece_at s q) n;
      outside = new_block-Outside mem (piece_at s q) n some_n;
      bits = (marks run).bits;
    }

-- The pieces that `alloc` takes for a size, a header's included.
abbrev pub pieces_for : ℕ → ℕ
pieces_for size = ceil_to_piece (size + alloc_size)

module _ (s : Slab) (mem : Memory) (live : Live) (past : ℕ → Word) where
  -- Where a run of free pieces is long enough for a size, `alloc` gives the first such run, zeroed and
  -- headed, changes nothing else in memory, and keeps every block that there was.
  pub slab_alloc-Allocated :
      (fuel size r : ℕ)
      → IsHeap s mem live
      → 0 < size
      → length s.bitmap < fuel
      → IsRun s.bitmap s.pieces (pieces_for size) r
      → (q : ℕ) × (s' : Slab) × (mem' : Memory) × (slab_alloc fuel s past mem size
          ≡ some (piece_at s q + alloc_size, s', mem'))
        × Allocated s mem live (pieces_for size) q s' mem'
  unfolding slab_alloc
  slab_alloc-Allocated fuel size r h some_size f run =
      let (q, e, finds) =
        find_free-Finds s past (pieces_for size) h.slab fuel r some_pieces f run in
      (
        q,
        mark s true q (pieces_for size),
        new_block mem (piece_at s q) (pieces_for size),
        rw
            (
              ==_ne size 0 (λ z. omega (arith, z, some_size)),
              ap (λ x. find_free fuel s past x) fits ∙ e,
              fits,
            )
            refl,
        Allocated-new_block s mem live h (pieces_for size) q some_pieces finds,
      )
    where
      some_pieces : 0 < pieces_for size
      some_pieces = omega arith

      fits : pieces_for size % 2 ^ 32 ≡ pieces_for size
      fits = omega (arith, run.0, h.slab.small)

  -- Where no run is long enough in a slab with as many pieces, `alloc` never returns: `malloc` does not
  -- come to the next slab. No word behind the bitmap is all ones, and `ii` is in its range.
  pub slab_alloc_hangs :
      (fuel size : ℕ)
      → IsSlab s
      → fuel < 2 ^ 32
      → 0 < size
      → pieces_for size ≤ s.pieces
      → ((t : ℕ) → ¬ IsRun s.bitmap s.pieces (pieces_for size) t)
      → ((k : ℕ) → all_ones (past k) ≡ false)
      → slab_alloc fuel s past mem size ≡ none
  unfolding slab_alloc
  slab_alloc_hangs fuel size v l some_size enough runs ones =
      rw
        (
          ==_ne size 0 (λ z. omega (arith, z, some_size)),
          fits,
          find_free_hangs s past (pieces_for size) v fuel l (omega arith) enough runs ones,
        )
        refl
    where
      fits : pieces_for size % 2 ^ 32 ≡ pieces_for size
      fits = omega (arith, enough, v.small)

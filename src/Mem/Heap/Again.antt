-- ===== src/Mem/Heap/Again.antt =====
-- `alloc` and `free` one after the other: a block that is freed leaves the slab as it was, and its place
-- is given again, which `init` of mem/heap.cpp tests.
use aexkernel.Base.{
  ℕ, ◌+◌, ◌-◌, ◌*◌, ◌⊎◌, ◌≤◌, ◌<◌, ◌≡◌, ◌≢◌, refl, sym, ap, ◌∙◌, arith, true, false, none, some,
  ==_refl, ==_ne, inl, inr, if◌then◌else◌, length,
}
use mathlib.Core.Path.{subst}
use aexkernel.Mem.Bitmap.{Word, taken}
use aexkernel.Mem.FramePiece.Change.{within}
use aexkernel.Mem.FramePiece.Find.{IsRun, Finds}
use aexkernel.Mem.Heap.{Memory, Slab, alloc_size, slab_alloc, slab_free}
use aexkernel.Mem.Heap.Marks.{within-cases}
use aexkernel.Mem.Heap.Blocks.{Live, add, remove, piece_at, IsHeap, Outside}
use aexkernel.Mem.Heap.Alloc.{Allocated, slab_alloc-Allocated, pieces_for}
use aexkernel.Mem.Heap.Free.{Freed, slab_free-Freed}
use aexkernel.Mem.Heap.Runs.{restored_bits, Finds-less, Finds-unique, second_run, freed_first}

-- `free` of what `alloc` has just given.
free_fresh :
    (s : Slab) (mem : Memory) (live : Live) (n q : ℕ) (s1 : Slab) (mem1 : Memory)
    → Allocated s mem live n q s1 mem1
    → (s2 : Slab) × (mem2 : Memory) × (slab_free s1 mem1 (piece_at s q + alloc_size)
        ≡ some (s2, mem2))
      × Freed s1 mem1 (add live q n) n q s2 mem2
free_fresh s mem live n q s1 mem1 a =
    let (s2, mem2, e, f) =
      slab_free-Freed s1 mem1 (add live q n) a.heap q n (rw (==_refl q) refl) in
    (
      s2,
      mem2,
      ap (λ d. slab_free s1 mem1 (d + q * alloc_size + alloc_size)) (sym a.same_data) ∙ e,
      f,
    )

-- What `alloc` gave can be freed, and then the bits, the blocks and memory outside of the block are as
-- they were.
pub slab_free-slab_alloc :
    (s : Slab) (mem : Memory) (live : Live) (past : ℕ → Word) (fuel size r : ℕ)
    → IsHeap s mem live
    → 0 < size
    → length s.bitmap < fuel
    → IsRun s.bitmap s.pieces (pieces_for size) r
    → (ptr : ℕ) × (s1 : Slab) × (mem1 : Memory) × (s2 : Slab) × (mem2 : Memory) × (slab_alloc fuel s
          past mem size
        ≡ some (ptr, s1, mem1))
      × (slab_free s1 mem1 ptr ≡ some (s2, mem2))
      × ((j : ℕ) → taken s2.bitmap j ≡ taken s.bitmap j)
      × Outside (ptr - alloc_size) (pieces_for size * alloc_size) mem mem2
slab_free-slab_alloc s mem live past fuel size r h some_size f run =
    let (q, s1, mem1, e, a) = slab_alloc-Allocated s mem live past fuel size r h some_size f run in
    let (s2, mem2, e', b) = free_fresh s mem live (pieces_for size) q s1 mem1 a in
    (
      piece_at s q + alloc_size,
      s1,
      mem1,
      s2,
      mem2,
      e,
      e',
      restored_bits (taken s.bitmap) (taken s1.bitmap) (taken s2.bitmap) q (pieces_for size)
          a.first.0.1 a.bits b.bits,
      λ j out.
          let same_at : piece_at s1 q ≡ piece_at s q = ap (λ d. d + q * alloc_size) a.same_data in
          b.outside j (
            subst (λ x. (j < x) ⊎ (x + pieces_for size * alloc_size ≤ j))
              (at_ptr (piece_at s q) ∙ sym same_at) out)
          ∙ a.outside j (
              subst (λ x. (j < x) ⊎ (x + pieces_for size * alloc_size ≤ j)) (at_ptr (piece_at s q))
                out),
    )
  where
    at_ptr : (x : ℕ) → x + alloc_size - alloc_size ≡ x
    at_ptr x = omega arith

module _ (s : Slab) (mem : Memory) (live : Live) (past : ℕ → Word) (h : IsHeap s mem live) where
  freed_again :
      (fuel size m q p : ℕ) (s1 s2 : Slab) (mem1 mem2 : Memory)
      → 0 < size
      → length s.bitmap < fuel
      → Allocated s mem live (pieces_for size) q s1 mem1
      → Allocated s1 mem1 (add live q (pieces_for size)) m p s2 mem2
      → (s3 : Slab) × (mem3 : Memory) × (s4 : Slab) × (mem4 : Memory) × (slab_free s2 mem2
            (piece_at s q + alloc_size)
          ≡ some (s3, mem3))
        × (slab_alloc fuel s3 past mem3 size ≡ some (piece_at s q + alloc_size, s4, mem4))
  freed_again fuel size m q p s1 s2 mem1 mem2 some_size f a b =
      let (s3, mem3, e3, c) =
        slab_free-Freed s2 mem2 (add (add live q (pieces_for size)) p m) b.heap q (pieces_for size)
          still_live in
      let found = finds s3 mem3 c in
      let (q', s4, mem4, e4, d) =
        slab_alloc-Allocated s3 mem3 (remove (add (add live q (pieces_for size)) p m) q) past fuel
          size q c.heap some_size (fuel_left s3 mem3 c) found.0 in
      (
        s3,
        mem3,
        s4,
        mem4,
        ap (λ x. slab_free s2 mem2 (x + q * alloc_size + alloc_size))
              (sym (b.same_data ∙ a.same_data))
            ∙ e3,
        subst
              (λ x.
                slab_alloc fuel s3 past mem3 size
                ≡ some (s3.data_at + x * alloc_size + alloc_size, s4, mem4))
              (Finds-unique s3.bitmap s3.pieces (pieces_for size) q' q d.first found) e4
            ∙ ap (λ x. some (x + q * alloc_size + alloc_size, s4, mem4))
                (c.same_data ∙ b.same_data ∙ a.same_data),
      )
    where
      still_live : add (add live q (pieces_for size)) p m q ≡ some (pieces_for size)
      still_live = rw (==_ne q p (λ x. taken_twice (sym x)), ==_refl q) refl
        where
          none_some : (x : ℕ) → none ≢ some x
          none_some x e = cc

          taken_twice : p ≢ q
          taken_twice x = none_some (pieces_for size) (
              sym (subst (λ y. add live q (pieces_for size) y ≡ none) x b.fresh)
              ∙ ap (λ t. if t then some (pieces_for size) else live q) (==_refl q))

      fuel_left :
          (s3 : Slab) (mem3 : Memory)
          → Freed s2 mem2 (add (add live q (pieces_for size)) p m) (pieces_for size) q s3 mem3
          → length s3.bitmap < fuel
      fuel_left s3 mem3 c = omega (
        arith, f, h.slab.all_bits, c.heap.slab.all_bits, c.same_pieces, b.same_pieces,
        a.same_pieces,
      )

      finds :
          (s3 : Slab) (mem3 : Memory)
          → Freed s2 mem2 (add (add live q (pieces_for size)) p m) (pieces_for size) q s3 mem3
          → Finds s3.bitmap s3.pieces (pieces_for size) (some q)
      finds s3 mem3 c =
          subst (λ x. Finds s3.bitmap x (pieces_for size) (some q))
            (sym (c.same_pieces ∙ b.same_pieces ∙ a.same_pieces))
            (Finds-less s.bitmap s3.bitmap s.pieces (pieces_for size) q a.first
              (λ j low high.
                c.bits j ∙ ap (λ t. if t then false else taken s2.bitmap j) (inside j low high))
              (λ j t. elim (after j) [
                | inl (low, high, _) ↦ a.first.0.1 j low high
                | inr less ↦ less t
              ]))
        where
          after :
              (j : ℕ)
              → ((q ≤ j) × (j < q + pieces_for size) × (taken s3.bitmap j ≡ false))
                ⊎ (taken s3.bitmap j ≡ false → taken s.bitmap j ≡ false)
          after j =
              freed_first (taken s.bitmap) (taken s1.bitmap) (taken s2.bitmap) (taken s3.bitmap) q
                (pieces_for size) p m a.bits b.bits c.bits j

          inside : (j : ℕ) → q ≤ j → j < q + pieces_for size → within q (pieces_for size) j ≡ true
          inside j low high = elim (within-cases q (pieces_for size) j) [
            | inl (_, _, w) ↦ w
            | inr (inl l, _) ↦ absurd (omega (arith, l, low))
            | inr (inr l, _) ↦ absurd (omega (arith, l, high))
          ]

  -- What `init` tests: two blocks are allocated, the first is freed, and a block of its size is
  -- allocated again; this is the block that was freed. The slab has a run of free pieces for both.
  pub slab_alloc_again :
      (fuel size other r : ℕ)
      → 0 < size
      → 0 < other
      → length s.bitmap < fuel
      → IsRun s.bitmap s.pieces (pieces_for size + pieces_for other) r
      → (a : ℕ) × (b : ℕ) × (s1 : Slab) × (mem1 : Memory) × (s2 : Slab) × (mem2 : Memory)
        × (s3 : Slab) × (mem3 : Memory) × (s4 : Slab) × (mem4 : Memory) × (slab_alloc fuel s past
              mem size
            ≡ some (a, s1, mem1))
        × (slab_alloc fuel s1 past mem1 other ≡ some (b, s2, mem2))
        × (slab_free s2 mem2 a ≡ some (s3, mem3))
        × (slab_alloc fuel s3 past mem3 size ≡ some (a, s4, mem4))
  slab_alloc_again fuel size other r some_size some_other f run =
      let (q, s1, mem1, e1, a) =
        slab_alloc-Allocated s mem live past fuel size r h some_size f
          (omega (arith, run.0), λ j low high. run.1 j low (omega (arith, high))) in
      let (p, s2, mem2, e2, b) =
        slab_alloc-Allocated s1 mem1 (add live q (pieces_for size)) past fuel other
          (r + pieces_for size) a.heap some_other
          (omega (arith, f, h.slab.all_bits, a.heap.slab.all_bits, a.same_pieces))
          (subst (λ x. IsRun s1.bitmap x (pieces_for other) (r + pieces_for size))
            (sym a.same_pieces)
            (second_run s.bitmap s1.bitmap s.pieces (pieces_for size) (pieces_for other) q r
              some_pieces run a.first a.bits)) in
      let (s3, mem3, s4, mem4, e3, e4) =
        freed_again fuel size (pieces_for other) q p s1 s2 mem1 mem2 some_size f a b in
      (
        piece_at s q + alloc_size,
        piece_at s1 p + alloc_size,
        s1,
        mem1,
        s2,
        mem2,
        s3,
        mem3,
        s4,
        mem4,
        e1,
        e2,
        e3,
        e4,
      )
    where
      some_pieces : 0 < pieces_for size
      some_pieces = omega arith

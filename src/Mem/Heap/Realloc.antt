-- ===== src/Mem/Heap/Realloc.antt =====
-- `malloc` and `realloc` of mem/heap.cpp, where the root slab has a run that is long enough: the bytes
-- of the block come along. A caller that writes inside of its block keeps the heap.
use aexkernel.Base.{
  ℕ, suc, ◌+◌, ◌-◌, ◌*◌, ◌⊎◌, ◌≤◌, ◌<◌, ◌≡◌, ◌≢◌, refl, sym, ap, ◌∙◌, arith, none, some, List, ltb,
  ==_ne, ==_refl, inl, inr, if◌then◌else◌, length, min,
}
use mathlib.Core.Path.{subst}
use aexkernel.Mem.FramePiece.Find.{IsRun}
use aexkernel.Mem.Heap.{Memory, Slab, alloc_size, copy}
use aexkernel.Mem.Heap.Blocks.{
  Live, add, remove, piece_at, IsHeap, Outside, AreApart, different-AreApart,
}
use aexkernel.Mem.Heap.Alloc.{Allocated, pieces_for}
use aexkernel.Mem.Heap.Calls.{Setting, malloc, free, realloc}
use aexkernel.Mem.Heap.Payload.{payload-IsHeap, copy-Outside, moved_byte}
use aexkernel.Mem.Heap.Root.{rooted, malloc-Allocated, msize_in-live, free-Freed}

module _ (set : Setting) (s : Slab) (rest : List Slab) (mem : Memory) (fresh : List ℕ) (live : Live)
    (h : IsHeap s mem live) (q n : ℕ) (e : live q ≡ some n) where
  -- Memory after the `memcpy`.
  abbrev copied : ℕ → ℕ → Memory → Memory
  copied size p mem' =
      copy mem' (piece_at s p + alloc_size) (piece_at s q + alloc_size)
        (min ((n - 1) * alloc_size) size)

  -- The calls of `realloc` one by one.
  realloc_calls :
      (rounds size p : ℕ) (s1 s2 : Slab) (mem1 mem2 : Memory)
      → 0 < size
      → malloc (suc rounds) set (rooted rest fresh s mem) size
        ≡ some (piece_at s p + alloc_size, rooted rest fresh s1 mem1)
      → free
          (rooted rest fresh s1 (
            copy mem1
              (piece_at s p + alloc_size)
              (piece_at s q + alloc_size)
              (min ((n - 1) * alloc_size) size)))
          (piece_at s q + alloc_size)
        ≡ some (rooted rest fresh s2 mem2)
      → realloc (suc rounds) set (rooted rest fresh s mem) (piece_at s q + alloc_size) size
        ≡ some (piece_at s p + alloc_size, rooted rest fresh s2 mem2)
  unfolding realloc
  realloc_calls rounds size p s1 s2 mem1 mem2 some_size em ef =
      rw
        (
          ==_ne (piece_at s q + alloc_size) 0 (λ z. omega (arith, z)),
          ==_ne size 0 (λ z. omega (arith, z, some_size)),
          msize_in-live set s rest mem fresh live h q n e,
          em,
          ==_ne (piece_at s p + alloc_size) 0 (λ z. omega (arith, z)),
          ef,
        )
        refl

  -- What `realloc` does once `malloc` has given a block.
  kept :
      (size p : ℕ) (s1 : Slab) (mem1 : Memory)
      → 0 < size
      → Allocated s mem live (pieces_for size) p s1 mem1
      → (s2 : Slab) × (mem2 : Memory) × (free
            (rooted rest fresh s1 (copied size p mem1))
            (piece_at s q + alloc_size)
          ≡ some (rooted rest fresh s2 mem2))
        × IsHeap s2 mem2 (remove (add live p (pieces_for size)) q)
        × ((b : ℕ)
            → b < size
            → mem2 (piece_at s p + alloc_size + b) ≡ (
                if ltb b (min ((n - 1) * alloc_size) size)
                then mem (piece_at s q + alloc_size + b)
                else 0))
        × ((b : ℕ)
            → (b < piece_at s q) ⊎ (piece_at s q + n * alloc_size ≤ b)
            → (b < piece_at s p) ⊎ (piece_at s p + pieces_for size * alloc_size ≤ b)
            → mem2 b ≡ mem b)
  kept size p s1 mem1 some_size a =
      let (s2, mem2, ef, f) =
        free-Freed set s1 rest (copied size p mem1) fresh (add live p (pieces_for size)) heap q n
          still_live in
      (
        s2,
        mem2,
        ap (λ x. free (rooted rest fresh s1 (copied size p mem1)) (x + q * alloc_size + alloc_size))
              (sym a.same_data)
            ∙ ef,
        f.heap,
        moved_byte s mem mem1 mem2 p (pieces_for size) q n size apart fits
            (h.holds q n e).some_pieces a.outside a.zeroed
            (subst (λ x. Outside x (n * alloc_size) (copied size p mem1) mem2) same_at f.outside),
        λ b out_q out_p.
            f.outside b (subst (λ x. (b < x) ⊎ (x + n * alloc_size ≤ b)) (sym same_at) out_q)
            ∙ copy-Outside mem1 (piece_at s p + alloc_size) (piece_at s q + alloc_size)
                (min ((n - 1) * alloc_size) size) b (clear_of b out_p)
            ∙ a.outside b out_p,
      )
    where
      same_at : piece_at s1 q ≡ piece_at s q
      same_at = ap (λ d. d + q * alloc_size) a.same_data

      fits : size ≤ (pieces_for size - 1) * alloc_size
      fits = omega arith

      other : p ≢ q
      other x = none_some n (sym a.fresh ∙ ap live x ∙ e)
        where
          none_some : (x : ℕ) → none ≢ some x
          none_some x e = cc

      still_live : (add live p (pieces_for size)) q ≡ some n
      still_live = rw (==_ne q p (λ x. other (sym x))) e

      new_live : (add live p (pieces_for size)) p ≡ some (pieces_for size)
      new_live = rw (==_refl p) refl

      clear_of :
          (b : ℕ)
          → (b < piece_at s p) ⊎ (piece_at s p + pieces_for size * alloc_size ≤ b)
          → (b < piece_at s p + alloc_size)
            ⊎ (piece_at s p + alloc_size + min ((n - 1) * alloc_size) size ≤ b)
      clear_of b (inl l) = inl (omega (arith, l))
      clear_of b (inr l) = inr (omega (arith, l, fits))

      heap : IsHeap s1 (copied size p mem1) (add live p (pieces_for size))
      heap =
          payload-IsHeap s1 mem1 (copied size p mem1) (add live p (pieces_for size)) p
            (pieces_for size) a.heap new_live
            (λ b out.
              copy-Outside mem1 (piece_at s p + alloc_size) (piece_at s q + alloc_size)
                (min ((n - 1) * alloc_size) size) b (narrow b out))
        where
          narrow :
              (b : ℕ)
              → (b < piece_at s1 p + alloc_size)
                ⊎ (piece_at s1 p + alloc_size + (pieces_for size - 1) * alloc_size ≤ b)
              → (b < piece_at s p + alloc_size)
                ⊎ (piece_at s p + alloc_size + min ((n - 1) * alloc_size) size ≤ b)
          narrow b (inl l) = inl (omega (arith, l, a.same_data))
          narrow b (inr l) = inr (omega (arith, l, a.same_data, fits))

      apart : AreApart p (pieces_for size) q n
      apart =
          different-AreApart (add live p (pieces_for size)) s1 (copied size p mem1) heap p
            (pieces_for size) q n new_live still_live other

  -- The bytes of the old block are those of the new one, as far as both reach; what the new one has
  -- more is 0. The old block is free, and every other block is as it was.
  pub realloc_keeps :
      (rounds size r : ℕ)
      → 0 < size
      → size ≤ 67108864
      → length s.bitmap < set.fuel
      → IsRun s.bitmap s.pieces (pieces_for size) r
      → (p : ℕ) × (s' : Slab) × (mem' : Memory) × (realloc
            (suc rounds)
            set
            (rooted rest fresh s mem)
            (piece_at s q + alloc_size)
            size
          ≡ some (piece_at s p + alloc_size, rooted rest fresh s' mem'))
        × IsHeap s' mem' (remove (add live p (pieces_for size)) q)
        × ((b : ℕ)
            → b < size
            → mem' (piece_at s p + alloc_size + b) ≡ (
                if ltb b (min ((n - 1) * alloc_size) size)
                then mem (piece_at s q + alloc_size + b)
                else 0))
        × ((b : ℕ)
            → (b < piece_at s q) ⊎ (piece_at s q + n * alloc_size ≤ b)
            → (b < piece_at s p) ⊎ (piece_at s p + pieces_for size * alloc_size ≤ b)
            → mem' b ≡ mem b)
  realloc_keeps rounds size r some_size small f run =
      let (p, s1, mem1, em, a) =
        malloc-Allocated set s rest mem fresh live h rounds size r some_size small f run in
      let (s2, mem2, ef, heap, bytes, rest_of) = kept size p s1 mem1 some_size a in
      (
        p,
        s2,
        mem2,
        realloc_calls rounds size p s1 s2 mem1 mem2 some_size em ef,
        heap,
        bytes,
        rest_of,
      )

-- ===== src/Mem/Heap/Search.antt =====
-- `findFree`: it finds the first run that is long enough, and goes on for ever where there is none.
use aexkernel.Base.{
  ℕ, zero, suc, ◌+◌, ◌-◌, ◌*◌, ◌^◌, ◌⊎◌, ◌≤◌, ◌<◌, ◌≡◌, refl, ap, ◌∙◌, arith, false, ◌||◌, Option,
  none, some, [], ltb, ◌==◌, inl, inr, Bool-cases, length, min, get_or,
}
use native.Mathlib.Decide.{dec_lt}
use aexkernel.Mem.Bitmap.{Word, AreWords}
use aexkernel.Mem.FramePiece.Find.{IsRun, Finds, Progress}
use aexkernel.Mem.Heap.{
  Slab, all_ones, Scan, found, scanned, scan, after_scan, find_free_loop, find_free,
}
use aexkernel.Mem.Heap.Scans.{
  Scans, scan-Scans, word_at-inside, word_at-behind, taken-word, get_or-IsWord, all_ones-bit,
  Progress-skip,
}

-- A slab whose bitmap has a bit for each piece.
pub record IsSlab (s : Slab) : Type 0 where
  pub words : AreWords s.bitmap
  pub all_bits : s.pieces ≡ 32 * length s.bitmap
  pub all_pieces : s.free_pieces ≡ s.pieces
  pub small : s.pieces < 2 ^ 28

module _ (s : Slab) (past : ℕ → Word) (n : ℕ) (v : IsSlab s) where
  -- A round at a word of the bitmap.
  round_at :
      (fuel ii index combo : ℕ) (start : Option ℕ)
      → index ≡ 32 * ii
      → ii < length s.bitmap
      → Progress s.bitmap s.pieces n index combo start
      → ((q : ℕ) × (find_free_loop (suc fuel) s past n index ii combo start ≡ some (some q))
          × Finds s.bitmap s.pieces n (some q))
        ⊎ ((combo' : ℕ) × (start' : Option ℕ) × (find_free_loop
                (suc fuel)
                s
                past
                n
                index
                ii
                combo
                start
              ≡ find_free_loop fuel s past n (index + 32) (ii + 1) combo' start')
            × Progress s.bitmap s.pieces n (index + 32) combo' start')
  unfolding find_free_loop
  round_at fuel ii index combo start e h p =
      rw (within_pieces, word_at-inside s.bitmap past ii h, whole_word)
        (elim (Bool-cases (all_ones word)) [
          | inl a ↦ rw a (
              inr (
                0,
                none,
                refl,
                Progress-skip s.bitmap s.pieces n 31 index combo start
                    (λ j lt.
                      taken-word s.bitmap index ii j e lt ∙ all_ones-bit word j a (of_word j lt))
                    p,
              ))
          | inr a ↦ rw a (
              after (scan 32 word 0 n index combo start) (
                scan-Scans s.bitmap s.pieces n 32 word 0 index combo start
                  (λ j lt.
                    taken-word s.bitmap index ii j e lt
                    ∙ ap (λ x. get_or word x false) (zero_more j))
                  (omega (arith, e, h, v.all_bits)) p))
        ])
    where
      word : Word
      word = get_or s.bitmap ii []

      within_pieces : ltb s.pieces index ≡ false
      within_pieces = ground (arith, e, h, v.all_bits)

      whole_word : min (s.pieces - index) 32 ≡ 32
      whole_word = omega (arith, e, h, v.all_bits)

      of_word : (j : ℕ) → j < 32 → j < length word
      of_word j lt = omega (arith, lt, get_or-IsWord s.bitmap ii v.words h)

      zero_more : (x : ℕ) → x ≡ 0 + x
      zero_more x = omega arith

      after :
          (r : Scan)
          → Scans s.bitmap s.pieces n (index + 32) r
          → ((q : ℕ) × (after_scan
                  (λ c st. find_free_loop fuel s past n (index + 32) (ii + 1) c st)
                  r
                ≡ (some (some q)))
              × Finds s.bitmap s.pieces n (some q))
            ⊎ ((combo' : ℕ) × (start' : Option ℕ) × (after_scan
                    (λ c st. find_free_loop fuel s past n (index + 32) (ii + 1) c st)
                    r
                  ≡ (find_free_loop fuel s past n (index + 32) (ii + 1) combo' start'))
                × Progress s.bitmap s.pieces n (index + 32) combo' start')
      after (found q) f = inl (q, refl, f)
      after (scanned c st) p' = inr (c, st, refl, p')

  find_free_loop-Finds :
      (fuel ii index combo : ℕ) (start : Option ℕ) (r : ℕ)
      → index ≡ 32 * ii
      → ii ≤ length s.bitmap
      → length s.bitmap < fuel + ii
      → IsRun s.bitmap s.pieces n r
      → Progress s.bitmap s.pieces n index combo start
      → (q : ℕ) × (find_free_loop fuel s past n index ii combo start ≡ some (some q))
        × Finds s.bitmap s.pieces n (some q)
  find_free_loop-Finds zero ii index combo start r e l f run p = absurd (omega (arith, l, f))
  find_free_loop-Finds (suc fuel) ii index combo start r e l f run p =
      elim (dec_lt ii (length s.bitmap)) [
        | no over ↦
            absurd (p.earlier r (omega (arith, over, l, e, v.all_bits, p.short, p.from, run.0)) run)
        | yes h ↦ elim (round_at fuel ii index combo start e h p) [
          | inl done ↦ done
          | inr (combo', start', q, p') ↦
              let (x, y, z) =
                find_free_loop-Finds fuel (ii + 1) (index + 32) combo' start' r (omega (arith, e))
                  (omega (arith, h)) (omega (arith, f)) run p' in
              (x, q ∙ y, z)
        ]
      ]

  -- Behind the bitmap the index stays, and only a word of ones would end the loop.
  behind_bitmap :
      (fuel ii combo : ℕ) (start : Option ℕ)
      → length s.bitmap ≤ ii
      → ((k : ℕ) → all_ones (past k) ≡ false)
      → find_free_loop fuel s past n s.pieces ii combo start ≡ none
  unfolding find_free_loop scan
  behind_bitmap zero ii combo start l ones = refl
  behind_bitmap (suc fuel) ii combo start l ones =
      rw (not_over, word_at-behind s.bitmap past ii l, ones ii, none_left, add_zero s.pieces)
        (behind_bitmap fuel (ii + 1) combo start (omega (arith, l)) ones)
    where
      not_over : ltb s.pieces s.pieces ≡ false
      not_over = ground arith

      none_left : min (s.pieces - s.pieces) 32 ≡ 0
      none_left = omega arith

      add_zero : (x : ℕ) → x + 0 ≡ x
      add_zero x = omega arith

  find_free_loop_hangs :
      (fuel ii index combo : ℕ) (start : Option ℕ)
      → index ≡ 32 * ii
      → ii ≤ length s.bitmap
      → ((t : ℕ) → ¬ IsRun s.bitmap s.pieces n t)
      → ((k : ℕ) → all_ones (past k) ≡ false)
      → Progress s.bitmap s.pieces n index combo start
      → find_free_loop fuel s past n index ii combo start ≡ none
  unfolding find_free_loop
  find_free_loop_hangs zero ii index combo start e l runs ones p = refl
  find_free_loop_hangs (suc fuel) ii index combo start e l runs ones p =
      elim (dec_lt ii (length s.bitmap)) [
        | no over ↦
            ap (λ x. find_free_loop (suc fuel) s past n x ii combo start) (at_end over)
            ∙ behind_bitmap (suc fuel) ii combo start (omega (arith, over)) ones
        | yes h ↦ elim (round_at fuel ii index combo start e h p) [
          | inl (q, _, (run, _)) ↦ absurd (runs q run)
          | inr (combo', start', q, p') ↦
              q
              ∙ find_free_loop_hangs fuel (ii + 1) (index + 32) combo' start' (omega (arith, e))
                  (omega (arith, h)) runs ones p'
        ]
      ]
    where
      at_end : ¬ (ii < length s.bitmap) → index ≡ s.pieces
      at_end over = omega (arith, over, l, e, v.all_bits)

  at_start : 0 < n → Progress s.bitmap s.pieces n 0 0 none
  at_start h = record {
    short = h;
    from = refl;
    clear = λ j a b. absurd (omega (arith, a, b));
    earlier = λ t a. absurd (omega (arith, a));
  }

  -- Of a slab that has a run of `n` free pieces, `findFree` gives the first, with fuel for each word of
  -- the bitmap and one more.
  pub find_free-Finds :
      (fuel r : ℕ)
      → 0 < n
      → length s.bitmap < fuel
      → IsRun s.bitmap s.pieces n r
      → (q : ℕ) × (find_free fuel s past n ≡ some (some q)) × Finds s.bitmap s.pieces n (some q)
  unfolding find_free
  find_free-Finds fuel r h f run = rw (goes_on) (
      find_free_loop-Finds fuel 0 0 0 none r refl (omega arith) (omega (arith, f)) run (at_start h))
    where
      goes_on : (ltb s.free_pieces n || n == 0) ≡ false
      goes_on = ground (arith, h, v.all_pieces, run.0)

  -- Of a slab that has as many pieces, but no such run, `findFree` never returns, as long as it finds no
  -- word of ones in memory behind the bitmap: not within any number of rounds in which `ii` fits.
  pub find_free_hangs :
      (fuel : ℕ)
      → fuel < 2 ^ 32
      → 0 < n
      → n ≤ s.pieces
      → ((t : ℕ) → ¬ IsRun s.bitmap s.pieces n t)
      → ((k : ℕ) → all_ones (past k) ≡ false)
      → find_free fuel s past n ≡ none
  unfolding find_free
  find_free_hangs fuel fits h l runs ones =
      rw (goes_on) (find_free_loop_hangs fuel 0 0 0 none refl (omega arith) runs ones (at_start h))
    where
      goes_on : (ltb s.free_pieces n || n == 0) ≡ false
      goes_on = ground (arith, h, v.all_pieces, l)

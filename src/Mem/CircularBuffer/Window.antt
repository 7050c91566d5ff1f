-- ===== src/Mem/CircularBuffer/Window.antt =====
-- The bytes that a buffer holds, oldest first, and what the two copies do to them.
use aexkernel.Base.{
  ℕ, zero, suc, ◌+◌, ◌-◌, ◌≤◌, ◌<◌, ◌≡◌, refl, ◌⊎◌, ap, ◌∙◌, arith, List, [], ◌∷◌, ◌++◌, ltb, ◌==◌,
  if◌then◌else◌, length, get_or, set, length-set, get_or-set_self, get_or-set_ne,
}
use mathlib.Core.Path.{ap₂}
use native.Mathlib.Nat.{suc-add, zero-add}
use aexkernel.Mem.CircularBuffer.{CircularBuffer, slice, blit, advance, take_out, put_in}
use aexkernel.Mem.CircularBuffer.Distance.{IsValid, used, room}

-- The `n` bytes from index `h` on, going round at `size`.
abbrev pub window : List ℕ → ℕ → ℕ → ℕ → List ℕ
window buf size h zero = []
window buf size h (suc n) = get_or buf h 0 ∷ window buf size (advance size h 1) n

abbrev pub contents : CircularBuffer → List ℕ
contents cb = window cb.buffer cb.size cb.read_pos (used cb)

pub length-window : (buf : List ℕ) (size h n : ℕ) → length (window buf size h n) ≡ n
length-window buf size h zero = refl
length-window buf size h (suc n) = ap suc (length-window buf size (advance size h 1) n)

-- A window that does not pass the end is a slice.
window-eq-slice : (buf : List ℕ) (size h n : ℕ) → h + n ≤ size → window buf size h n ≡ slice buf h n
unfolding slice
window-eq-slice buf size h zero p = refl
window-eq-slice buf size h (suc zero) p = refl
window-eq-slice buf size h (suc (suc n)) p =
    ground (arith, window-eq-slice buf size (h + 1) (suc n))

advance_lt : (size i n : ℕ) → i + n < size → advance size i n ≡ i + n
advance_lt size i n h = ground arith

advance-suc : (size i n : ℕ) → advance size (i + 1) n ≡ advance size i (suc n)
advance-suc size i n = ap (λ k. if k == size then 0 else k) (omega arith)

-- The position `n` bytes on.
abbrev after : ℕ → ℕ → ℕ → ℕ
after size h zero = h
after size h (suc n) = after size (advance size h 1) n

after_lem :
    (size h n : ℕ)
    → h < size
    → n ≤ size
    → after size h n ≡ (if ltb (h + n) size then h + n else h + n - size)
after_lem size h zero p q = ground arith
after_lem size h (suc n) p q = ground (arith, after_lem size (advance size h 1) n)

window-split :
    (buf : List ℕ) (size h m n : ℕ)
    → window buf size h (m + n) ≡ window buf size h m ++ window buf size (after size h m) n
window-split buf size h zero n = rw zero-add refl
window-split buf size h (suc m) n =
    rw suc-add (ap (λ l. get_or buf h 0 ∷ l) (window-split buf size (advance size h 1) m n))

-- A window is a slice up to the end at most, and the window that follows it.
window-append :
    (buf : List ℕ) (size h m n : ℕ)
    → h < size
    → h + m ≤ size
    → window buf size h (m + n) ≡ slice buf h m ++ window buf size (advance size h m) n
unfolding slice
window-append buf size h zero n p q = ground arith
window-append buf size h (suc zero) n p q = rw (suc-add, zero-add) refl
window-append buf size h (suc (suc m)) n p q = rw suc-add (
    ap (λ (l : List ℕ). get_or buf h 0 ∷ l)
      (rw (advance_lt size h 1 (omega arith), ← advance-suc size h (suc m))
        (window-append buf size (h + 1) (suc m) n (omega arith) (omega arith))))

-- A copy into the array leaves what lies outside of it.
get_or-blit :
    (buf : List ℕ) (i : ℕ) (xs : List ℕ) (j : ℕ)
    → (j < i) ⊎ (i + length xs ≤ j)
    → get_or (blit buf i xs) j 0 ≡ get_or buf j 0
unfolding blit
get_or-blit buf i [] j h = refl
get_or-blit buf i (x ∷ xs) j h =
    get_or-blit (set buf i x) (i + 1) xs j (omega arith) ∙ get_or-set_ne buf i j x 0 (omega arith)

pub length-blit : (buf : List ℕ) (i : ℕ) (xs : List ℕ) → length (blit buf i xs) ≡ length buf
unfolding blit
length-blit buf i [] = refl
length-blit buf i (x ∷ xs) = length-blit (set buf i x) (i + 1) xs ∙ length-set buf i x

-- What was copied in is read back.
slice-blit :
    (buf : List ℕ) (i : ℕ) (xs : List ℕ)
    → i + length xs ≤ length buf
    → slice (blit buf i xs) i (length xs) ≡ xs
unfolding slice blit
slice-blit buf i [] h = refl
slice-blit buf i (x ∷ xs) h =
    ap₂ ◌∷◌
      (get_or-blit (set buf i x) (i + 1) xs i (omega arith)
        ∙ get_or-set_self buf i x 0 (omega arith))
      (slice-blit (set buf i x) (i + 1) xs (omega (arith, length-set buf i x)))

-- A copy outside of a window leaves the window. The window ends before the copy starts, or starts
-- behind it and comes round no further than to its start.
window-blit :
    (buf : List ℕ) (size p : ℕ) (xs : List ℕ) (h n : ℕ)
    → p + length xs ≤ size
    → h < size
    → (h + n ≤ p) ⊎ ((p + length xs ≤ h) × (h + n ≤ size + p))
    → window (blit buf p xs) size h n ≡ window buf size h n
window-blit buf size p xs h zero f hs g = refl
window-blit buf size p xs h (suc n) f hs g =
    ap₂ ◌∷◌ (get_or-blit buf p xs h (ground arith))
      (window-blit buf size p xs (advance size h 1) n f (ground arith) (ground arith))

-- Taking `n` bytes out, not past the end, takes the first `n` of the contents.
pub take_out-contents :
    {cb : CircularBuffer} (n : ℕ)
    → IsValid cb
    → n ≤ used cb
    → cb.read_pos + n ≤ cb.size
    → contents cb ≡ slice cb.buffer cb.read_pos n ++ contents (take_out cb n)
unfolding take_out
take_out-contents {cb} n v h f =
    let e : used cb ≡ n + used (take_out cb n) = ground arith in
    rw e (window-append cb.buffer cb.size cb.read_pos n (used (take_out cb n)) v.read_in f)

pub take_out-IsValid :
    {cb : CircularBuffer} (n : ℕ)
    → IsValid cb
    → n ≤ used cb
    → cb.read_pos + n ≤ cb.size
    → IsValid (take_out cb n) × (used (take_out cb n) + n ≡ used cb)
unfolding take_out
take_out-IsValid n v h f = ground arith

-- Putting bytes in, not past the end nor over the free slot, appends them to the contents.
pub put_in-contents :
    {cb : CircularBuffer} (xs : List ℕ)
    → IsValid cb
    → length xs ≤ room cb
    → cb.write_pos + length xs ≤ cb.size
    → contents (put_in cb xs) ≡ contents cb ++ xs
unfolding put_in
put_in-contents {cb} xs v h f =
    let n = length xs in
    let buf = blit cb.buffer cb.write_pos xs in
    let e : used (put_in cb xs) ≡ used cb + n = ground arith in
    let there : after cb.size cb.read_pos (used cb) ≡ cb.write_pos =
      ground (arith, after_lem cb.size cb.read_pos (used cb)) in
    rw e (
      window-split buf cb.size cb.read_pos (used cb) n
      ∙ ap₂ ◌++◌
          (window-blit cb.buffer cb.size cb.write_pos xs cb.read_pos (used cb) f v.read_in
            (ground arith))
          (rw there (
            window-eq-slice buf cb.size cb.write_pos n f
            ∙ slice-blit cb.buffer cb.write_pos xs (omega (arith, v)))))

pub put_in-IsValid :
    {cb : CircularBuffer} (xs : List ℕ)
    → IsValid cb
    → length xs ≤ room cb
    → cb.write_pos + length xs ≤ cb.size
    → IsValid (put_in cb xs) × (used (put_in cb xs) ≡ used cb + length xs)
unfolding put_in
put_in-IsValid {cb} xs v h f = ground (arith, length-blit cb.buffer cb.write_pos xs)

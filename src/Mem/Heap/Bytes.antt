-- ===== src/Mem/Heap/Bytes.antt =====
-- Numbers in memory: what a load finds after a store or a `memset`.
use aexkernel.Base.{
  ℕ, zero, suc, ◌+◌, ◌/◌, ◌%◌, ◌^◌, ◌≤◌, ◌<◌, ◌≡◌, refl, sym, ap, ◌∙◌, ◌==◌, ==_refl, ==_ne,
  if◌then◌else◌, arith,
}
use aexkernel.Mem.Heap.{Memory, fill, load, store}

-- Nothing has changed from `a` on for `n` bytes.
abbrev pub Same : ℕ → ℕ → Memory → Memory → Type 0
Same a n mem mem' = (b : ℕ) → a ≤ b → b < a + n → mem' b ≡ mem b

pub load-Same :
    (n : ℕ) (mem mem' : Memory) (a : ℕ) → Same a n mem mem' → load n mem' a ≡ load n mem a
unfolding load
load-Same zero mem mem' a same = refl
load-Same (suc n) mem mem' a same = omega (
  arith,
  same a (omega arith) (omega arith),
  load-Same n mem mem' (a + 1) (λ b low high. same b (omega (arith, low)) (omega (arith, high))),
)

pub store_below : (n : ℕ) (mem : Memory) (a v b : ℕ) → b < a → store n mem a v b ≡ mem b
unfolding store
store_below zero mem a v b h = refl
store_below (suc n) mem a v b h =
    store_below n (λ c. if c == a then v % 256 else mem c) (a + 1) (v / 256) b (omega (arith, h))
    ∙ rw (==_ne b a (λ e. omega (arith, e, h))) refl

pub store_above : (n : ℕ) (mem : Memory) (a v b : ℕ) → a + n ≤ b → store n mem a v b ≡ mem b
unfolding store
store_above zero mem a v b h = refl
store_above (suc n) mem a v b h =
    store_above n (λ c. if c == a then v % 256 else mem c) (a + 1) (v / 256) b (omega (arith, h))
    ∙ rw (==_ne b a (λ e. omega (arith, e, h))) refl

-- The number has at most `n` bytes.
abbrev pub Fits : ℕ → ℕ → Type 0
Fits zero v = v ≡ 0
Fits (suc n) v = Fits n (v / 256)

pub load-store : (n : ℕ) (mem : Memory) (a v : ℕ) → Fits n v → load n (store n mem a v) a ≡ v
unfolding load store
load-store zero mem a v h = sym h
load-store (suc n) mem a v h = omega (
  arith,
  store_below n (λ c. if c == a then v % 256 else mem c) (a + 1) (v / 256) a (omega arith),
  ap (λ b. if b then v % 256 else mem a) (==_refl a),
  load-store n (λ c. if c == a then v % 256 else mem c) (a + 1) (v / 256) h,
)

pub Fits-4 : (v : ℕ) → v < 2 ^ 32 → Fits 4 v
Fits-4 v h = omega (arith, h)

pub Fits-8 : (v : ℕ) → v < 2 ^ 64 → Fits 8 v
Fits-8 v h = omega (arith, h)

pub fill_inside : (mem : Memory) (at len c a : ℕ) → at ≤ a → a < at + len → fill mem at len c a ≡ c
fill_inside mem at len c a low high = ground (arith, low, high)

pub fill_below : (mem : Memory) (at len c a : ℕ) → a < at → fill mem at len c a ≡ mem a
fill_below mem at len c a h = ground (arith, h)

pub fill_above : (mem : Memory) (at len c a : ℕ) → at + len ≤ a → fill mem at len c a ≡ mem a
fill_above mem at len c a h = ground (arith, h)

-- A header in memory that has been overwritten by 0x5A.
pub load-fill :
    (mem : Memory) (at len : ℕ) → 16 ≤ len → load 8 (fill mem at len 0x5A) at ≡ 0x5A5A5A5A5A5A5A5A
unfolding load
load-fill mem at len h = omega (
  arith,
  fill_inside mem at len 0x5A at (omega arith) (omega (arith, h)),
  fill_inside mem at len 0x5A (at + 1) (omega arith) (omega (arith, h)),
  fill_inside mem at len 0x5A (at + 1 + 1) (omega arith) (omega (arith, h)),
  fill_inside mem at len 0x5A (at + 1 + 1 + 1) (omega arith) (omega (arith, h)),
  fill_inside mem at len 0x5A (at + 1 + 1 + 1 + 1) (omega arith) (omega (arith, h)),
  fill_inside mem at len 0x5A (at + 1 + 1 + 1 + 1 + 1) (omega arith) (omega (arith, h)),
  fill_inside mem at len 0x5A (at + 1 + 1 + 1 + 1 + 1 + 1) (omega arith) (omega (arith, h)),
  fill_inside mem at len 0x5A (at + 1 + 1 + 1 + 1 + 1 + 1 + 1) (omega arith) (omega (arith, h)),
)

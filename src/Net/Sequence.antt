-- ===== src/Net/Sequence.antt =====
-- The comparisons of TCP sequence numbers in mod/core/netstack/socket/inet/tcp.cpp: 32-bit numbers
-- that wrap around.
mod Tests
use aexkernel.Base.{
  ℕ, ◌+◌, ◌-◌, ◌%◌, ◌^◌, ◌≤◌, ◌<◌, ◌≡◌, ◌↔◌, ◌⊎◌, ◌≢◌, Bool, true, false, not, leb, ltb, ◌==◌,
  if◌then◌else◌, arith,
}

abbrev extent : ℕ
extent = 2147483647

unfoldable pub is_before : ℕ → ℕ → Bool
is_before val start =
    if val == start
    then false
    else if ltb start val
    then leb ((0xFFFFFFFF - val + start) % 2 ^ 32) extent
    else if ltb val start
    then leb (start - val) extent
    else false

unfoldable pub is_before_or_equal : ℕ → ℕ → Bool
is_before_or_equal val start =
    if val == start
    then true
    else if ltb start val
    then leb ((0xFFFFFFFF - val + start) % 2 ^ 32) extent
    else if ltb val start
    then leb (start - val) extent
    else false

unfoldable pub is_after : ℕ → ℕ → Bool
unfolding is_before_or_equal
is_after val start = not (is_before_or_equal val start)

unfoldable pub is_after_or_equal : ℕ → ℕ → Bool
unfolding is_before
is_after_or_equal val start = not (is_before val start)

-- How far `start` lies ahead of `val`, round the 32 bits.
abbrev pub ahead : ℕ → ℕ → ℕ
ahead val start = (start + 2 ^ 32 - val) % 2 ^ 32

-- Of 32-bit numbers: `val` is before `start` exactly if `start` is ahead of it by 1 to 2 ^ 31 - 1, or
-- by 2 ^ 31 and is the smaller number.
pub is_before_iff :
    (val start : ℕ)
    → val < 2 ^ 32
    → start < 2 ^ 32
    → (is_before val start ≡ true) ↔ (
        (0 < ahead val start)
        × ((ahead val start < 2 ^ 31) ⊎ ((ahead val start ≡ 2 ^ 31) × (start < val))))
unfolding is_before
is_before_iff val start hv hs = (λ h. ground arith, λ h. ground arith)

-- Of two different 32-bit numbers exactly one is before the other, and `is_after` is `is_before` the
-- other way round, also for equal numbers.
pub is_after-eq-is_before :
    (a b : ℕ)
    → a < 2 ^ 32
    → b < 2 ^ 32
    → (a ≢ b → is_before a b ≡ not (is_before b a)) × (is_after a b ≡ is_before b a)
unfolding is_before is_after
is_after-eq-is_before a b ha hb = (λ h. ground arith, ground arith)

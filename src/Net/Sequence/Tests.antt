-- ===== src/Net/Sequence/Tests.antt =====
-- Comparisons across the wrap, and the theorems there.
use aexkernel.Base.{◌^◌, ◌<◌, ◌≡◌, ◌↔◌, ◌⊎◌, refl, true, arith}
use aexkernel.Net.Sequence.{is_before, ahead, is_before_iff}

wraps : is_before 0xFFFFFFF0 0x10 ≡ true
unfolding is_before
wraps = refl

is_before_iff_example : (is_before 0xFFFFFFF0 0x10 ≡ true) ↔ (
    (0 < ahead 0xFFFFFFF0 0x10)
    × ((ahead 0xFFFFFFF0 0x10 < 2 ^ 31) ⊎ ((ahead 0xFFFFFFF0 0x10 ≡ 2 ^ 31) × (0x10 < 0xFFFFFFF0))))
is_before_iff_example = is_before_iff 0xFFFFFFF0 0x10 (omega arith) (omega arith)

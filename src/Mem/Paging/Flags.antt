-- ===== src/Mem/Paging/Flags.antt =====
-- Flags below 4096 are added to a page's address by `|`, and `cut_flags` gives such flags.
use native.Mathlib.Omega.{pow_step}
use native.Mathlib.Nat.{suc-add, zero-add, add-zero}
use mathlib.Core.Path.{subst}
use aexkernel.Base.{ℕ, zero, suc, ◌+◌, ◌/◌, ◌%◌, ◌^◌, ◌<◌, ◌≡◌, arith}
use aexkernel.Mem.Paging.{lor, masked, with_flags}

-- The low `k` bits are clear.
IsClear : ℕ → ℕ → Type 0
IsClear zero a = Unit
IsClear (suc k) a = (a % 2 ≡ 0) × IsClear k (a / 2)

lor_zero : (n a : ℕ) → a < 2 ^ n → lor n a 0 ≡ a
unfolding lor
lor_zero zero a h = omega arith
lor_zero (suc n) a h = ground (arith, lor_zero n (a / 2) (omega (arith, h, pow_step 2 n)))

lor-add : (k n a b : ℕ) → IsClear k a → a < 2 ^ (k + n) → b < 2 ^ k → lor (k + n) a b ≡ a + b
unfolding lor IsClear
lor-add zero n a b c h l =
    let none_set : b ≡ 0 = omega (arith, l) in
    rw (zero-add, none_set, add-zero) (lor_zero n a (subst (λ i. a < 2 ^ i) (zero-add n) h))
lor-add (suc k) n a b (even, c) h l =
    let size : a < 2 ^ suc (k + n) = subst (λ i. a < 2 ^ i) (suc-add k n) h in
    let rest =
      lor-add k n (a / 2) (b / 2) c (omega (arith, size, pow_step 2 (k + n)))
        (omega (arith, l, pow_step 2 k)) in
    rw suc-add (ground (arith, rest, even))

pub lor_below : (n a b : ℕ) → lor n a b < 2 ^ n
unfolding lor
lor_below zero a b = omega arith
lor_below (suc n) a b = ground (arith, lor_below n (a / 2) (b / 2), pow_step 2 n)

masked-IsClear : (pa : ℕ) → IsClear 12 (masked pa % 2 ^ 16)
unfolding IsClear
masked-IsClear pa = omega arith

pub with_flags-add :
    (pa flags : ℕ) → flags < 4096 → with_flags (masked pa) flags ≡ masked pa + flags
with_flags-add pa flags h =
    let f : flags % 2 ^ 16 ≡ flags = omega (arith, h) in
    rw (f, lor-add 12 4 (masked pa % 2 ^ 16) flags (masked-IsClear pa) (omega arith) h)
      (omega arith)

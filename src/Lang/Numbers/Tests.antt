-- ===== src/Lang/Numbers/Tests.antt =====
-- Numbers at both ends of `int`, and the texts between.
use aexkernel.Base.{ℕ, List, ◌++◌, ◌<◌, ◌≡◌, refl, map, All, some, none, arith}
use mathlib.Core.List.{reverse}
use aexkernel.Base.Int.{pos, negsuc}
use aexkernel.Lang.Numbers.{
  itos, stoi, codes, digit_loop, swap_loop, stoi_loop, add_digit, sign_of, magnitude,
}
use aexkernel.Lang.Numbers.Digits.{digit_char, value, IsNumeral}
use aexkernel.Lang.Numbers.RoundTrip.{itos-value, stoi-itos}

hex : itos (pos 48879) 16 ≡ codes "beef"
unfolding itos digit_loop swap_loop
hex = refl

lowest : itos (negsuc 2147483647) 10 ≡ codes "-2147483648"
unfolding itos digit_loop swap_loop
lowest = refl

zero_digit : itos (pos 0) 2 ≡ codes "0"
unfolding itos digit_loop swap_loop
zero_digit = refl

-- The sum with the character leaves the range before '0' is taken off.
highest : stoi 10 (codes "2147483647") ≡ none
unfolding stoi stoi_loop add_digit
highest = refl

minus_five : stoi 10 (codes "-5") ≡ some (negsuc 4)
unfolding stoi stoi_loop add_digit
minus_five = refl

itos-value_example :
    (ds : List ℕ) × (itos (negsuc 254) 16 ≡ sign_of (negsuc 254) 16 ++ reverse (map digit_char ds))
    × (value 16 ds ≡ magnitude (negsuc 254))
    × All (λ d. d < 16) ds
    × IsNumeral ds
itos-value_example = itos-value (negsuc 254) 16 (omega arith) (omega arith)

stoi-itos_example : stoi 10 (itos (negsuc 106) 10) ≡ some (negsuc 106)
stoi-itos_example = stoi-itos (negsuc 106) 10 (omega arith) (omega arith) (omega arith)

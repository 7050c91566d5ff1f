-- ===== src/Lang/Strings/Tests.antt =====
-- Comparisons and copies of short strings.
use aexkernel.Lang.Strings.Copy.{strncpy-take}
use aexkernel.Base.{arith, take, drop, ◌++◌, ◌≡◌, refl, [], ◌∷◌}
use aexkernel.Base.Int.{pos, negsuc}
use aexkernel.Lang.Strings.{strlen, strcmp, strncpy, memcmp, memset, memset16, memset32, memset64}

-- A byte of 200 is a negative `char`, and comes before 65 in a string and behind it in memory.
signed_chars : strcmp (200 ∷ 0 ∷ []) (65 ∷ 0 ∷ []) ≡ negsuc 0
unfolding strcmp
signed_chars = refl

unsigned_bytes : memcmp (200 ∷ 0 ∷ []) (65 ∷ 0 ∷ []) 2 ≡ pos 1
unfolding memcmp
unsigned_bytes = refl

cut_copy : strncpy (9 ∷ 9 ∷ 9 ∷ []) (1 ∷ 2 ∷ 3 ∷ 0 ∷ []) 3 ≡ 1 ∷ 2 ∷ 0 ∷ []
unfolding strncpy
cut_copy = refl

memset_two : memset (1 ∷ 2 ∷ 3 ∷ []) 7 2 ≡ 7 ∷ 7 ∷ 3 ∷ []
unfolding memset
memset_two = refl

memset16_two : memset16 (1 ∷ 2 ∷ 3 ∷ []) 7 2 ≡ 7 ∷ 7 ∷ 3 ∷ []
unfolding memset16
memset16_two = refl

memset32_two : memset32 (1 ∷ 2 ∷ 3 ∷ []) 7 2 ≡ 7 ∷ 7 ∷ 3 ∷ []
unfolding memset32
memset32_two = refl

memset64_two : memset64 (1 ∷ 2 ∷ 3 ∷ []) 7 2 ≡ 7 ∷ 7 ∷ 3 ∷ []
unfolding memset64
memset64_two = refl

strncpy-take_example :
    strncpy (9 ∷ 9 ∷ 9 ∷ 9 ∷ []) (1 ∷ 2 ∷ 3 ∷ []) 3
    ≡ take 2 (1 ∷ 2 ∷ 3 ∷ []) ++ (0 ∷ drop 3 (9 ∷ 9 ∷ 9 ∷ 9 ∷ []))
unfolding strlen
strncpy-take_example = strncpy-take (9 ∷ 9 ∷ 9 ∷ 9 ∷ []) (1 ∷ 2 ∷ 3 ∷ []) 3 (omega arith)

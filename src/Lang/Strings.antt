-- ===== src/Lang/Strings.antt =====
-- kernel/string.cpp: strings and blocks of memory. Memory is a list of bytes, read as 0 behind its end,
-- which a NUL there stands for; `char` is signed.
pub mod Copy
mod Tests
use aexkernel.Base.{
  ℕ, zero, suc, ◌+◌, ◌-◌, ◌%◌, ◌≡◌, refl, Bool, true, false, List, [], ◌∷◌, ltb, ◌==◌,
  if◌then◌else◌, length, min, set, get_or,
}
use aexkernel.Base.Int.{ℤ, pos, negsuc}

-- The length up to the NUL.
unfoldable pub strlen : List ℕ → ℕ
strlen [] = 0
strlen (c ∷ str) = let rest = strlen str in if c == 0 then 0 else rest + 1

-- The order of `char`: 128 stands for -128.
abbrev pub char_key : ℕ → ℕ
char_key c = (c + 128) % 256

-- The comparison of two characters; `next` is that of what follows.
abbrev pub compare_chars : ℕ → ℕ → ℤ → ℤ
compare_chars a b next =
    if ltb (char_key a) (char_key b)
    then negsuc 0
    else if ltb (char_key b) (char_key a)
    then pos 1
    else if a == 0
    then pos 0
    else next

unfoldable pub strcmp : List ℕ → List ℕ → ℤ
strcmp [] [] = pos 0
strcmp [] (b ∷ bs) = compare_chars 0 b (pos 0)
strcmp (a ∷ r) [] = compare_chars a 0 (pos 0)
strcmp (a ∷ r) (b ∷ bs) = let next = strcmp r bs in compare_chars a b next

-- The loop of `strncpy`, and of `memcpy`: `n` bytes from index `i` on.
pub copy_loop : ℕ → ℕ → List ℕ → List ℕ → List ℕ
copy_loop zero i dst src = dst
copy_loop (suc n) i dst src = copy_loop n (i + 1) (set dst i (get_or src i 0)) src

-- `strncpy`. With `num` 0 the length wraps to that of the source, and `len < 0` does not hold.
pub strncpy : List ℕ → List ℕ → ℕ → List ℕ
unfolding copy_loop strlen
strncpy dst src num =
    let len = if num == 0 then strlen src else min (strlen src) (num - 1) in
    set (copy_loop len 0 dst src) len 0

-- The loop of `memset`, and of `memset16`, `memset32` and `memset64` over memory in larger units.
pub memset_loop : ℕ → ℕ → List ℕ → ℕ → List ℕ
memset_loop zero i mem c = mem
memset_loop (suc n) i mem c = memset_loop n (i + 1) (set mem i c) c

pub memset : List ℕ → ℕ → ℕ → List ℕ
unfolding memset_loop
memset mem c len = memset_loop len 0 mem c

-- Over units of 16, 32 and 64 bits.
pub memset16 : List ℕ → ℕ → ℕ → List ℕ
unfolding memset_loop
memset16 mem val count = memset_loop count 0 mem val

pub memset32 : List ℕ → ℕ → ℕ → List ℕ
unfolding memset_loop
memset32 mem val count = memset_loop count 0 mem val

pub memset64 : List ℕ → ℕ → ℕ → List ℕ
unfolding memset_loop
memset64 mem val count = memset_loop count 0 mem val

pub memcmp_loop : ℕ → ℕ → List ℕ → List ℕ → ℤ
memcmp_loop zero i a b = pos 0
memcmp_loop (suc n) i a b =
    let next = memcmp_loop n (i + 1) a b in
    if ltb (get_or a i 0) (get_or b i 0)
    then negsuc 0
    else if ltb (get_or b i 0) (get_or a i 0)
    then pos 1
    else next

pub memcmp : List ℕ → List ℕ → ℕ → ℤ
unfolding memcmp_loop
memcmp a b num = memcmp_loop num 0 a b

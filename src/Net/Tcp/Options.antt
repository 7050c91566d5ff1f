-- ===== src/Net/Tcp/Options.antt =====
-- `readOptions`: the options of a header, of which only the segment size counts.
use aexkernel.Base.{
  ℕ, zero, suc, ◌+◌, ◌*◌, ◌≤◌, ◌≡◌, refl, sym, ◌∙◌, ◌⊎◌, inl, List, ltb, ◌==◌, if◌then◌else◌,
  get_or, min, max, arith,
}
use aexkernel.Net.Tcp.{tcp_min_mss}

abbrev pub clamp : ℕ → ℕ → ℕ → ℕ
clamp a minv maxv = max (min a maxv) minv

-- The big-endian `uint16_t` at an index.
abbrev pub big_endian_at : List ℕ → ℕ → ℕ
big_endian_at buffer i = 256 * get_or buffer i 0 + get_or buffer (i + 1) 0

-- The loop, at byte `i`: the value that it leaves in `snd_mss`. `TCP_OPT_END` is left by a large `i`,
-- `TCP_OPT_NOOP` by a `return`.
unfoldable pub read_options_loop : ℕ → ℕ → List ℕ → ℕ → ℕ → ℕ
read_options_loop zero i buffer hdr_len mss = mss
read_options_loop (suc fuel) i buffer hdr_len mss =
    let kind = get_or buffer i 0 in
    let len = max (get_or buffer (i + 1) 0) 2 in
    let found =
      read_options_loop fuel (i + len) buffer hdr_len
        (clamp (big_endian_at buffer (i + 2)) tcp_min_mss 1460) in
    let other = read_options_loop fuel (i + len) buffer hdr_len mss in
    if ltb i hdr_len
    then (if kind == 0 then mss else if kind == 1 then mss else if kind == 2 then found else other)
    else mss

-- Each round passes two bytes or more, so that `hdr_len` rounds are enough.
unfoldable pub read_options : List ℕ → ℕ → ℕ → ℕ
unfolding read_options_loop
read_options buffer hdr_len mss = read_options_loop hdr_len 20 buffer hdr_len mss

past_end :
    (fuel i : ℕ) (buffer : List ℕ) (hdr_len mss : ℕ)
    → hdr_len ≤ i
    → read_options_loop fuel i buffer hdr_len mss ≡ mss
unfolding read_options_loop
past_end zero i buffer hdr_len mss h = refl
past_end (suc fuel) i buffer hdr_len mss h = ground arith

fuel_enough :
    (f g i : ℕ) (buffer : List ℕ) (hdr_len mss : ℕ)
    → hdr_len ≤ i + f
    → hdr_len ≤ i + g
    → read_options_loop f i buffer hdr_len mss ≡ read_options_loop g i buffer hdr_len mss
unfolding read_options_loop
fuel_enough zero g i buffer hdr_len mss h k =
    past_end zero i buffer hdr_len mss (omega arith)
    ∙ sym (past_end g i buffer hdr_len mss (omega arith))
fuel_enough (suc f) zero i buffer hdr_len mss h k =
    past_end (suc f) i buffer hdr_len mss (omega arith)
    ∙ sym (past_end zero i buffer hdr_len mss (omega arith))
fuel_enough (suc f) (suc g) i buffer hdr_len mss h k = ground (
  arith,
  fuel_enough f g (i + max (get_or buffer (i + 1) 0) 2) buffer hdr_len
      (clamp (big_endian_at buffer (i + 2)) tcp_min_mss 1460),
  fuel_enough f g (i + max (get_or buffer (i + 1) 0) 2) buffer hdr_len mss,
)

mss_in_range :
    (fuel i : ℕ) (buffer : List ℕ) (hdr_len mss : ℕ)
    → (read_options_loop fuel i buffer hdr_len mss ≡ mss)
      ⊎ ((256 ≤ read_options_loop fuel i buffer hdr_len mss)
          × (read_options_loop fuel i buffer hdr_len mss ≤ 1460))
unfolding read_options_loop
mss_in_range zero i buffer hdr_len mss = inl refl
mss_in_range (suc fuel) i buffer hdr_len mss = ground (
  arith,
  mss_in_range fuel (i + max (get_or buffer (i + 1) 0) 2) buffer hdr_len
      (clamp (big_endian_at buffer (i + 2)) tcp_min_mss 1460),
  mss_in_range fuel (i + max (get_or buffer (i + 1) 0) 2) buffer hdr_len mss,
)

-- Whatever the header holds, reading its options comes to an end, with any fuel from `hdr_len` on giving
-- the same result, and the segment size stays as it was or lies between 256 and 1460 afterwards.
pub read_options_lem :
    (buffer : List ℕ) (hdr_len mss extra : ℕ)
    → (read_options_loop (hdr_len + extra) 20 buffer hdr_len mss ≡ read_options buffer hdr_len mss)
      × ((read_options buffer hdr_len mss ≡ mss)
          ⊎ ((256 ≤ read_options buffer hdr_len mss) × (read_options buffer hdr_len mss ≤ 1460)))
unfolding read_options
read_options_lem buffer hdr_len mss extra = (
  fuel_enough (hdr_len + extra) hdr_len 20 buffer hdr_len mss (omega arith) (omega arith),
  mss_in_range hdr_len 20 buffer hdr_len mss,
)

-- An option list that begins with a NOP is not read: whatever follows, the segment size stays.
pub read_options_nop :
    (buffer : List ℕ) (hdr_len mss : ℕ)
    → get_or buffer 20 0 ≡ 1
    → read_options buffer hdr_len mss ≡ mss
unfolding read_options read_options_loop
read_options_nop buffer zero mss h = refl
read_options_nop buffer (suc n) mss h = ground arith

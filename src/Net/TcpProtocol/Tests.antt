-- ===== src/Net/TcpProtocol/Tests.antt =====
-- Ports at the end of their range.
use aexkernel.Base.{◌≡◌, refl, ◌∷◌, [], ◌++◌, true, false, none, replicate}
use aexkernel.Net.TcpProtocol.{
  Ports, fresh_ports, allocate_port, first_clear, dynamic_loop, allocate_dynamic_port,
}

-- Of a bitmap of 2048 words, as `init` makes it, the last word is full. The search goes on with the
-- word behind it, since it turns back at word 8192 only.
abbrev full_at_end : Ports
full_at_end = record {
  bitmap = replicate 2047 (replicate 32 false) ++ (replicate 32 true ∷ []);
  dynamic_last = 65534;
}

beyond_the_bitmap : allocate_dynamic_port full_at_end ≡ none
unfolding allocate_dynamic_port dynamic_loop first_clear
beyond_the_bitmap = refl

taken_twice : (allocate_port 80 (allocate_port 80 fresh_ports).1).0 ≡ false
unfolding allocate_port
taken_twice = refl

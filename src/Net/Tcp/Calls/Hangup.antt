-- ===== src/Net/Tcp/Calls/Hangup.antt =====
-- What is left for a program to do when the peer of its connection has sent a FIN.
use aexkernel.Base.{ℕ, ◌+◌, ◌≡◌, Bool, true, false, ◌⊎◌, inl, inr, List, [], arith}
use aexkernel.Net.Tcp.{enotconn, established, closed, Socket}
use aexkernel.Net.Tcp.Receive.{Packet, receive_segment}
use aexkernel.Net.Tcp.Receive.Fin.{receive_segment-fin}
use aexkernel.Net.Tcp.Calls.{Turn, returned, hung, close, receive_from}

-- The peer sends its FIN, in order and without a RST, to an ESTABLISHED connection. From then on
-- `receiveFrom` of at least one byte reads nothing, whatever bytes the receive buffer holds: it
-- returns ENOTCONN at once.
pub receive_from_refuses :
    (ts : List Turn) (waitall : Bool) (l : ℕ) (p : Packet) (s : Socket)
    → s.block.state ≡ established
    → p.flags.rst ≡ false
    → p.flags.fin ≡ true
    → p.seq_number ≡ s.block.rcv_nxt
    → receive_from ts false waitall (l + 1) (receive_segment p s)
      ≡ returned (receive_segment p s) (enotconn, [])
unfolding receive_from
receive_from_refuses ts waitall l p s e r f n = elim (receive_segment-fin p s e r f n) [
  | inl c ↦ rw c (unfold receive_from in ground (arith, c))
  | inr c ↦ ground (arith, c)
]

-- The peer sends its FIN, in order and without a RST, to an ESTABLISHED connection. If the segment
-- does not also end the connection, `close` by the program then waits for the lock that it holds
-- itself, whatever others do.
pub close_hangs :
    (uptime : ℕ) (ts : List Turn) (p : Packet) (s : Socket)
    → s.block.state ≡ established
    → p.flags.rst ≡ false
    → p.flags.fin ≡ true
    → p.seq_number ≡ s.block.rcv_nxt
    → (close uptime ts (receive_segment p s) ≡ hung) ⊎ ((receive_segment p s).block.state ≡ closed)
unfolding close
close_hangs uptime ts p s e r f n = elim (receive_segment-fin p s e r f n) [
  | inl c ↦ inl (ground (arith, c))
  | inr c ↦ inr c
]

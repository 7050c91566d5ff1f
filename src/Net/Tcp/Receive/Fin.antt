-- ===== src/Net/Tcp/Receive/Fin.antt =====
-- Where a FIN that comes in order leaves an established connection.
use aexkernel.Base.{
  ℕ, ◌≡◌, refl, true, false, List, [], ◌∷◌, ◌++◌, ◌⊎◌, inl, inr, arith, Bool-cases,
}
use aexkernel.Net.Sequence.{is_before_or_equal}
use aexkernel.Net.Tcp.{State, established, close_wait, closed, ◌is◌, Segment, Socket}
use aexkernel.Net.Tcp.Options.{read_options}
use aexkernel.Net.Tcp.Receive.{
  Packet, on_rst, on_syn, on_acked, ack_queue, on_wrong_ack, on_ack, on_data, on_fin,
  receive_segment, acked_block, hdr_len, set_mss,
}
use aexkernel.Net.Tcp.Receive.Parts.{Flow, next, return, ◌>>=◌, result}
use aexkernel.Net.Tcp.Receive.States.{
  ◌⟶◌, answered, opened, peer_shut, fin_acked, both_shut, dropped, ◌⟶*◌, here, onward,
  state-reset_and_tell, receive_segment-Leads,
}

-- From ESTABLISHED a connection comes to CLOSE_WAIT and CLOSED only.
from_established :
    {s t : State}
    → s ⟶* t
    → (s ≡ established) ⊎ (s ≡ close_wait) ⊎ (s ≡ closed)
    → (t ≡ established) ⊎ (t ≡ close_wait) ⊎ (t ≡ closed)
from_established here h = h
from_established (onward e p) h = from_established p (one e h)
  where
    one :
        {s t : State}
        → s ⟶ t
        → (s ≡ established) ⊎ (s ≡ close_wait) ⊎ (s ≡ closed)
        → (t ≡ established) ⊎ (t ≡ close_wait) ⊎ (t ≡ closed)
    one answered h = ground (arith, h)
    one opened h = ground (arith, h)
    one peer_shut h = inr (inl refl)
    one fin_acked h = ground (arith, h)
    one both_shut h = ground (arith, h)
    one dropped h = inr (inr refl)

-- A part that returns has closed the connection.
abbrev pub ReturnsClosed : Flow → Type 0
ReturnsClosed (next s) = Unit
ReturnsClosed (return s) = s.block.state ≡ closed

-- The part ends in another state than ESTABLISHED.
abbrev Leaves : Flow → Type 0
Leaves f = (result f).block.state is established ≡ false

Leaves->>= :
    (f : Flow) (g : Socket → Flow)
    → ReturnsClosed f
    → ((t : Socket) → Leaves (g t))
    → Leaves (f >>= g)
Leaves->>= (next t) g h q = q t
Leaves->>= (return t) g h q = ground (arith, h)

ReturnsClosed->>= :
    (f : Flow) (g : Socket → Flow)
    → ReturnsClosed f
    → ((t : Socket) → ReturnsClosed (g t))
    → ReturnsClosed (f >>= g)
ReturnsClosed->>= (next t) g h q = q t
ReturnsClosed->>= (return t) g h q = h

on_acked-ReturnsClosed : (seg : Segment) (s : Socket) → ReturnsClosed (on_acked seg s)
unfolding on_acked
on_acked-ReturnsClosed seg s = ground arith

ack_queue-ReturnsClosed :
    (ackn : ℕ) (kept queue : List Segment) (s : Socket)
    → ReturnsClosed (ack_queue ackn kept queue s)
unfolding ack_queue
ack_queue-ReturnsClosed ackn kept [] s = tt
ack_queue-ReturnsClosed ackn kept (seg ∷ queue) s =
    elim (Bool-cases (is_before_or_equal seg.ack_with ackn)) [
      | inl e ↦
          rw (e, ack_queue)
            (ReturnsClosed->>= (on_acked seg s) (λ s'. ack_queue ackn kept queue s')
              (on_acked-ReturnsClosed seg s) (λ s'. ack_queue-ReturnsClosed ackn kept queue s'))
      | inr e ↦ rw (e, ack_queue) (ack_queue-ReturnsClosed ackn (kept ++ (seg ∷ [])) queue s)
    ]

on_wrong_ack-ReturnsClosed : (p : Packet) (s : Socket) → ReturnsClosed (on_wrong_ack p s)
unfolding on_wrong_ack
on_wrong_ack-ReturnsClosed p s = ground (
  arith,
  state-reset_and_tell
      (record s { block = record (s.block) { snd_nxt = p.ack_number; rcv_nxt = p.seq_number } }),
)

pub on_ack-ReturnsClosed : (p : Packet) (s : Socket) → ReturnsClosed (on_ack p s)
unfolding on_ack
on_ack-ReturnsClosed p s = elim (Bool-cases p.flags.ack) [
  | inl e ↦ rw e (
      ReturnsClosed->>= (on_wrong_ack p (acked_block p s)) _
        (on_wrong_ack-ReturnsClosed p (acked_block p s))
        (λ s'. ack_queue-ReturnsClosed p.ack_number [] s'.retransmission_queue s'))
  | inr e ↦ rw e tt
]

on_data-ReturnsClosed :
    (p : Packet) (expected : ℕ) (s : Socket) → ReturnsClosed (on_data p expected s)
unfolding on_data
on_data-ReturnsClosed p expected s = ground (arith, state-reset_and_tell s)

on_rst-ReturnsClosed :
    (p : Packet) (expected : ℕ) (s : Socket)
    → p.flags.rst ≡ false
    → ReturnsClosed (on_rst p expected s)
unfolding on_rst
on_rst-ReturnsClosed p expected s r = rw r tt

on_syn-ReturnsClosed : (p : Packet) (s : Socket) → ReturnsClosed (on_syn p s)
unfolding on_syn
on_syn-ReturnsClosed p s = tt

on_fin-Leaves :
    (p : Packet) (expected : ℕ) (s : Socket)
    → p.flags.fin ≡ true
    → p.seq_number ≡ expected
    → (on_fin p expected s).block.state is established ≡ false
unfolding on_fin
on_fin-Leaves p expected s h n = ground (arith, h, n)

receive_segment-Leaves :
    (p : Packet) (s : Socket)
    → p.flags.rst ≡ false
    → p.flags.fin ≡ true
    → p.seq_number ≡ s.block.rcv_nxt
    → (receive_segment p s).block.state is established ≡ false
unfolding receive_segment
receive_segment-Leaves p s r f n =
    let expected = s.block.rcv_nxt in
    let s₁ = set_mss s (read_options p.buffer (hdr_len p) s.block.snd_mss) in
    Leaves->>= (on_rst p expected s₁) _ (on_rst-ReturnsClosed p expected s₁ r) (λ s₂.
      Leaves->>= (on_syn p s₂) _ (on_syn-ReturnsClosed p s₂) (λ s₃.
        Leaves->>= (on_ack p s₃) _ (on_ack-ReturnsClosed p s₃) (λ s₄.
          Leaves->>= (on_data p expected s₄) _ (on_data-ReturnsClosed p expected s₄)
            (λ s₅. on_fin-Leaves p expected s₅ f n))))

-- A FIN that comes in order and without a RST leads an ESTABLISHED connection to CLOSE_WAIT, unless
-- the segment ends the connection.
pub receive_segment-fin :
    (p : Packet) (s : Socket)
    → s.block.state ≡ established
    → p.flags.rst ≡ false
    → p.flags.fin ≡ true
    → p.seq_number ≡ s.block.rcv_nxt
    → ((receive_segment p s).block.state ≡ close_wait)
      ⊎ ((receive_segment p s).block.state ≡ closed)
receive_segment-fin p s e r f n = elim (from_established (receive_segment-Leads p s) (inl e)) [
  | inl t ↦ ground (arith, t, receive_segment-Leaves p s r f n)
  | inr h ↦ h
]

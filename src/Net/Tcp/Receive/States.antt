-- ===== src/Net/Tcp/Receive/States.antt =====
-- Which states a received segment may lead to.
use aexkernel.Base.{
  ℕ, ◌≡◌, refl, sym, true, false, List, [], ◌∷◌, ◌++◌, ◌⊎◌, inl, inr, arith, Bool-cases, ◌+◌,
}
use mathlib.Core.Path.{subst}
use aexkernel.Net.Sequence.{is_before_or_equal}
use aexkernel.Net.Tcp.{
  State, syn_sent, syn_received, established, fin_wait_1, fin_wait_2, close_wait, closing, closed,
  Segment, Socket, reset, reset_and_tell, ack_now, close_block, u32, send_rst, send_segment,
  send_segment_to,
}
use aexkernel.Net.Tcp.Options.{read_options}
use aexkernel.Net.Tcp.Receive.{
  Packet, on_rst, on_syn, on_acked, ack_queue, on_wrong_ack, on_ack, on_data, on_fin, accept_data,
  receive_segment, packet_received, acked_block, hdr_len, set_mss, data_len,
}
use aexkernel.Net.Tcp.Receive.Parts.{Flow, next, return, ◌>>=◌, result}

-- One event of the connection, as the handler makes it.
infix 40 ◌⟶◌ ◌⟶*◌
pub data ◌⟶◌ : State → State → Type 0 where
  answered : syn_sent ⟶ syn_received
  opened : syn_received ⟶ established
  peer_shut : established ⟶ close_wait
  fin_acked : fin_wait_1 ⟶ fin_wait_2
  both_shut : fin_wait_1 ⟶ closing
  dropped : {s : State} → s ⟶ closed

pub data ◌⟶*◌ : State → State → Type 0 where
  here : {s : State} → s ⟶* s
  onward : {s t u : State} → s ⟶ t → t ⟶* u → s ⟶* u

⟶*-trans : {s t u : State} → s ⟶* t → t ⟶* u → s ⟶* u
⟶*-trans here q = q
⟶*-trans (onward e p) q = onward e (⟶*-trans p q)

-- The part ends in a state that the connection may have come to.
abbrev Leads : State → Flow → Type 0
Leads st f = st ⟶* (result f).block.state

Leads->>= :
    (st : State) (f : Flow) (g : Socket → Flow)
    → Leads st f
    → ((s : Socket) → Leads s.block.state (g s))
    → Leads st (f >>= g)
Leads->>= st (next s) g p q = ⟶*-trans p (q s)
Leads->>= st (return s) g p q = p

step : {s t : State} → s ⟶ t → s ⟶* t
step e = onward e here

same : {s t : State} → s ≡ t → s ⟶* t
same {s} e = subst (λ u. s ⟶* u) e here

to_closed : {s t : State} → t ≡ closed → s ⟶* t
to_closed {s} e = subst (λ u. s ⟶* u) (sym e) (step dropped)

state-reset : (s : Socket) → (reset s).0.block.state ≡ closed
unfolding reset close_block
state-reset s = refl

pub state-reset_and_tell : (s : Socket) → (reset_and_tell s).block.state ≡ closed
unfolding reset_and_tell reset close_block send_rst send_segment send_segment_to
state-reset_and_tell s = ground arith

state-ack_now : (s : Socket) (n : ℕ) → (ack_now s n).block.state ≡ s.block.state
unfolding ack_now send_segment send_segment_to
state-ack_now s n = refl

state-accept_data : (p : Packet) (s : Socket) → (accept_data p s).block.state ≡ s.block.state
unfolding accept_data
state-accept_data p s = ground arith

move : {a b s t : State} → a ⟶ b → s ≡ a → t ≡ b → s ⟶* t
move e p q = rw (p, q) (step e)

on_rst-Leads : (p : Packet) (expected : ℕ) (s : Socket) → Leads s.block.state (on_rst p expected s)
on_rst-Leads p expected s = elim (cases p expected s) [ inl e ↦ same (sym e) | inr e ↦ to_closed e ]
  where
    cases :
        (p : Packet) (expected : ℕ) (s : Socket)
        → ((result (on_rst p expected s)).block.state ≡ s.block.state)
          ⊎ ((result (on_rst p expected s)).block.state ≡ closed)
    cases p expected s = unfold on_rst in ground (arith, state-reset s)

on_syn-Leads : (p : Packet) (s : Socket) → Leads s.block.state (on_syn p s)
on_syn-Leads p s = elim (cases p s) [ inl e ↦ same (sym e) | inr (a, b) ↦ move answered a b ]
  where
    cases :
        (p : Packet) (s : Socket)
        → ((result (on_syn p s)).block.state ≡ s.block.state)
          ⊎ ((s.block.state ≡ syn_sent) × ((result (on_syn p s)).block.state ≡ syn_received))
    cases p s = unfold on_syn in ground arith

on_acked-Leads : (seg : Segment) (s : Socket) → Leads s.block.state (on_acked seg s)
on_acked-Leads seg s = elim (cases seg s) [
  | inl e ↦ same (sym e)
  | inr (inl (a, b)) ↦ move fin_acked a b
  | inr (inr (inl (a, b))) ↦ move opened a b
  | inr (inr (inr e)) ↦ to_closed e
]
  where
    cases :
        (seg : Segment) (s : Socket)
        → ((result (on_acked seg s)).block.state ≡ s.block.state)
          ⊎ ((s.block.state ≡ fin_wait_1) × ((result (on_acked seg s)).block.state ≡ fin_wait_2))
          ⊎ ((s.block.state ≡ syn_received) × ((result (on_acked seg s)).block.state ≡ established))
          ⊎ ((result (on_acked seg s)).block.state ≡ closed)
    cases seg s = unfold on_acked in ground arith

ack_queue-Leads :
    (ackn : ℕ) (kept queue : List Segment) (s : Socket)
    → Leads s.block.state (ack_queue ackn kept queue s)
unfolding ack_queue
ack_queue-Leads ackn kept [] s = here
ack_queue-Leads ackn kept (seg ∷ queue) s =
    elim (Bool-cases (is_before_or_equal seg.ack_with ackn)) [
      | inl e ↦
          rw (e, ack_queue)
            (Leads->>= s.block.state (on_acked seg s) (λ s'. ack_queue ackn kept queue s')
              (on_acked-Leads seg s) (λ s'. ack_queue-Leads ackn kept queue s'))
      | inr e ↦ rw (e, ack_queue) (ack_queue-Leads ackn (kept ++ (seg ∷ [])) queue s)
    ]

on_wrong_ack-Leads : (p : Packet) (s : Socket) → Leads s.block.state (on_wrong_ack p s)
on_wrong_ack-Leads p s = elim (cases p s) [ inl e ↦ same (sym e) | inr e ↦ to_closed e ]
  where
    cases :
        (p : Packet) (s : Socket)
        → ((result (on_wrong_ack p s)).block.state ≡ s.block.state)
          ⊎ ((result (on_wrong_ack p s)).block.state ≡ closed)
    cases p s =
        unfold on_wrong_ack in
        ground (
          arith,
          state-reset_and_tell (record s {
            block = record (s.block) { snd_nxt = p.ack_number; rcv_nxt = p.seq_number };
          }),
        )

on_data-Leads :
    (p : Packet) (expected : ℕ) (s : Socket) → Leads s.block.state (on_data p expected s)
on_data-Leads p expected s = elim (cases p expected s) [
  | inl e ↦ same (sym e)
  | inr e ↦ to_closed e
]
  where
    cases :
        (p : Packet) (expected : ℕ) (s : Socket)
        → ((result (on_data p expected s)).block.state ≡ s.block.state)
          ⊎ ((result (on_data p expected s)).block.state ≡ closed)
    cases p expected s =
        unfold on_data in
        ground (
          arith,
          state-reset_and_tell s,
          state-accept_data p s,
          state-ack_now s (u32 (p.seq_number + data_len p)),
        )

on_fin-Leads :
    (p : Packet) (expected : ℕ) (s : Socket) → s.block.state ⟶* (on_fin p expected s).block.state
on_fin-Leads p expected s = elim (cases p expected s) [
  | inl e ↦ same (sym e)
  | inr (inl (a, b)) ↦ move both_shut a b
  | inr (inr (a, b)) ↦ move peer_shut a b
]
  where
    cases :
        (p : Packet) (expected : ℕ) (s : Socket)
        → ((on_fin p expected s).block.state ≡ s.block.state)
          ⊎ ((s.block.state ≡ fin_wait_1) × ((on_fin p expected s).block.state ≡ closing))
          ⊎ ((s.block.state ≡ established) × ((on_fin p expected s).block.state ≡ close_wait))
    cases p expected s = unfold on_fin in ground arith

on_ack-Leads : (p : Packet) (s : Socket) → Leads s.block.state (on_ack p s)
on_ack-Leads p s = elim (Bool-cases p.flags.ack) [
  | inl e ↦ rw (on_ack-flag p s e) (
      Leads->>= s.block.state (on_wrong_ack p (acked_block p s))
        (λ s'. ack_queue p.ack_number [] s'.retransmission_queue s')
        (rw (state-acked_block p s) at (on_wrong_ack-Leads p (acked_block p s)))
        (λ s'. ack_queue-Leads p.ack_number [] s'.retransmission_queue s'))
  | inr e ↦ rw (on_ack-none p s e) here
]
  where
    on_ack-flag :
        (p : Packet) (s : Socket)
        → p.flags.ack ≡ true
        → on_ack p s ≡ (
            on_wrong_ack p (acked_block p s) >>= λ s'.
            ack_queue p.ack_number [] s'.retransmission_queue s')
    on_ack-flag p s e = unfold on_ack in rw e refl

    on_ack-none : (p : Packet) (s : Socket) → p.flags.ack ≡ false → on_ack p s ≡ next s
    on_ack-none p s e = unfold on_ack in rw e refl

    state-acked_block : (p : Packet) (s : Socket) → (acked_block p s).block.state ≡ s.block.state
    state-acked_block p s = ground arith

pub receive_segment-Leads :
    (p : Packet) (s : Socket) → s.block.state ⟶* (receive_segment p s).block.state
unfolding receive_segment
receive_segment-Leads p s =
    let expected = s.block.rcv_nxt in
    let s₁ = set_mss s (read_options p.buffer (hdr_len p) s.block.snd_mss) in
    Leads->>= s.block.state (on_rst p expected s₁) _ (on_rst-Leads p expected s₁) (λ s₂.
      Leads->>= s₂.block.state (on_syn p s₂) _ (on_syn-Leads p s₂) (λ s₃.
        Leads->>= s₃.block.state (on_ack p s₃) _ (on_ack-Leads p s₃) (λ s₄.
          Leads->>= s₄.block.state (on_data p expected s₄) _ (on_data-Leads p expected s₄)
            (λ s₅. on_fin-Leads p expected s₅))))

-- A segment that a socket outside of LISTEN receives leads its connection along the events of ⟶ alone:
-- SYN_SENT to SYN_RECEIVED to ESTABLISHED to CLOSE_WAIT, FIN_WAIT_1 to FIN_WAIT_2 or CLOSING, and from
-- any state to CLOSED.
pub packet_received_transitions :
    (src src_port : ℕ) (p : Packet) (s : Socket)
    → s.block.state ⟶* (packet_received src src_port p s).block.state
packet_received_transitions src src_port p s = elim (cases src src_port p s) [
  | inl e ↦ rw e here
  | inr e ↦ rw e (receive_segment-Leads p s)
]
  where
    cases :
        (src src_port : ℕ) (p : Packet) (s : Socket)
        → (packet_received src src_port p s ≡ s)
          ⊎ (packet_received src src_port p s ≡ receive_segment p s)
    cases src src_port p s = unfold packet_received in ground arith

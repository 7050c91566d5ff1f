-- ===== src/Net/Tcp/Receive/Guard.antt =====
-- Which segments a connection takes notice of, and which of its own the acknowledgements take away.
use aexkernel.Base.{
  ℕ, ◌+◌, ◌≡◌, refl, sym, ap, Bool, true, false, ◌&&◌, ◌||◌, ◌⊎◌, inl, inr, List, [], ◌∷◌, ◌++◌,
  append-nil, append_assoc, ◌==◌, if◌then◌else◌, Bool-cases, arith,
}
use aexkernel.Net.Sequence.{is_before, is_before_or_equal, is_after_or_equal}
use aexkernel.Net.Tcp.{
  closed, established, fin_wait_2, set_state, syn_sent, ◌is◌, Segment, Socket, u32, get_window,
  reset, close_block,
}
use aexkernel.Net.Tcp.Options.{read_options}
use aexkernel.Net.Tcp.Receive.{
  Packet, hdr_len, set_mss, on_rst, on_acked, ack_queue, receive_segment, packet_received,
}
use aexkernel.Net.Tcp.Receive.Parts.{Flow, next, return, ◌>>=◌, result}

-- A segment whose source port is the peer's has the same effect from whatever address it comes.
pub packet_received_any_source :
    (src src' : ℕ) (p : Packet) (s : Socket)
    → packet_received src s.destination_port p s ≡ packet_received src' s.destination_port p s
unfolding packet_received
packet_received_any_source src src' p s = ground arith

-- The numbers that a RST must have: that of the SYN it answers, or one from the window.
abbrev pub rst_counts : Packet → Socket → Bool
rst_counts p s =
    s.block.state is syn_sent && p.flags.ack && p.ack_number == s.block.snd_nxt
    || is_after_or_equal p.seq_number s.block.rcv_nxt
      && is_before p.seq_number (u32 (s.block.rcv_nxt + get_window s))

on_rst-counts :
    (p : Packet) (s : Socket) (mss : ℕ)
    → p.flags.rst ≡ true
    → on_rst p s.block.rcv_nxt (set_mss s mss)
      ≡ return (if rst_counts p s then (reset (set_mss s mss)).0 else set_mss s mss)
unfolding on_rst
on_rst-counts p s mss h =
    rw (h, get_window-set_mss)
      (ap return (
        either (s.block.state is syn_sent && p.flags.ack && p.ack_number == s.block.snd_nxt)
          (is_after_or_equal p.seq_number s.block.rcv_nxt
            && is_before p.seq_number (u32 (s.block.rcv_nxt + get_window s)))
          (reset (set_mss s mss)).0 (set_mss s mss)))
  where
    get_window-set_mss : get_window (set_mss s mss) ≡ get_window s
    get_window-set_mss = unfold get_window in refl

    either :
        (a b : Bool) (x y : Socket)
        → (if a then x else if b then x else y) ≡ (if a || b then x else y)
    either true b x y = refl
    either false b x y = refl

receive_segment-rst :
    (p : Packet) (s : Socket)
    → p.flags.rst ≡ true
    → receive_segment p s ≡ (
        let s₁ = set_mss s (read_options p.buffer (hdr_len p) s.block.snd_mss) in
        if rst_counts p s then (reset s₁).0 else s₁)
unfolding receive_segment
receive_segment-rst p s h =
    rw (on_rst-counts p s (read_options p.buffer (hdr_len p) s.block.snd_mss) h) refl

-- A RST closes the connection and empties its queue, if it acknowledges the SYN that was sent or has
-- a number of the receive window.
pub rst_closes :
    (p : Packet) (s : Socket)
    → p.flags.rst ≡ true
    → rst_counts p s ≡ true
    → ((receive_segment p s).block.state ≡ closed)
      × ((receive_segment p s).retransmission_queue ≡ [])
unfolding reset close_block
rst_closes p s h c = rw (receive_segment-rst p s h, c) (refl, refl)

-- Any other RST is without effect, but for the segment size that its options give.
pub rst_ignored :
    (p : Packet) (s : Socket)
    → p.flags.rst ≡ true
    → rst_counts p s ≡ false
    → receive_segment p s ≡ set_mss s (read_options p.buffer (hdr_len p) s.block.snd_mss)
rst_ignored p s h c = rw (receive_segment-rst p s h, c) refl

-- The segments that an acknowledgement does not take away.
abbrev pub unacked : ℕ → List Segment → List Segment
unacked ackn [] = []
unacked ackn (seg ∷ queue) =
    if is_before_or_equal seg.ack_with ackn then unacked ackn queue else seg ∷ unacked ackn queue

-- What is left in the queue: the given segments, unless the connection is over.
abbrev Left : List Segment → Socket → Type 0
Left queue s =
    (s.retransmission_queue ≡ queue) ⊎ ((s.block.state ≡ closed) × (s.retransmission_queue ≡ []))

on_acked-Left :
    (seg : Segment) (s : Socket) (queue : List Segment) (g : Socket → Flow)
    → ((t : Socket) → Left queue (result (g t)))
    → Left queue (result (on_acked seg s >>= g))
on_acked-Left seg s queue g q = elim (cases seg s) [
  | inl e ↦ rw e (q s)
  | inr (inl e) ↦ rw e (q (set_state s fin_wait_2))
  | inr (inr (inl e)) ↦ rw e (q (set_state s established))
  | inr (inr (inr e)) ↦ rw e (inr (unfold close_block in (refl, refl)))
]
  where
    cases :
        (seg : Segment) (s : Socket)
        → (on_acked seg s ≡ next s)
          ⊎ (on_acked seg s ≡ next (set_state s fin_wait_2))
          ⊎ (on_acked seg s ≡ next (set_state s established))
          ⊎ (on_acked seg s ≡ return (set_state (close_block s) closed))
    cases seg s = unfold on_acked in ground arith

ack_queue-Left :
    (ackn : ℕ) (kept queue : List Segment) (s : Socket)
    → Left (kept ++ unacked ackn queue) (result (ack_queue ackn kept queue s))
unfolding ack_queue
ack_queue-Left ackn kept [] s = inl (sym (append-nil kept))
ack_queue-Left ackn kept (seg ∷ queue) s =
    elim (Bool-cases (is_before_or_equal seg.ack_with ackn)) [
      | inl e ↦
          rw (e, ack_queue)
            (on_acked-Left seg s (kept ++ unacked ackn queue) (λ t. ack_queue ackn kept queue t)
              (λ t. ack_queue-Left ackn kept queue t))
      | inr e ↦
          rw (e, ack_queue, ← append_assoc kept (seg ∷ []) (unacked ackn queue))
            (ack_queue-Left ackn (kept ++ (seg ∷ [])) queue s)
    ]

-- Over a queue, an acknowledgement leaves just the segments that it does not cover, in their order,
-- unless it ends the connection, of which no segment is left.
pub ack_queue-unacked :
    (ackn : ℕ) (s : Socket)
    → (let s' = result (ack_queue ackn [] s.retransmission_queue s) in
        (s'.retransmission_queue ≡ unacked ackn s.retransmission_queue)
        ⊎ ((s'.block.state ≡ closed) × (s'.retransmission_queue ≡ [])))
ack_queue-unacked ackn s = ack_queue-Left ackn [] s.retransmission_queue s

-- ===== src/Net/Tcp/Send/Retransmit.antt =====
-- What `retransmit` does to the queue.
use aexkernel.Base.{
  ℕ, ◌+◌, ◌%◌, ◌^◌, ◌≡◌, refl, sym, ◌∙◌, Bool, true, false, ◌&&◌, ◌||◌, not, inl, inr, List, [],
  ◌∷◌, ◌++◌, append-nil, append_assoc, map, ltb, if◌then◌else◌, Bool-cases, arith,
}
use aexkernel.Net.Tcp.{
  closed, Segment, Socket, tcp_retransmit_interval, tcp_retries, reset, reset_and_tell, close_block,
  send_rst, send_segment, send_segment_to,
}
use aexkernel.Net.Tcp.Send.{u64, retransmit_loop, retransmit}

abbrev pub due : ℕ → Segment → Bool
due uptime seg = not (ltb uptime seg.retransmit_at)

-- A segment that has been sent again as often as it may be.
abbrev pub worn_out : Segment → Bool
worn_out seg = ltb tcp_retries ((seg.retries + 1) % 2 ^ 8)

abbrev pub renewed : Segment → Segment
renewed seg = record seg {
  retries = (seg.retries + 1) % 2 ^ 8;
  retransmit_at = u64 (seg.retransmit_at + tcp_retransmit_interval);
}

abbrev pub renew_due : ℕ → Segment → Segment
renew_due uptime seg = if due uptime seg then renewed seg else seg

abbrev pub any_lost : ℕ → List Segment → Bool
any_lost uptime [] = false
any_lost uptime (seg ∷ queue) = due uptime seg && worn_out seg || any_lost uptime queue

-- The ways of a round.
round_passes :
    (uptime : ℕ) (seen : List Segment) (seg : Segment) (queue : List Segment) (s : Socket)
    → ltb uptime seg.retransmit_at ≡ true
    → retransmit_loop uptime seen (seg ∷ queue) s
      ≡ retransmit_loop uptime (seen ++ (seg ∷ [])) queue s
unfolding retransmit_loop
round_passes uptime seen seg queue s e = rw (e, retransmit_loop) refl

round_resets :
    (uptime : ℕ) (seen : List Segment) (seg : Segment) (queue : List Segment) (s : Socket)
    → ltb uptime seg.retransmit_at ≡ false
    → worn_out seg ≡ true
    → retransmit_loop uptime seen (seg ∷ queue) s ≡ reset_and_tell s
unfolding retransmit_loop
round_resets uptime seen seg queue s e w = rw (e, w, retransmit_loop) refl

round_sends :
    (uptime : ℕ) (seen : List Segment) (seg : Segment) (queue : List Segment) (s : Socket)
    → ltb uptime seg.retransmit_at ≡ false
    → worn_out seg ≡ false
    → retransmit_loop uptime seen (seg ∷ queue) s
      ≡ retransmit_loop uptime (seen ++ (renewed seg ∷ [])) queue (send_segment s (renewed seg))
unfolding retransmit_loop
round_sends uptime seen seg queue s e w = rw (e, w, retransmit_loop) refl

closed-reset_and_tell :
    (s : Socket)
    → ((reset_and_tell s).block.state ≡ closed) × ((reset_and_tell s).retransmission_queue ≡ [])
unfolding reset_and_tell reset close_block send_rst send_segment send_segment_to
closed-reset_and_tell s = ground arith

-- What the loop comes to where a segment is lost, and where none is.
abbrev Closed : Socket → Type 0
Closed s = (s.block.state ≡ closed) × (s.retransmission_queue ≡ [])

loop_closes :
    (uptime : ℕ) (seen queue : List Segment) (s : Socket)
    → any_lost uptime queue ≡ true
    → Closed (retransmit_loop uptime seen queue s)
loop_closes uptime seen [] s h = ground (arith, h)
loop_closes uptime seen (seg ∷ queue) s h = elim (Bool-cases (ltb uptime seg.retransmit_at)) [
  | inl e ↦
      rw (round_passes uptime seen seg queue s e)
        (loop_closes uptime (seen ++ (seg ∷ [])) queue s (ground (arith, e, h)))
  | inr e ↦ elim (Bool-cases (worn_out seg)) [
    | inl w ↦ rw (round_resets uptime seen seg queue s e w) (closed-reset_and_tell s)
    | inr w ↦ rw (round_sends uptime seen seg queue s e w) (
        loop_closes uptime (seen ++ (renewed seg ∷ [])) queue (send_segment s (renewed seg))
          (ground (arith, e, w, h)))
  ]
]

-- The queue and the block that the loop leaves.
abbrev Renewed : Socket → List Segment → Socket → Type 0
Renewed s queue s' = (s'.retransmission_queue ≡ queue) × (s'.block ≡ s.block)

Renewed-cons :
    (s s' : Socket) (seen : List Segment) (seg : Segment) (queue : List Segment)
    → Renewed s ((seen ++ (seg ∷ [])) ++ queue) s'
    → Renewed s (seen ++ (seg ∷ queue)) s'
Renewed-cons s s' seen seg queue (q, b) = (q ∙ append_assoc seen (seg ∷ []) queue, b)

loop_renews :
    (uptime : ℕ) (seen queue : List Segment) (s : Socket)
    → any_lost uptime queue ≡ false
    → Renewed s (seen ++ map (renew_due uptime) queue) (retransmit_loop uptime seen queue s)
unfolding send_segment send_segment_to
loop_renews uptime seen [] s h = unfold retransmit_loop in (sym (append-nil seen), refl)
loop_renews uptime seen (seg ∷ queue) s h = elim (Bool-cases (ltb uptime seg.retransmit_at)) [
  | inl e ↦
      rw (round_passes uptime seen seg queue s e, e)
        (Renewed-cons s (retransmit_loop uptime (seen ++ (seg ∷ [])) queue s) seen seg
          (map (renew_due uptime) queue)
          (loop_renews uptime (seen ++ (seg ∷ [])) queue s (ground (arith, e, h))))
  | inr e ↦
      let w : worn_out seg ≡ false = ground (arith, e, h) in
      rw (round_sends uptime seen seg queue s e w, e)
        (Renewed-cons s
          (retransmit_loop uptime (seen ++ (renewed seg ∷ [])) queue (send_segment s (renewed seg)))
          seen (renewed seg) (map (renew_due uptime) queue)
          (loop_renews uptime (seen ++ (renewed seg ∷ [])) queue (send_segment s (renewed seg))
            (ground (arith, e, w, h))))
]

-- Where a segment of the queue is due and has been sent again five times, `retransmit` closes the
-- connection and leaves no segment in the queue.
pub retransmit_closes :
    (uptime : ℕ) (s : Socket)
    → any_lost uptime s.retransmission_queue ≡ true
    → ((retransmit uptime s).block.state ≡ closed)
      × ((retransmit uptime s).retransmission_queue ≡ [])
unfolding retransmit
retransmit_closes uptime s h = loop_closes uptime [] s.retransmission_queue s h

-- Where no segment is due that has been sent again five times, `retransmit` keeps all segments in
-- their order, counts each that is due and puts its time off by the interval, and leaves the block as
-- it was.
pub retransmit_renews :
    (uptime : ℕ) (s : Socket)
    → any_lost uptime s.retransmission_queue ≡ false
    → ((retransmit uptime s).retransmission_queue ≡ map (renew_due uptime) s.retransmission_queue)
      × ((retransmit uptime s).block ≡ s.block)
unfolding retransmit
retransmit_renews uptime s h = loop_renews uptime [] s.retransmission_queue s h

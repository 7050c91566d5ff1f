-- ===== src/Net/Tcp/Receive/Data.antt =====
-- What a received segment puts into the receive buffer, and which segments an acknowledgement takes
-- off the retransmission queue.
use native.Mathlib.Decide.{ℕ_discrete}
use aexkernel.Net.Tcp.Receive.Fin.{ReturnsClosed, on_ack-ReturnsClosed}
use aexkernel.Net.Tcp.Receive.States.{state-reset_and_tell}
use aexkernel.Base.{
  Bool, true, false, ltb, ==_iff, ==_ne, ap, ◌≢◌, ℕ, suc, ◌+◌, ◌^◌, ◌≤◌, ◌<◌, ◌≡◌, refl, sym, ◌∙◌,
  List, [], ◌∷◌, ◌++◌, if◌then◌else◌, ◌⊎◌, inl, inr, arith, Bool-cases, length, length-drop,
}
use mathlib.Core.Path.{subst}
use aexkernel.Base.Int.{pos_part}
use aexkernel.Mem.CircularBuffer.{
  CircularBuffer, Outcome, finished, waiting, stuck, write, write_available,
}
use aexkernel.Mem.CircularBuffer.Distance.{IsValid}
use aexkernel.Mem.CircularBuffer.Window.{contents}
use aexkernel.Mem.CircularBuffer.Write.{Wrote, write_fits}
use aexkernel.Net.Sequence.{is_before_or_equal}
use aexkernel.Net.Tcp.{
  closed, Segment, Socket, reset, reset_and_tell, ack_now, close_block, u32, send_rst, send_segment,
  send_segment_to,
}
use aexkernel.Net.Tcp.Options.{read_options}
use aexkernel.Net.Tcp.Receive.{
  Packet, on_rst, on_syn, on_acked, ack_queue, on_wrong_ack, on_ack, on_data, on_fin, accept_data,
  receive_segment, acked_block, hdr_len, data_len, data_of, set_mss, write_data, buffer_after,
}
use aexkernel.Net.Tcp.Receive.Parts.{Flow, next, return, ◌>>=◌, result}

-- A write into a buffer with room for it, as `on_data` makes it.
pub write_data-contents :
    (cb : CircularBuffer) (xs : List ℕ)
    → IsValid cb
    → length xs ≤ pos_part (write_available cb)
    → IsValid (write_data cb xs) × (contents (write_data cb xs) ≡ contents cb ++ xs)
unfolding write_data
write_data-contents cb xs v h =
    from (write (suc (length xs)) [] cb xs) (write_fits (suc (length xs)) [] xs v h (omega arith))
  where
    from :
        (o : Outcome ℕ)
        → Wrote cb xs 0 o
        → IsValid (buffer_after cb o) × (contents (buffer_after cb o) ≡ contents cb ++ xs)
    from (finished cb' n) (w, _, e) = (w, e)
    from (waiting cb' n) w = absurd w
    from stuck w = absurd w

-- Why data is not taken: the segment has none, it has another number than the one that is expected, its
-- receiver has been shut, the segment is a RST, or the connection is closed now.
abbrev pub Untaken : Packet → ℕ → Bool → Socket → Type 0
Untaken p expected shut s =
    (data_len p ≡ 0)
    ⊎ ((p.seq_number ≢ expected)
        ⊎ ((shut ≡ true) ⊎ ((p.flags.rst ≡ true) ⊎ (s.block.state ≡ closed))))

-- The buffer is as it was, for one of those reasons, or it has grown by the data of a segment that was
-- the one expected.
abbrev pub Grown : CircularBuffer → Bool → Packet → ℕ → Socket → Type 0
Grown cb shut p expected s =
    ((s.rx_buffer ≡ cb) × Untaken p expected shut s)
    ⊎ ((p.seq_number ≡ expected)
        × IsValid s.rx_buffer
        × (contents s.rx_buffer ≡ contents cb ++ data_of p))

rx-reset : (s : Socket) → (reset s).0.rx_buffer ≡ s.rx_buffer
unfolding reset close_block
rx-reset s = refl

rx-reset_and_tell : (s : Socket) → (reset_and_tell s).rx_buffer ≡ s.rx_buffer
unfolding reset_and_tell reset close_block send_rst send_segment send_segment_to
rx-reset_and_tell s = ground arith

rx-ack_now : (s : Socket) (n : ℕ) → (ack_now s n).rx_buffer ≡ s.rx_buffer
unfolding ack_now send_segment send_segment_to
rx-ack_now s n = refl

-- The part leaves the buffer alone.
abbrev Keeps : Socket → Flow → Type 0
Keeps s f = (result f).rx_buffer ≡ s.rx_buffer

Keeps->>= :
    (s : Socket) (f : Flow) (g : Socket → Flow)
    → Keeps s f
    → ((t : Socket) → Keeps t (g t))
    → Keeps s (f >>= g)
Keeps->>= s (next t) g p q = q t ∙ p
Keeps->>= s (return t) g p q = p

on_rst-Keeps : (p : Packet) (expected : ℕ) (s : Socket) → Keeps s (on_rst p expected s)
unfolding on_rst
on_rst-Keeps p expected s = ground (arith, rx-reset s)

on_syn-Keeps : (p : Packet) (s : Socket) → Keeps s (on_syn p s)
unfolding on_syn ack_now send_segment send_segment_to
on_syn-Keeps p s = ground arith

on_acked-Keeps : (seg : Segment) (s : Socket) → Keeps s (on_acked seg s)
unfolding on_acked close_block
on_acked-Keeps seg s = ground arith

ack_queue-Keeps :
    (ackn : ℕ) (kept queue : List Segment) (s : Socket) → Keeps s (ack_queue ackn kept queue s)
unfolding ack_queue
ack_queue-Keeps ackn kept [] s = refl
ack_queue-Keeps ackn kept (seg ∷ queue) s =
    elim (Bool-cases (is_before_or_equal seg.ack_with ackn)) [
      | inl e ↦
          rw (e, ack_queue)
            (Keeps->>= s (on_acked seg s) (λ s'. ack_queue ackn kept queue s')
              (on_acked-Keeps seg s) (λ s'. ack_queue-Keeps ackn kept queue s'))
      | inr e ↦ rw (e, ack_queue) (ack_queue-Keeps ackn (kept ++ (seg ∷ [])) queue s)
    ]

on_wrong_ack-Keeps : (p : Packet) (s : Socket) → Keeps s (on_wrong_ack p s)
unfolding on_wrong_ack
on_wrong_ack-Keeps p s = ground (
  arith,
  rx-reset_and_tell
      (record s { block = record (s.block) { snd_nxt = p.ack_number; rcv_nxt = p.seq_number } }),
)

rx-acked_block : (p : Packet) (s : Socket) → (acked_block p s).rx_buffer ≡ s.rx_buffer
rx-acked_block p s = ground arith

on_ack-Keeps : (p : Packet) (s : Socket) → Keeps s (on_ack p s)
unfolding on_ack
on_ack-Keeps p s = elim (Bool-cases p.flags.ack) [
  | inl e ↦ rw e (
      Keeps->>= (acked_block p s) (on_wrong_ack p (acked_block p s)) _
        (on_wrong_ack-Keeps p (acked_block p s))
        (λ s'. ack_queue-Keeps p.ack_number [] s'.retransmission_queue s')
      ∙ rx-acked_block p s)
  | inr e ↦ rw e refl
]

on_fin-rx : (p : Packet) (expected : ℕ) (s : Socket) → (on_fin p expected s).rx_buffer ≡ s.rx_buffer
unfolding on_fin
on_fin-rx p expected s = ground arith

not_ltb : (a b : ℕ) → ltb a b ≡ false → b ≤ a
not_ltb a b h = ground arith

length-data_of : (p : Packet) → length p.buffer < 2 ^ 16 → length (data_of p) ≡ data_len p
unfolding data_len
length-data_of p h = ground (arith, length-drop (hdr_len p) p.buffer)

rx-accept_data :
    (p : Packet) (s : Socket)
    → (accept_data p s).rx_buffer
      ≡ (if s.block.receive_shut then s.rx_buffer else write_data s.rx_buffer (data_of p))
unfolding accept_data
rx-accept_data p s = ground arith

accept_data-Grown :
    (p : Packet) (s : Socket)
    → IsValid s.rx_buffer
    → length p.buffer < 2 ^ 16
    → data_len p ≤ pos_part (write_available s.rx_buffer)
    → Grown s.rx_buffer s.block.receive_shut p p.seq_number (accept_data p s)
accept_data-Grown p s v l h = elim (Bool-cases s.block.receive_shut) [
  | inl e ↦ inl (rw (rx-accept_data p s, e) refl, inr (inr (inl e)))
  | inr e ↦
      let (a, b) = write_data-contents s.rx_buffer (data_of p) v (rw (length-data_of p l) h) in
      inr (refl, rw (rx-accept_data p s, e) a, rw (rx-accept_data p s, e) b)
]

on_data-Grown :
    (p : Packet) (expected : ℕ) (s : Socket)
    → IsValid s.rx_buffer
    → length p.buffer < 2 ^ 16
    → Grown s.rx_buffer s.block.receive_shut p expected (result (on_data p expected s))
unfolding on_data
on_data-Grown p expected s v l =
    let ack = u32 (p.seq_number + data_len p) in
    elim (ℕ_discrete (data_len p) 0) [
      | yes z ↦ rw ((==_iff (data_len p) 0).1 z) (inl (refl, inl z))
      | no n ↦ rw (==_ne (data_len p) 0 n) (elim (ℕ_discrete p.seq_number expected) [
        | yes e ↦
            rw ((==_iff p.seq_number expected).1 e)
              (elim (Bool-cases (ltb (pos_part (write_available s.rx_buffer)) (data_len p))) [
                | inl f ↦
                    rw f (inl (rx-reset_and_tell s, inr (inr (inr (inr (state-reset_and_tell s))))))
                | inr f ↦ rw f (
                    subst (λ k. Grown s.rx_buffer s.block.receive_shut p k (accept_data p s)) e
                      (accept_data-Grown p s v l (not_ltb _ _ f)))
              ])
        | no e ↦
            rw (==_ne p.seq_number expected e)
              (elim (Bool-cases (is_before_or_equal ack s.block.rcv_nxt)) [
                | inl f ↦ rw f (inl (rx-ack_now s ack, inr (inl e)))
                | inr f ↦ rw f (inl (refl, inr (inl e)))
              ])
      ])
    ]

-- A part that goes on has not shut the receiver, and one that returns has a reason not to take data.
abbrev Stops : Bool → Packet → ℕ → Flow → Type 0
Stops shut p expected (next t) = t.block.receive_shut ≡ shut
Stops shut p expected (return t) = Untaken p expected shut t

on_rst-Stops :
    (p : Packet) (expected : ℕ) (s : Socket)
    → Stops s.block.receive_shut p expected (on_rst p expected s)
unfolding on_rst
on_rst-Stops p expected s = elim (Bool-cases p.flags.rst) [
  | inl e ↦ rw e (inr (inr (inr (inl refl))))
  | inr e ↦ rw e refl
]

on_syn-Stops :
    (p : Packet) (expected : ℕ) (s : Socket) → Stops s.block.receive_shut p expected (on_syn p s)
unfolding on_syn ack_now send_segment send_segment_to
on_syn-Stops p expected s = ground arith

-- A part that goes on has not shut the receiver.
abbrev KeepsShut : Socket → Flow → Type 0
KeepsShut s (next t) = t.block.receive_shut ≡ s.block.receive_shut
KeepsShut s (return t) = Unit

KeepsShut->>= :
    (s : Socket) (f : Flow) (g : Socket → Flow)
    → KeepsShut s f
    → ((t : Socket) → KeepsShut t (g t))
    → KeepsShut s (f >>= g)
KeepsShut->>= s (next t) g h q = onward (g t) (q t)
  where
    onward : (f : Flow) → KeepsShut t f → KeepsShut s f
    onward (next u) k = k ∙ h
    onward (return u) k = tt
KeepsShut->>= s (return t) g h q = tt

on_acked-KeepsShut : (seg : Segment) (s : Socket) → KeepsShut s (on_acked seg s)
unfolding on_acked
on_acked-KeepsShut seg s = ground arith

ack_queue-KeepsShut :
    (ackn : ℕ) (kept queue : List Segment) (s : Socket) → KeepsShut s (ack_queue ackn kept queue s)
unfolding ack_queue
ack_queue-KeepsShut ackn kept [] s = refl
ack_queue-KeepsShut ackn kept (seg ∷ queue) s =
    elim (Bool-cases (is_before_or_equal seg.ack_with ackn)) [
      | inl e ↦
          rw (e, ack_queue)
            (KeepsShut->>= s (on_acked seg s) (λ s'. ack_queue ackn kept queue s')
              (on_acked-KeepsShut seg s) (λ s'. ack_queue-KeepsShut ackn kept queue s'))
      | inr e ↦ rw (e, ack_queue) (ack_queue-KeepsShut ackn (kept ++ (seg ∷ [])) queue s)
    ]

on_wrong_ack-KeepsShut : (p : Packet) (s : Socket) → KeepsShut s (on_wrong_ack p s)
unfolding on_wrong_ack
on_wrong_ack-KeepsShut p s = ground arith

shut-acked_block :
    (p : Packet) (s : Socket) → (acked_block p s).block.receive_shut ≡ s.block.receive_shut
shut-acked_block p s = ground arith

on_ack-KeepsShut : (p : Packet) (s : Socket) → KeepsShut (acked_block p s) (on_ack p s)
unfolding on_ack
on_ack-KeepsShut p s = elim (Bool-cases p.flags.ack) [
  | inl e ↦ rw e (
      KeepsShut->>= (acked_block p s) (on_wrong_ack p (acked_block p s)) _
        (on_wrong_ack-KeepsShut p (acked_block p s))
        (λ s'. ack_queue-KeepsShut p.ack_number [] s'.retransmission_queue s'))
  | inr e ↦ rw e (sym (shut-acked_block p s))
]

Stops-closed :
    (shut : Bool) (p : Packet) (expected : ℕ) (s : Socket) (f : Flow)
    → s.block.receive_shut ≡ shut
    → KeepsShut s f
    → ReturnsClosed f
    → Stops shut p expected f
Stops-closed shut p expected s (next t) e h c = h ∙ e
Stops-closed shut p expected s (return t) e h c = inr (inr (inr (inr c)))

-- A part that leaves the buffer alone, followed by others.
Grown-keep :
    (cb : CircularBuffer) (shut : Bool) (p : Packet) (expected : ℕ) (f : Flow) (g : Socket → Flow)
    → (result f).rx_buffer ≡ cb
    → Stops shut p expected f
    → IsValid cb
    → ((t : Socket)
        → IsValid t.rx_buffer
        → Grown t.rx_buffer t.block.receive_shut p expected (result (g t)))
    → Grown cb shut p expected (result (f >>= g))
Grown-keep cb shut p expected (next t) g e h v q =
    subst (λ c. Grown c shut p expected (result (g t))) e
      (subst (λ b. Grown t.rx_buffer b p expected (result (g t))) h (q t (subst IsValid (sym e) v)))
Grown-keep cb shut p expected (return t) g e h v q = inl (e, h)

on_fin-closed :
    (p : Packet) (expected : ℕ) (s : Socket)
    → s.block.state ≡ closed
    → (on_fin p expected s).block.state ≡ closed
unfolding on_fin
on_fin-closed p expected s h = ground arith

-- The FIN of the segment, after its data.
Grown-on_fin :
    (cb : CircularBuffer) (shut : Bool) (p : Packet) (expected : ℕ) (f : Flow)
    → Grown cb shut p expected (result f)
    → Grown cb shut p expected (result (f >>= λ t. next (on_fin p expected t)))
Grown-on_fin cb shut p expected (next t) (inl (e, u)) = inl (on_fin-rx p expected t ∙ e, kept u)
  where
    kept : Untaken p expected shut t → Untaken p expected shut (on_fin p expected t)
    kept (inl a) = inl a
    kept (inr (inl a)) = inr (inl a)
    kept (inr (inr (inl a))) = inr (inr (inl a))
    kept (inr (inr (inr (inl a)))) = inr (inr (inr (inl a)))
    kept (inr (inr (inr (inr a)))) = inr (inr (inr (inr (on_fin-closed p expected t a))))
Grown-on_fin cb shut p expected (next t) (inr (e, v, c)) =
    inr
      (e, subst IsValid (sym (on_fin-rx p expected t)) v, ap contents (on_fin-rx p expected t) ∙ c)
Grown-on_fin cb shut p expected (return t) h = h

-- A segment of less than 64 KiB, of a connection with a valid receive buffer: it has the sequence number
-- that was expected, and adds exactly its data, in order, behind what the buffer holds, which stays
-- valid; or the buffer is as it was, and the segment has no data or another number than that, or what
-- is received was shut before, or the segment is a RST, or the connection is closed after it.
pub receive_segment_stream :
    (p : Packet) (s : Socket)
    → IsValid s.rx_buffer
    → length p.buffer < 2 ^ 16
    → Grown s.rx_buffer s.block.receive_shut p s.block.rcv_nxt (receive_segment p s)
unfolding receive_segment
receive_segment_stream p s v l =
    let expected = s.block.rcv_nxt in
    let s₁ = set_mss s (read_options p.buffer (hdr_len p) s.block.snd_mss) in
    Grown-keep s.rx_buffer s.block.receive_shut p expected (on_rst p expected s₁) _
      (on_rst-Keeps p expected s₁) (on_rst-Stops p expected s₁) v
      (λ s₂ v₂.
        Grown-keep s₂.rx_buffer s₂.block.receive_shut p expected (on_syn p s₂) _ (on_syn-Keeps p s₂)
          (on_syn-Stops p expected s₂) v₂
          (λ s₃ v₃.
            Grown-keep s₃.rx_buffer s₃.block.receive_shut p expected (on_ack p s₃) _
              (on_ack-Keeps p s₃)
              (Stops-closed s₃.block.receive_shut p expected (acked_block p s₃) (on_ack p s₃)
                (shut-acked_block p s₃) (on_ack-KeepsShut p s₃) (on_ack-ReturnsClosed p s₃))
              v₃
              (λ s₄ v₄.
                Grown-on_fin s₄.rx_buffer s₄.block.receive_shut p expected (on_data p expected s₄)
                  (on_data-Grown p expected s₄ v₄ l))))

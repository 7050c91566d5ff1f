-- ===== src/Net/Tcp/Send/Package.antt =====
-- What `package` makes of the bytes of the transmit buffer.
use aexkernel.Base.{
  ℕ, zero, suc, ◌+◌, ◌^◌, ◌≤◌, ◌<◌, ◌≡◌, refl, sym, ap, ◌∙◌, true, false, inl, inr, List, [], ◌++◌,
  append-nil, ◌==◌, Bool-cases, length, min, arith,
}
use aexkernel.Base.Int.{pos_part}
use aexkernel.Mem.CircularBuffer.{CircularBuffer, read_available}
use aexkernel.Mem.CircularBuffer.Distance.{IsValid, used, read_available_lem}
use aexkernel.Mem.CircularBuffer.Window.{contents, window}
use aexkernel.Net.Tcp.{Socket, send_segment, send_segment_to, ack_now}
use aexkernel.Net.Tcp.Send.{
  Packaged, packaged, panicked, unfinished, package_size, send_data, package_one, package_loop,
  send_owed_ack, package_all,
}
use aexkernel.Net.Tcp.Send.Rounds.{
  all_bytes, Shipped, Ships, package_one-Round, used-Round, Shipped-send_data,
}

-- The three ways of a round of the loop.
loop_done :
    (fuel uptime : ℕ) (s : Socket)
    → pos_part (read_available s.tx_buffer) == 0 ≡ true
    → package_loop (suc fuel) uptime s ≡ packaged s
unfolding package_loop
loop_done fuel uptime s e = rw (e, package_loop) refl

loop_panics :
    (fuel uptime : ℕ) (s : Socket)
    → pos_part (read_available s.tx_buffer) == 0 ≡ false
    → s.block.snd_wnd == 0 ≡ true
    → package_loop (suc fuel) uptime s ≡ panicked
unfolding package_loop
loop_panics fuel uptime s e w = rw (e, w, package_loop) refl

loop_goes_on :
    (fuel uptime : ℕ) (s s' : Socket)
    → pos_part (read_available s.tx_buffer) == 0 ≡ false
    → s.block.snd_wnd == 0 ≡ false
    → package_one uptime s ≡ packaged s'
    → package_loop (suc fuel) uptime s ≡ package_loop fuel uptime s'
unfolding package_loop
loop_goes_on fuel uptime s s' e w o = rw (e, w, o, package_loop) refl

-- The size of a round, over a valid buffer.
package_size_lem :
    (s : Socket)
    → IsValid s.tx_buffer
    → package_size s ≡ min (min (used s.tx_buffer) s.block.snd_wnd) s.block.snd_mss
package_size_lem s v =
    ap (λ a. min (min (pos_part a) s.block.snd_wnd) s.block.snd_mss) (read_available_lem v)

available_test :
    (s : Socket)
    → IsValid s.tx_buffer
    → (pos_part (read_available s.tx_buffer) == 0) ≡ (used s.tx_buffer == 0)
available_test s v = ap (λ a. pos_part a == 0) (read_available_lem v)

Ships-send_data :
    (uptime : ℕ) (s : Socket) (tx : CircularBuffer) (xs : List ℕ)
    → length xs ≤ s.block.snd_wnd
    → length xs ≤ s.block.snd_mss
    → xs ++ contents tx ≡ contents s.tx_buffer
    → (o : Packaged) → Ships (send_data uptime s tx xs) o
    → Ships s o
Ships-send_data uptime s tx xs w m e (packaged s') h = Shipped-send_data uptime s s' tx xs w m e h
Ships-send_data uptime s tx xs w m e panicked h = absurd h
Ships-send_data uptime s tx xs w m e unfinished h = absurd h

package_loop-Ships :
    (fuel uptime : ℕ) (s : Socket)
    → IsValid s.tx_buffer
    → 0 < s.block.snd_mss
    → s.block.snd_nxt < 2 ^ 32
    → used s.tx_buffer ≤ s.block.snd_wnd
    → used s.tx_buffer < fuel
    → Ships s (package_loop fuel uptime s)
unfolding send_data send_segment send_segment_to
package_loop-Ships zero uptime s v m n w f = absurd (omega arith)
package_loop-Ships (suc fuel) uptime s v m n w f = elim (Bool-cases (used s.tx_buffer == 0)) [
  | inl e ↦
      rw (loop_done fuel uptime s (available_test s v ∙ e)) (nothing s v n (ground (arith, e)))
  | inr e ↦
      let r = package_one-Round uptime s v in
      let u = used-Round r in
      let p = package_size_lem s v in
      let some_left : 0 < used s.tx_buffer = ground (arith, e) in
      rw
        (loop_goes_on fuel uptime s (send_data uptime s r.tx r.xs) (available_test s v ∙ e)
          (ground (arith, e, w)) r.outcome)
        (Ships-send_data uptime s r.tx r.xs (omega (arith, r.size)) (omega (arith, r.size)) r.front
          (package_loop fuel uptime (send_data uptime s r.tx r.xs))
          (package_loop-Ships fuel uptime (send_data uptime s r.tx r.xs) r.valid m (omega arith)
            (omega (arith, u, r.size, p)) (omega (arith, u, r.size, p, some_left))))
]
  where
    nothing :
        (s : Socket)
        → IsValid s.tx_buffer
        → s.block.snd_nxt < 2 ^ 32
        → used s.tx_buffer ≡ 0
        → Shipped s s
    nothing s v n e = record {
      segs = [];
      bytes = sym (ap (λ k. window s.tx_buffer.buffer s.tx_buffer.size s.tx_buffer.read_pos k) e);
      queued = sym (append-nil s.retransmission_queue);
      small = tt;
      emptied = e;
      numbered = omega arith;
      window = omega arith;
    }

package_loop-panics :
    (fuel uptime : ℕ) (s : Socket)
    → IsValid s.tx_buffer
    → 0 < s.block.snd_mss
    → s.block.snd_wnd < used s.tx_buffer
    → used s.tx_buffer < fuel
    → package_loop fuel uptime s ≡ panicked
unfolding send_data send_segment send_segment_to
package_loop-panics zero uptime s v m w f = absurd (omega arith)
package_loop-panics (suc fuel) uptime s v m w f =
    let e : used s.tx_buffer == 0 ≡ false = ground (arith, w) in
    elim (Bool-cases (s.block.snd_wnd == 0)) [
      | inl z ↦ loop_panics fuel uptime s (available_test s v ∙ e) z
      | inr z ↦
          let r = package_one-Round uptime s v in
          let u = used-Round r in
          let p = package_size_lem s v in
          let q : 0 < s.block.snd_wnd = ground (arith, z) in
          loop_goes_on fuel uptime s (send_data uptime s r.tx r.xs) (available_test s v ∙ e) z
            r.outcome
          ∙ package_loop-panics fuel uptime (send_data uptime s r.tx r.xs) r.valid m
              (omega (arith, u, r.size, p)) (omega (arith, u, r.size, p, q))
    ]

abbrev after_loop : Packaged → Packaged
after_loop (packaged s') = packaged (send_owed_ack s')
after_loop panicked = panicked
after_loop unfinished = unfinished

package_all_lem :
    (uptime : ℕ) (s : Socket)
    → IsValid s.tx_buffer
    → package_all uptime s ≡ after_loop (package_loop (suc (used s.tx_buffer)) uptime s)
unfolding package_all
package_all_lem uptime s v =
    ap (λ a. after_loop (package_loop (suc (pos_part a)) uptime s)) (read_available_lem v)

kept_by_owed_ack :
    (s : Socket)
    → ((send_owed_ack s).tx_buffer ≡ s.tx_buffer)
      × ((send_owed_ack s).retransmission_queue ≡ s.retransmission_queue)
      × ((send_owed_ack s).block.snd_nxt ≡ s.block.snd_nxt)
      × ((send_owed_ack s).block.snd_wnd ≡ s.block.snd_wnd)
unfolding send_owed_ack ack_now send_segment send_segment_to
kept_by_owed_ack s = ground arith

Ships-after_loop : (s : Socket) (o : Packaged) → Ships s o → Ships s (after_loop o)
Ships-after_loop s (packaged s') h =
    let (tx, queue, nxt, wnd) = kept_by_owed_ack s' in
    record {
      segs = h.segs;
      bytes = h.bytes;
      queued = queue ∙ h.queued;
      small = h.small;
      emptied = ap used tx ∙ h.emptied;
      numbered = nxt ∙ h.numbered;
      window = ap (λ w. w + length (all_bytes h.segs)) wnd ∙ h.window;
    }
Ships-after_loop s panicked h = absurd h
Ships-after_loop s unfinished h = absurd h

-- Where the peer's window has room for all bytes of a valid transmit buffer and the segment size is
-- not 0, `package` returns, whatever the owed acknowledgement: the bytes are those of the segments
-- that it has queued, in order and none longer than the segment size, the buffer is empty, `snd_nxt`
-- has gone on by their number modulo 2 ^ 32, and the window is that much smaller.
pub package_all-Ships :
    (uptime : ℕ) (s : Socket)
    → IsValid s.tx_buffer
    → 0 < s.block.snd_mss
    → s.block.snd_nxt < 2 ^ 32
    → used s.tx_buffer ≤ s.block.snd_wnd
    → Ships s (package_all uptime s)
package_all-Ships uptime s v m n w = rw (package_all_lem uptime s v) (
    Ships-after_loop s (package_loop (suc (used s.tx_buffer)) uptime s)
      (package_loop-Ships (suc (used s.tx_buffer)) uptime s v m n w (omega arith)))

-- Where a valid transmit buffer holds more bytes than the peer's window has room for, and the segment
-- size is not 0, `package` ends in the panic of its assertion.
pub package_panics :
    (uptime : ℕ) (s : Socket)
    → IsValid s.tx_buffer
    → 0 < s.block.snd_mss
    → s.block.snd_wnd < used s.tx_buffer
    → package_all uptime s ≡ panicked
package_panics uptime s v m w =
    package_all_lem uptime s v
    ∙ ap after_loop (package_loop-panics (suc (used s.tx_buffer)) uptime s v m w (omega arith))

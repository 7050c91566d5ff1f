-- ===== src/Net/Tcp/Send/Rounds.antt =====
-- What one round of package sends.
use aexkernel.Base.{
  ℕ, suc, ◌+◌, ◌≤◌, ◌≡◌, refl, ap, ◌∙◌, List, [], ◌∷◌, ◌++◌, append_assoc, length, length-append,
  arith, All,
}
use aexkernel.Base.Int.{minus_one}
use aexkernel.Mem.CircularBuffer.{CircularBuffer, Outcome, finished, waiting, stuck}
use aexkernel.Mem.CircularBuffer.Distance.{IsValid, used}
use aexkernel.Mem.CircularBuffer.Window.{contents, length-window}
use aexkernel.Mem.CircularBuffer.Read.{Took, read_ready}
use aexkernel.Net.Tcp.{Segment, Socket, u32, send_segment, send_segment_to}
use aexkernel.Net.Tcp.Send.{
  data_segment, Packaged, packaged, panicked, unfinished, package_size, send_data, after_read,
  package_one,
}

-- The bytes of the segments, in their order.
abbrev pub all_bytes : List Segment → List ℕ
all_bytes [] = []
all_bytes (seg ∷ segs) = seg.data_bytes ++ all_bytes segs

-- All bytes of the buffer of `s` became segments of at most `snd_mss` bytes, which were queued.
pub record Shipped (s s' : Socket) : Type 0 where
  pub segs : List Segment
  pub bytes : all_bytes segs ≡ contents s.tx_buffer
  pub queued : s'.retransmission_queue ≡ s.retransmission_queue ++ segs
  pub small : All (λ seg. length seg.data_bytes ≤ s.block.snd_mss) segs
  pub emptied : used s'.tx_buffer ≡ 0
  pub numbered : s'.block.snd_nxt ≡ u32 (s.block.snd_nxt + length (all_bytes segs))
  pub window : s'.block.snd_wnd + length (all_bytes segs) ≡ s.block.snd_wnd

abbrev pub Ships : Socket → Packaged → Type 0
Ships s (packaged s') = Shipped s s'
Ships s panicked = ⊥
Ships s unfinished = ⊥

-- A round sends bytes from the front of the buffer.
pub record Round (s : Socket) (o : Packaged) (uptime : ℕ) : Type 0 where
  pub tx : CircularBuffer
  pub xs : List ℕ
  pub outcome : o ≡ packaged (send_data uptime s tx xs)
  pub valid : IsValid tx
  pub front : xs ++ contents tx ≡ contents s.tx_buffer
  pub size : length xs ≡ package_size s

pub package_one-Round :
    (uptime : ℕ) (s : Socket) → IsValid s.tx_buffer → Round s (package_one uptime s) uptime
unfolding package_one
package_one-Round uptime s v =
    from _ (
      read_ready (suc (package_size s)) [] minus_one (package_size s) v (omega arith) (omega arith))
  where
    from :
        (o : Outcome (List ℕ))
        → Took s.tx_buffer (package_size s) [] o
        → Round s (after_read uptime s o) uptime
    from (finished tx xs) (v', e, l) = record {
      tx = tx;
      xs = xs;
      outcome = refl;
      valid = v';
      front = e;
      size = omega (arith, l);
    }
    from (waiting tx xs) g = absurd g
    from stuck g = absurd g

-- The bytes left are those that the round did not send.
pub used-Round :
    {s : Socket} {o : Packaged} {uptime : ℕ} (r : Round s o uptime)
    → length r.xs + used r.tx ≡ used s.tx_buffer
used-Round {s} r = omega (
  arith,
  ap length r.front,
  length-append r.xs (contents r.tx),
  length-contents r.tx,
  length-contents s.tx_buffer,
)
  where
    length-contents : (cb : CircularBuffer) → length (contents cb) ≡ used cb
    length-contents cb = length-window cb.buffer cb.size cb.read_pos (used cb)

pub Shipped-send_data :
    (uptime : ℕ) (s s' : Socket) (tx : CircularBuffer) (xs : List ℕ)
    → length xs ≤ s.block.snd_wnd
    → length xs ≤ s.block.snd_mss
    → xs ++ contents tx ≡ contents s.tx_buffer
    → Shipped (send_data uptime s tx xs) s'
    → Shipped s s'
unfolding send_data send_segment send_segment_to
Shipped-send_data uptime s s' tx xs w m e r = record {
  segs = data_segment uptime s xs ∷ r.segs;
  bytes = ap (λ ys. xs ++ ys) r.bytes ∙ e;
  queued = r.queued ∙ append_assoc s.retransmission_queue (data_segment uptime s xs ∷ []) r.segs;
  small = (m, r.small);
  emptied = r.emptied;
  numbered = omega (arith, r.numbered, length-append xs (all_bytes r.segs));
  window = omega (arith, r.window, length-append xs (all_bytes r.segs));
}

-- ===== src/Net/Tcp/Send.antt =====
-- The sending side: `clearState`, `syn`, `fin`, `package`, `retransmit` and `tick`. `uptime` is the time
-- in nanoseconds at the call.
pub mod Rounds
pub mod Package
pub mod Retransmit
use aexkernel.Base.{
  ℕ, zero, suc, ◌+◌, ◌-◌, ◌*◌, ◌/◌, ◌%◌, ◌^◌, Bool, true, false, not, List, [], ◌∷◌, ◌++◌, ltb,
  ◌==◌, if◌then◌else◌, length, min,
}
use aexkernel.Base.Int.{pos, pos_part, minus_one}
use aexkernel.Mem.CircularBuffer.{
  CircularBuffer, Outcome, finished, waiting, stuck, read, read_available, resize,
}
use aexkernel.Net.Tcp.{
  State, syn_sent, closed, ◌is◌, Flags, no_flags, Block, Segment, new_segment, Socket, u16, u32,
  tcp_retransmit_interval, tcp_retries, tcp_tx_buffer_size, tcp_rx_buffer_size, tcp_min_mss,
  send_segment, ack_now, reset_and_tell,
}

abbrev pub u64 : ℕ → ℕ
u64 n = n % 2 ^ 64

-- `clearState`; `tx` and `rx` are the storage that the two buffers are given.
pub clear_state : List ℕ → List ℕ → Socket → Socket
clear_state tx rx s = record s {
  tx_buffer = resize s.tx_buffer tx;
  rx_buffer = resize s.rx_buffer rx;
  retransmission_queue = [];
  block = record {
    state = closed;
    snd_una = 0;
    snd_nxt = 0;
    snd_wnd = 0;
    snd_mss = tcp_min_mss;
    rcv_nxt = 0;
    sending_comp_ack = false;
    notify_of_window_size = false;
    closing = false;
    send_shut = false;
    receive_shut = false;
  };
}

-- `m_retransmission_queue.push(seg)` and `sendSegment(seg)`
abbrev pub push_and_send : Socket → Segment → Socket
push_and_send s seg =
    send_segment (record s { retransmission_queue = s.retransmission_queue ++ (seg ∷ []) }) seg

-- The option that says that segments of 1460 bytes are taken.
abbrev pub mss_option : List ℕ
mss_option = 2 ∷ 4 ∷ 5 ∷ 180 ∷ []

abbrev pub initial_number : ℕ → ℕ
initial_number uptime = u32 (uptime - uptime % 10000 + 2137)

pub syn : ℕ → Socket → Socket
syn uptime s =
    let first = initial_number uptime in
    push_and_send
      (record s {
        block = record (s.block) {
          snd_una = first;
          snd_nxt = u32 (first + 1);
          snd_mss = tcp_min_mss;
        };
      })
      (record new_segment {
        seq = first;
        flags = record no_flags { syn = true };
        header_len = 24;
        data_bytes = mss_option;
        retransmit_at = u64 (uptime + tcp_retransmit_interval);
        ack_with = u32 (first + 1);
      })

pub fin : ℕ → Socket → Socket
fin uptime s =
    push_and_send
      (record s {
        block = record (s.block) { sending_comp_ack = false; snd_nxt = u32 (s.block.snd_nxt + 1) };
      })
      (record new_segment {
        seq = s.block.snd_nxt;
        ack = s.block.rcv_nxt;
        flags = record no_flags { fin = true; ack = true };
        header_len = 20;
        retransmit_at = u64 (uptime + tcp_retransmit_interval);
        ack_with = u32 (s.block.snd_nxt + 1);
      })

-- What comes of `package` and of `tick`.
pub data Packaged : Type 0 where
  packaged : Socket → Packaged
  panicked : Packaged  -- the assertion that `snd_wnd` is not 0
  unfinished : Packaged  -- out of fuel

-- The length of the next segment, and the segment of the bytes `xs` that were read.
abbrev pub package_size : Socket → ℕ
package_size s = min (min (pos_part (read_available s.tx_buffer)) s.block.snd_wnd) s.block.snd_mss

abbrev pub data_segment : ℕ → Socket → List ℕ → Segment
data_segment uptime s xs = record new_segment {
  seq = s.block.snd_nxt;
  ack = s.block.rcv_nxt;
  flags = record no_flags { psh = true; ack = true };
  header_len = 20;
  data_bytes = xs;
  retransmit_at = u64 (uptime + tcp_retransmit_interval);
  ack_with = u32 (s.block.snd_nxt + length xs);
}

-- The rest of the loop's body, after the read.
pub send_data : ℕ → Socket → CircularBuffer → List ℕ → Socket
unfolding send_segment
send_data uptime s tx xs =
    let s₁ = record s {
      tx_buffer = tx;
      block = record (s.block) {
        snd_nxt = u32 (s.block.snd_nxt + length xs);
        snd_wnd = s.block.snd_wnd - length xs;
      };
    } in
    let s₂ = push_and_send s₁ (data_segment uptime s xs) in
    record s₂ { block = record (s₂.block) { sending_comp_ack = false } }

abbrev pub after_read : ℕ → Socket → Outcome (List ℕ) → Packaged
after_read uptime s (finished tx xs) = packaged (send_data uptime s tx xs)
after_read uptime s (waiting tx xs) = unfinished
after_read uptime s stuck = unfinished

-- The body: no other thread takes from the buffer, so that the read finds its bytes.
pub package_one : ℕ → Socket → Packaged
unfolding send_data
package_one uptime s =
    after_read uptime s
      (read (suc (package_size s)) [] minus_one s.tx_buffer (pos (package_size s)))

-- `while (m_tx_buffer.readAvailable())`
pub package_loop : ℕ → ℕ → Socket → Packaged
package_loop zero uptime s = unfinished
package_loop (suc fuel) uptime s = elim (pos_part (read_available s.tx_buffer) == 0) [
  | true ↦ packaged s
  | false ↦ elim (s.block.snd_wnd == 0) [
    | true ↦ panicked
    | false ↦ elim (package_one uptime s) [
      | packaged s' ↦ package_loop fuel uptime s'
      | panicked ↦ panicked
      | unfinished ↦ unfinished
    ]
  ]
]

-- The acknowledgement that is still owed, after the loop.
pub send_owed_ack : Socket → Socket
send_owed_ack s =
    if s.block.sending_comp_ack
    then (let s' = ack_now s s.block.rcv_nxt in
        record s' { block = record (s'.block) { sending_comp_ack = false } })
    else s

-- `package`. Each round takes a byte or more, so that one more round than there are bytes is enough.
pub package_all : ℕ → Socket → Packaged
package_all uptime s = elim (package_loop (suc (pos_part (read_available s.tx_buffer))) uptime s) [
  | packaged s' ↦ packaged (send_owed_ack s')
  | panicked ↦ panicked
  | unfinished ↦ unfinished
]

-- The loop of `retransmit` over the queue; `seen` are the segments that it has passed.
pub retransmit_loop : ℕ → List Segment → List Segment → Socket → Socket
retransmit_loop uptime seen [] s = record s { retransmission_queue = seen }
retransmit_loop uptime seen (seg ∷ queue) s =
    let seg' = record seg { retries = (seg.retries + 1) % 2 ^ 8 } in
    let seg'' = record seg' { retransmit_at = u64 (seg.retransmit_at + tcp_retransmit_interval) } in
    elim (ltb uptime seg.retransmit_at) [
      | true ↦ retransmit_loop uptime (seen ++ (seg ∷ [])) queue s
      | false ↦ elim (ltb tcp_retries seg'.retries) [
        | true ↦ reset_and_tell s
        | false ↦ retransmit_loop uptime (seen ++ (seg'' ∷ [])) queue (send_segment s seg'')
      ]
    ]

pub retransmit : ℕ → Socket → Socket
retransmit uptime s = retransmit_loop uptime [] s.retransmission_queue s

-- `package` and `retransmit` each ask for the time.
pub tick : ℕ → ℕ → Socket → Packaged
tick uptime uptime' s =
    if s.block.state is closed then packaged s else elim (package_all uptime s) [
      | packaged s' ↦ packaged (retransmit uptime' s')
      | panicked ↦ panicked
      | unfinished ↦ unfinished
    ]

-- ===== src/Net/Tcp/Receive.antt =====
-- `packetReceived`: the reception of a segment outside of LISTEN. The handler is cut where its
-- conditions change the subject; each part goes on with the next one or returns.
pub mod Parts
pub mod States
pub mod Data
pub mod Guard
pub mod Fin
use aexkernel.Base.{
  ℕ, suc, ◌+◌, ◌-◌, ◌*◌, ◌/◌, ◌%◌, ◌^◌, Bool, true, false, ◌&&◌, ◌||◌, not, List, [], ◌∷◌, ◌++◌,
  ltb, leb, ◌==◌, if◌then◌else◌, length, drop,
}
use aexkernel.Base.Int.{pos_part}
use aexkernel.Mem.CircularBuffer.{
  CircularBuffer, Outcome, finished, waiting, stuck, write, write_available,
}
use aexkernel.Net.Sequence.{is_before, is_before_or_equal, is_after_or_equal}
use aexkernel.Net.Tcp.{
  State, syn_sent, syn_received, established, fin_wait_1, fin_wait_2, close_wait, closing, last_ack,
  closed, ◌is◌, Flags, Block, Segment, Socket, u16, u32, tcp_rx_buffer_size, set_state, get_window,
  ack_later, ack_now, close_block, reset, reset_and_tell,
}
use aexkernel.Net.Tcp.Options.{read_options}
use Parts.{Flow, next, return, ◌>>=◌, result}

-- The header's fields, and the whole segment: header, options and data.
pub record Packet : Type 0 where
  pub seq_number : ℕ
  pub ack_number : ℕ
  pub offset : ℕ  -- the upper 4 bits of `goddamned_bitvalues`
  pub flags : Flags
  pub window : ℕ
  pub buffer : List ℕ

abbrev pub hdr_len : Packet → ℕ
hdr_len p = p.offset * 4

-- `len` is a uint16_t, the length of the buffer.
unfoldable pub data_len : Packet → ℕ
data_len p = if leb (length p.buffer) (hdr_len p) then 0 else u16 (length p.buffer - hdr_len p)

abbrev pub data_of : Packet → List ℕ
data_of p = drop (hdr_len p) p.buffer

abbrev pub set_mss : Socket → ℕ → Socket
set_mss s mss = record s { block = record (s.block) { snd_mss = mss } }

-- `if (flags & TCP_RST)`
pub on_rst : Packet → ℕ → Socket → Flow
on_rst p expected s =
    if p.flags.rst
    then return (
        if s.block.state is syn_sent && p.flags.ack && p.ack_number == s.block.snd_nxt
        then (reset s).0
        else if is_after_or_equal p.seq_number expected
            && is_before p.seq_number (u32 (expected + get_window s))
        then (reset s).0
        else s)
    else next s

-- `if (flags & TCP_SYN)`
pub on_syn : Packet → Socket → Flow
on_syn p s =
    let s₁ = record s { block = record (s.block) { rcv_nxt = u32 (p.seq_number + 1) } } in
    next (
      if p.flags.syn && s.block.state is syn_sent
      then set_state (ack_now s₁ s₁.block.rcv_nxt) syn_received
      else s)

-- What the acknowledgement of a segment of the queue does to the connection.
pub on_acked : Segment → Socket → Flow
on_acked seg s =
    if seg.flags.fin
    then (if s.block.state is fin_wait_1
        then next (set_state s fin_wait_2)
        else if s.block.state is last_ack || s.block.state is closing
        then return (set_state (close_block s) closed)
        else next s)
    else if seg.flags.syn && s.block.state is syn_received
    then next (set_state s established)
    else next s

-- The loop over the retransmission queue; `kept` are the segments that it has passed over.
pub ack_queue : ℕ → List Segment → List Segment → Socket → Flow
unfolding on_acked
ack_queue ackn kept [] s = next (record s { retransmission_queue = kept })
ack_queue ackn kept (seg ∷ queue) s = elim (is_before_or_equal seg.ack_with ackn) [
  | false ↦ ack_queue ackn (kept ++ (seg ∷ [])) queue s
  | true ↦ on_acked seg s >>= λ s'. ack_queue ackn kept queue s'
]

-- A number that `snd_nxt` does not have, before the connection stands.
pub on_wrong_ack : Packet → Socket → Flow
on_wrong_ack p s =
    if (s.block.state is syn_sent || s.block.state is syn_received)
      && not (p.ack_number == s.block.snd_nxt)
    then return (
        reset_and_tell (record s {
          block = record (s.block) { snd_nxt = p.ack_number; rcv_nxt = p.seq_number };
        }))
    else next s

abbrev pub acked_block : Packet → Socket → Socket
acked_block p s =
    if is_after_or_equal p.ack_number s.block.snd_una
    then record s { block = record (s.block) { snd_una = p.ack_number; snd_wnd = p.window } }
    else s

-- `if (flags & TCP_ACK)`
pub on_ack : Packet → Socket → Flow
unfolding on_wrong_ack ack_queue
on_ack p s =
    if p.flags.ack
    then (on_wrong_ack p (acked_block p s) >>= λ s'.
        ack_queue p.ack_number [] s'.retransmission_queue s')
    else next s

-- A write into the buffer, which has room for all of it.
abbrev pub buffer_after : CircularBuffer → Outcome ℕ → CircularBuffer
buffer_after cb (finished cb' n) = cb'
buffer_after cb (waiting cb' n) = cb'
buffer_after cb stuck = cb

pub write_data : CircularBuffer → List ℕ → CircularBuffer
write_data cb xs = buffer_after cb (write (suc (length xs)) [] cb xs)

-- The data of the segment that is expected next, and fits.
pub accept_data : Packet → Socket → Socket
unfolding write_data
accept_data p s =
    let rx = if s.block.receive_shut then s.rx_buffer else write_data s.rx_buffer (data_of p) in
    let s₁ = ack_later (record s {
      block = record (s.block) { rcv_nxt = u32 (s.block.rcv_nxt + data_len p) };
      rx_buffer = rx;
    }) in
    if ltb (get_window s₁) (tcp_rx_buffer_size / 2)
    then record s₁ { block = record (s₁.block) { notify_of_window_size = true } }
    else s₁

-- `if (data_len)`
pub on_data : Packet → ℕ → Socket → Flow
unfolding accept_data
on_data p expected s =
    if data_len p == 0
    then next s
    else if p.seq_number == expected
    then (if ltb (pos_part (write_available s.rx_buffer)) (data_len p)
        then return (reset_and_tell s)
        else next (accept_data p s))
    else if is_before_or_equal (u32 (p.seq_number + data_len p)) s.block.rcv_nxt
    then next (ack_now s (u32 (p.seq_number + data_len p)))
    else next s

abbrev past_fin : Socket → Socket
past_fin s =
    ack_later (record s { block = record (s.block) { rcv_nxt = u32 (s.block.rcv_nxt + 1) } })

abbrev shut_receive : Socket → Socket
shut_receive s = record s { block = record (s.block) { receive_shut = true } }

-- `if (flags & TCP_FIN && seqn == expected_seqn)`
pub on_fin : Packet → ℕ → Socket → Socket
on_fin p expected s =
    let s₁ = shut_receive s in
    if p.flags.fin && p.seq_number == expected
    then (if s.block.state is fin_wait_1
        then set_state (past_fin s₁) closing
        else if s.block.state is fin_wait_2
        then past_fin s₁
        else if s.block.state is established
        then set_state (past_fin s₁) close_wait
        else s₁)
    else s

-- The parts in order.
pub receive_segment : Packet → Socket → Socket
receive_segment p s =
    let expected = s.block.rcv_nxt in
    let s₁ = set_mss s (read_options p.buffer (hdr_len p) s.block.snd_mss) in
    result (
      on_rst p expected s₁ >>= λ s₂. on_syn p s₂ >>= λ s₃.
      on_ack p s₃ >>= λ s₄. on_data p expected s₄ >>= λ s₅. next (on_fin p expected s₅))

-- Outside of LISTEN, which Listen has.
pub packet_received : ℕ → ℕ → Packet → Socket → Socket
unfolding receive_segment
packet_received src src_port p s =
    if not (src == s.destination_address) && not (src_port == s.destination_port)
    then s
    else if s.block.state is closed
    then s
    else receive_segment p s

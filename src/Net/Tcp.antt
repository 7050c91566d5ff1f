-- ===== src/Net/Tcp.antt =====
-- The TCP socket of mod/core/netstack/socket/inet/tcp.hpp and tcp.cpp: its data, and the operations
-- that the handlers in the child modules share.
-- A call of `sendSegment` is logged in `sent`. It is taken to find an interface for the peer's address.
-- `m_lock` is let go around it; no other thread is taken to use the socket meanwhile.
-- The events that `raise` wakes threads by have no part in the state.
pub mod Options
pub mod Receive
pub mod Listen
pub mod Send
pub mod Calls
mod Tests
use aexkernel.Base.{
  ℕ, suc, ◌+◌, ◌-◌, ◌*◌, ◌/◌, ◌%◌, ◌^◌, Bool, true, false, ◌&&◌, ◌||◌, not, Option, none, some,
  List, [], ◌∷◌, ◌++◌, ◌==◌, if◌then◌else◌, length, min, max,
}
use aexkernel.Base.Int.{pos_part}
use aexkernel.Mem.CircularBuffer.{CircularBuffer, read_available}

pub data State : Type 0 where
  listen syn_sent syn_received established fin_wait_1 fin_wait_2 close_wait closing last_ack : State
  time_wait closed : State

-- `error_t`, as far as the calls return it.
pub data Error : Type 0 where
  enone einval eisconn enotconn econnrefused epipe : Error

-- The values of `tcp_state_t`.
abbrev pub state_code : State → ℕ
state_code listen = 0
state_code syn_sent = 1
state_code syn_received = 2
state_code established = 3
state_code fin_wait_1 = 4
state_code fin_wait_2 = 5
state_code close_wait = 6
state_code closing = 7
state_code last_ack = 8
state_code time_wait = 9
state_code closed = 10

infix 50 ◌is◌
abbrev pub ◌is◌ : State → State → Bool
a is b = state_code a == state_code b

-- `tcp_flags_t`, a set of bits.
pub record Flags : Type 0 where
  pub fin : Bool
  pub syn : Bool
  pub rst : Bool
  pub psh : Bool
  pub ack : Bool
  pub urg : Bool

abbrev pub no_flags : Flags
no_flags = record { fin = false; syn = false; rst = false; psh = false; ack = false; urg = false }

abbrev pub u16 : ℕ → ℕ
u16 n = n % 2 ^ 16

abbrev pub u32 : ℕ → ℕ
u32 n = n % 2 ^ 32

abbrev pub tcp_retransmit_interval : ℕ
tcp_retransmit_interval = 2000000000

abbrev pub tcp_retries : ℕ
tcp_retries = 5

abbrev pub tcp_tx_buffer_size : ℕ
tcp_tx_buffer_size = 4096

abbrev pub tcp_rx_buffer_size : ℕ
tcp_rx_buffer_size = 8192 + 64

abbrev pub tcp_min_mss : ℕ
tcp_min_mss = 256

abbrev pub tcp_probe_slack : ℕ
tcp_probe_slack = 64

-- `tcp_block`
pub record Block : Type 0 where
  pub state : State
  pub snd_una : ℕ  -- uint32_t
  pub snd_nxt : ℕ  -- uint32_t
  pub snd_wnd : ℕ  -- uint16_t
  pub snd_mss : ℕ  -- uint16_t
  pub rcv_nxt : ℕ  -- uint32_t
  pub sending_comp_ack : Bool
  pub notify_of_window_size : Bool
  pub closing : Bool
  pub send_shut : Bool
  pub receive_shut : Bool

pub record Segment : Type 0 where
  pub seq : ℕ
  pub ack : ℕ
  pub ack_with : ℕ
  pub flags : Flags
  pub retransmit_at : ℕ
  pub retries : ℕ  -- uint8_t
  pub header_len : ℕ
  pub data_bytes : List ℕ  -- `data`, of length `len`

abbrev pub new_segment : Segment
new_segment = record {
  seq = 0;
  ack = 0;
  ack_with = 0;
  flags = no_flags;
  retransmit_at = 0;
  retries = 0;
  header_len = 8;
  data_bytes = [];
}

-- What `sendSegment` hands to the IP layer.
pub record Sent : Type 0 where
  pub segment : Segment
  pub window : ℕ
  pub address : ℕ
  pub port : ℕ

pub record ListenEntry : Type 0 where
  pub source_address : ℕ
  pub source_port : ℕ
  pub block : Block

pub record Socket : Type 0 where
  pub source_port : ℕ
  pub destination_address : ℕ
  pub destination_port : ℕ
  pub block : Block
  pub tx_buffer : CircularBuffer
  pub rx_buffer : CircularBuffer
  pub retransmission_queue : List Segment
  pub listen_queue : Option (List ListenEntry)
  pub accept_queue : Option (List ListenEntry)  -- the entries that its sockets were made from
  pub listen_backlog : ℕ
  pub sent : List Sent

abbrev pub with_block : Socket → Block → Socket
with_block s b = record s { block = b }

abbrev pub set_state : Socket → State → Socket
set_state s st = record s { block = record (s.block) { state = st } }

-- `getWindow`; where it is negative in the source it is 0, as here.
pub get_window : Socket → ℕ
get_window s = tcp_rx_buffer_size - 1 - pos_part (read_available s.rx_buffer) - tcp_probe_slack

pub send_segment_to : Socket → Segment → ℕ → ℕ → Socket
send_segment_to s seg addr port = record s {
  sent =
      s.sent
      ++ (record { segment = seg; window = u16 (get_window s); address = addr; port = port } ∷ []);
}

pub send_segment : Socket → Segment → Socket
unfolding send_segment_to
send_segment s seg = send_segment_to s seg s.destination_address s.destination_port

-- `ack()`
abbrev pub ack_later : Socket → Socket
ack_later s = record s { block = record (s.block) { sending_comp_ack = true } }

-- `ack(manual)`
pub ack_now : Socket → ℕ → Socket
unfolding send_segment
ack_now s manual = send_segment s (record new_segment {
  seq = s.block.snd_nxt;
  ack = manual;
  flags = record no_flags { ack = true };
  header_len = 20;
})

-- `rst()`
pub send_rst : Socket → Socket
unfolding send_segment
send_rst s = send_segment s (record new_segment {
  ack = if s.block.state is syn_received then s.block.rcv_nxt else 0;
  seq = s.block.snd_nxt;
  flags = record no_flags { rst = true };
  header_len = 20;
})

-- `windowUpdate()`
pub window_update : Socket → Socket
unfolding send_segment
window_update s = send_segment s (record new_segment {
  seq = s.block.snd_nxt;
  ack = s.block.rcv_nxt;
  flags = record no_flags { ack = true };
  header_len = 20;
})

-- `_close()`
pub close_block : Socket → Socket
close_block s = record s {
  block = record (s.block) { state = closed; send_shut = true; receive_shut = true };
  listen_queue = none;
  accept_queue = none;
  retransmission_queue = [];
}

-- `reset()`: the verdict says whether the peer is to be told.
pub reset : Socket → Socket × Bool
unfolding close_block
reset s = (
  close_block (record s { block = record (s.block) { closing = true } }),
  not (s.block.closing || s.block.state is listen || s.block.state is closed),
)

-- `bool send_rst = reset(); … if (send_rst) rst();`
pub reset_and_tell : Socket → Socket
unfolding reset send_rst
reset_and_tell s = let (s', send) = reset s in if send then send_rst s' else s'

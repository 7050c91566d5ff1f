-- ===== src/Net/Tcp/Listen.antt =====
-- A listening socket: `listen`, `accept`'s taking of a socket, the table of half-open connections, and
-- `packetReceivedListen`.
-- A socket of the accept queue is the entry that it was made from: its constructor copies the entry's
-- address, port and block, and prints.
pub mod Entries
pub mod Backlog
use aexkernel.Base.{
  ℕ, suc, ◌+◌, ◌-◌, ◌*◌, ◌%◌, ◌^◌, Bool, true, false, ◌&&◌, ◌||◌, not, Option, none, some, List, [],
  ◌∷◌, ◌++◌, ltb, leb, ◌==◌, if◌then◌else◌, length, min,
}
use aexkernel.Mem.CircularBuffer.{resize}
use aexkernel.Net.Sequence.{is_after_or_equal}
use aexkernel.Net.Tcp.{
  Error, enone, eisconn, listen, syn_received, established, closed, ◌is◌, no_flags, Block, Segment,
  new_segment, Socket, ListenEntry, u32, tcp_min_mss, send_segment_to,
}
use aexkernel.Net.Tcp.Options.{read_options}
use aexkernel.Net.Tcp.Receive.{Packet, hdr_len}
use aexkernel.Net.Tcp.Send.{mss_option, initial_number}

-- `listen`; a negative backlog becomes 0, as 0 does. `tx` and `rx` are the storage of size 0.
pub start_listening : ℕ → List ℕ → List ℕ → Socket → Error × Socket
start_listening backlog tx rx s = if not (s.block.state is closed) then (eisconn, s) else (
  enone,
  record s {
    block = record (s.block) { state = listen };
    listen_queue = some [];
    accept_queue = some [];
    listen_backlog = min backlog 128;
    tx_buffer = resize s.tx_buffer tx;
    rx_buffer = resize s.rx_buffer rx;
  },
)

abbrev pub entry_is : ℕ → ℕ → ListenEntry → Bool
entry_is addr port e = e.source_address == addr && e.source_port == port

-- `getListenEntry`
pub get_listen_entry : ℕ → ℕ → List ListenEntry → Option ListenEntry
get_listen_entry addr port [] = none
get_listen_entry addr port (e ∷ es) =
    if entry_is addr port e then some e else get_listen_entry addr port es

-- `removeEntry`
pub remove_entry : ℕ → ℕ → List ListenEntry → List ListenEntry
remove_entry addr port [] = []
remove_entry addr port (e ∷ es) =
    let rest = remove_entry addr port es in if entry_is addr port e then rest else e ∷ rest

-- The block of a new `tcp_block`; its numbers are not initialised in the source, and the handler sets
-- them all.
abbrev pub new_block : ℕ → Packet → Block
new_block uptime p =
    let first = u32 (initial_number uptime + 1) in
    record {
      state = syn_received;
      snd_una = first;
      snd_nxt = first;
      snd_wnd = p.window;
      snd_mss = tcp_min_mss;
      rcv_nxt = u32 (p.seq_number + 1);
      sending_comp_ack = false;
      notify_of_window_size = false;
      closing = false;
      send_shut = false;
      receive_shut = false;
    }

-- `tryCreateListenEntry`, and the filling in of the entry that the handler does where there is none.
pub try_create_listen_entry : ℕ → ℕ → ListenEntry → List ListenEntry → List ListenEntry
unfolding get_listen_entry
try_create_listen_entry addr port e es = elim (get_listen_entry addr port es) [
  | some old ↦ es
  | none ↦ es ++ (e ∷ [])
]

-- What is done to the entry of an address and a port: to the first of them, which a pointer leads to.
pub set_entry : ℕ → ℕ → ListenEntry → List ListenEntry → List ListenEntry
set_entry addr port e [] = []
set_entry addr port e (old ∷ es) =
    if entry_is addr port old then e ∷ es else old ∷ set_entry addr port e es

abbrev syn_ack : Block → Segment
syn_ack b = record new_segment {
  seq = u32 (b.snd_nxt + (2 ^ 32 - 1));
  ack = b.rcv_nxt;
  flags = record no_flags { syn = true; ack = true };
  header_len = 24;
  data_bytes = mss_option;
}

abbrev pub queue_of : Option (List ListenEntry) → List ListenEntry
queue_of (some es) = es
queue_of none = []

abbrev pub answer_entry : ℕ → ℕ → Socket → Option ListenEntry → Socket
answer_entry src src_port s none = s
answer_entry src src_port s (some e) = send_segment_to s (syn_ack e.block) src src_port

-- `if (flags & TCP_SYN)`
pub listen_syn : ℕ → ℕ → ℕ → Packet → Socket → Socket
unfolding try_create_listen_entry send_segment_to get_listen_entry
listen_syn uptime src src_port p s =
    let e : ListenEntry = record {
      source_address = src;
      source_port = src_port;
      block = new_block uptime p;
    } in
    let es = try_create_listen_entry src src_port e (queue_of s.listen_queue) in
    if p.flags.syn
    then answer_entry src src_port (record s { listen_queue = some es })
        (get_listen_entry src src_port es)
    else s

-- The connection stands: the entry becomes a socket that waits for `accept`.
pub establish : ℕ → ℕ → ListenEntry → Socket → Socket
unfolding remove_entry
establish src src_port e s = record s {
  accept_queue = some (
      queue_of s.accept_queue
      ++ (record e { block = record (e.block) { state = established } } ∷ []));
  listen_queue = some (remove_entry src src_port (queue_of s.listen_queue));
  listen_backlog = s.listen_backlog - 1;
}

-- The end of the handler, for the entry that was found.
pub listen_ack : ℕ → ℕ → Packet → ListenEntry → Socket → Socket
unfolding establish set_entry
listen_ack src src_port p e s =
    let e' = record e {
      block = record (e.block) { snd_mss = read_options p.buffer (hdr_len p) e.block.snd_mss };
    } in
    if p.flags.ack
      && e.block.state is syn_received
      && is_after_or_equal p.ack_number e.block.snd_nxt
      && ltb 0 s.listen_backlog
    then establish src src_port e' s
    else record s { listen_queue = some (set_entry src src_port e' (queue_of s.listen_queue)) }

abbrev pub listen_entry_found : ℕ → ℕ → Packet → Socket → Option ListenEntry → Socket
listen_entry_found src src_port p s none = s
listen_entry_found src src_port p s (some e) = listen_ack src src_port p e s

pub packet_received_listen : ℕ → ℕ → ℕ → Packet → Socket → Socket
unfolding listen_syn listen_ack get_listen_entry
packet_received_listen uptime src src_port p s =
    let s₁ = listen_syn uptime src src_port p s in
    if p.flags.rst
    then s
    else listen_entry_found src src_port p s₁
        (get_listen_entry src src_port (queue_of s₁.listen_queue))

-- `accept`, where a socket waits.
abbrev pub accept_from : Socket → List ListenEntry → Option (ListenEntry × Socket)
accept_from s [] = none
accept_from s (e ∷ es) =
    some (e, record s { accept_queue = some es; listen_backlog = s.listen_backlog + 1 })

pub accept_one : Socket → Option (ListenEntry × Socket)
accept_one s = accept_from s (queue_of s.accept_queue)

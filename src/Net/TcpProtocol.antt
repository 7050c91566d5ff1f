-- ===== src/Net/TcpProtocol.antt =====
-- The list of all TCP sockets and the ports that they use: mod/core/netstack/protocol/inet/tcp.cpp.
-- Each operation runs under its lock. The panic of `package` ends a round of `loop`.
mod Tests
use aexkernel.Base.{
  ℕ, zero, suc, ◌+◌, ◌-◌, ◌*◌, ◌/◌, ◌%◌, ◌^◌, Bool, true, false, ◌&&◌, ◌||◌, not, Option, none,
  some, List, [], ◌∷◌, ◌++◌, ltb, leb, ◌==◌, if◌then◌else◌, length, replicate,
}
use aexkernel.Mem.Bitmap.{Word, test_bit, write_bit}
use aexkernel.Net.Tcp.{listen, closed, ◌is◌, Socket}
use aexkernel.Net.Tcp.Receive.{Packet, packet_received}
use aexkernel.Net.Tcp.Listen.{packet_received_listen}
use aexkernel.Net.Tcp.Send.{Packaged, packaged, panicked, unfinished, tick}

pub record Ports : Type 0 where
  pub bitmap : List Word
  pub dynamic_last : ℕ  -- uint16_t

-- What `init` allocates: 2048 words, taken to be clear.
abbrev pub fresh_ports : Ports
fresh_ports = record {
  bitmap = replicate (65536 / 4 / 8) (replicate 32 false);
  dynamic_last = 49151;
}

pub allocate_port : ℕ → Ports → Bool × Ports
allocate_port port s =
    let ii = port / 32 in
    let ib = port % 32 in
    if test_bit s.bitmap ii ib
    then (false, s)
    else (true, record s { bitmap = write_bit s.bitmap ii ib true })

pub free_port : ℕ → Ports → Ports
free_port port s = record s { bitmap = write_bit s.bitmap (port / 32) (port % 32) false }

-- The inner loop of `allocateDynamicPort`: the first clear bit of `left` bits of a word, from `ib` on.
pub first_clear : ℕ → List Word → ℕ → ℕ → Option ℕ
first_clear zero bitmap ii ib = none
first_clear (suc left) bitmap ii ib =
    let rest = first_clear left bitmap ii (ib + 1) in
    if test_bit bitmap ii ib then rest else some ib

abbrev pub take_port : Ports → ℕ → ℕ → Ports
take_port s ii ib = record {
  bitmap = write_bit s.bitmap ii ib true;
  dynamic_last = (ii * 32 + ib) % 2 ^ 16;
}

-- The end of a round: the next word.
abbrev pub next_ii : ℕ → ℕ
next_ii ii = if leb 8192 (ii + 1) then 49152 / 4 else ii + 1

abbrev pub port_found : Ports → ℕ → Option ℕ → Option (ℕ × Ports) → Option (ℕ × Ports)
port_found s ii none next = next
port_found s ii (some ib) next = some ((ii * 32 + ib) % 2 ^ 16, take_port s ii ib)

-- The outer loop; `none` is an access beyond the bitmap, and port 0 that no port was found.
pub dynamic_loop : ℕ → ℕ → ℕ → Ports → Option (ℕ × Ports)
unfolding first_clear
dynamic_loop zero ii ib s = some (0, s)
dynamic_loop (suc left) ii ib s =
    let next = dynamic_loop left (next_ii ii) 0 s in
    if ltb ii (length s.bitmap)
    then port_found s ii (first_clear (32 - ib) s.bitmap ii ib) next
    else none

-- The rounds are those of `for (int i = 49152; i <= 65536; i++)`.
pub allocate_dynamic_port : Ports → Option (ℕ × Ports)
allocate_dynamic_port s =
    let after = (s.dynamic_last + 1) % 2 ^ 16 in
    let start = if after == 0 then 49152 else after in
    dynamic_loop (65536 - 49152 + 1) (start / 32) (start % 32) (record s { dynamic_last = start })

-- The first loop of `packetReceived`: the sockets, and whether one of them has taken the segment.
pub to_connection : ℕ → ℕ → ℕ → Packet → List Socket → Bool × List Socket
to_connection src src_port dst_port p [] = (false, [])
to_connection src src_port dst_port p (s ∷ ss) =
    let (taken, rest) = to_connection src src_port dst_port p ss in
    if not (dst_port == s.source_port)
      || not (src_port == s.destination_port)
      || s.block.state is listen
      || s.block.state is closed
    then (taken, s ∷ rest)
    else (true, packet_received src src_port p s ∷ ss)

-- The second one, for a socket that listens.
pub to_listener : ℕ → ℕ → ℕ → ℕ → Packet → List Socket → List Socket
to_listener uptime src src_port dst_port p [] = []
to_listener uptime src src_port dst_port p (s ∷ ss) =
    let rest = to_listener uptime src src_port dst_port p ss in
    if not (dst_port == s.source_port) || not (s.block.state is listen)
    then s ∷ rest
    else packet_received_listen uptime src src_port p s ∷ ss

-- `TCPProtocol::packetReceived`
pub deliver : ℕ → ℕ → ℕ → ℕ → Packet → List Socket → List Socket
unfolding to_connection to_listener
deliver uptime src src_port dst_port p ss =
    let (taken, ss') = to_connection src src_port dst_port p ss in
    if dst_port == 0
    then ss
    else if taken
    then ss'
    else to_listener uptime src src_port dst_port p ss

-- A round of `loop`; `none` is a panic.
pub tick_all : ℕ → ℕ → List Socket → Option (List Socket)
tick_all uptime uptime' [] = some []
tick_all uptime uptime' (s ∷ ss) = elim (tick uptime uptime' s) [
  | packaged s' ↦ elim (tick_all uptime uptime' ss) [ some ss' ↦ some (s' ∷ ss') | none ↦ none ]
  | panicked ↦ none
  | unfinished ↦ none
]

-- `pushSocket`
pub push_socket : Socket → List Socket → List Socket
push_socket s ss = ss ++ (s ∷ [])

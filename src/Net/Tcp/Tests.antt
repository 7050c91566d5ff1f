-- ===== src/Net/Tcp/Tests.antt =====
-- Runs of the socket, and its theorems at concrete sockets.
use aexkernel.Base.{
  ℕ, ◌≤◌, ◌≡◌, refl, ◌⊎◌, true, false, none, List, [], ◌∷◌, ◌++◌, arith, replicate, length, min,
}
use aexkernel.Mem.CircularBuffer.{CircularBuffer}
use aexkernel.Mem.CircularBuffer.Distance.{IsValid, read_available_lem}
use aexkernel.Net.Tcp.{established, closed, no_flags, Segment, new_segment, Socket, get_window}
use aexkernel.Net.Sequence.{is_before, is_before_or_equal, is_after_or_equal}
use aexkernel.Net.Tcp.Options.{read_options, read_options_loop}
use aexkernel.Net.Tcp.Receive.{Packet, ack_queue, receive_segment, packet_received}
use aexkernel.Net.Tcp.Receive.Parts.{result}
use aexkernel.Net.Tcp.Receive.States.{◌⟶*◌, packet_received_transitions}
use aexkernel.Net.Tcp.Receive.Data.{Grown, receive_segment_stream}
use aexkernel.Net.Tcp.Receive.Guard.{rst_counts, unacked, ack_queue-unacked}
use aexkernel.Net.Tcp.Send.{package_all}
use aexkernel.Net.Tcp.Send.Package.{package_all-Ships}
use aexkernel.Net.Tcp.Send.Rounds.{Ships}
use aexkernel.Net.Tcp.Listen.{start_listening, packet_received_listen, queue_of}
use aexkernel.Net.Tcp.Listen.Backlog.{DistinctEntries, done, more, segment_came, listening_bounded}
use aexkernel.Net.Tcp.Calls.{hung, close}
use aexkernel.Net.Tcp.Calls.Hangup.{close_hangs}

-- 1 and 2, and room for one more byte
abbrev buffered : CircularBuffer
buffered = record { buffer = 1 ∷ 2 ∷ 0 ∷ 0 ∷ []; size = 4; read_pos = 0; write_pos = 2 }

buffered-IsValid : IsValid buffered
buffered-IsValid = omega arith

abbrev sent_once : Segment
sent_once = record new_segment { seq = 90; ack_with = 95; retransmit_at = 1000; retries = 0 }

abbrev sent_often : Segment
sent_often = record new_segment { seq = 95; ack_with = 100; retransmit_at = 1000; retries = 5 }

abbrev connection : Socket
connection = record {
  source_port = 80;
  destination_address = 7;
  destination_port = 4000;
  block = record {
    state = established;
    snd_una = 90;
    snd_nxt = 100;
    snd_wnd = 2;
    snd_mss = 256;
    rcv_nxt = 500;
    sending_comp_ack = false;
    notify_of_window_size = false;
    closing = false;
    send_shut = false;
    receive_shut = false;
  };
  tx_buffer = buffered;
  rx_buffer = buffered;
  retransmission_queue = sent_once ∷ sent_often ∷ [];
  listen_queue = none;
  accept_queue = none;
  listen_backlog = 0;
  sent = [];
}

-- A header of 20 bytes, and a byte of data.
abbrev segment_of_one : Packet
segment_of_one = record {
  seq_number = 500;
  ack_number = 95;
  offset = 5;
  flags = record no_flags { ack = true };
  window = 2;
  buffer = replicate 20 0 ++ (9 ∷ []);
}

abbrev fin_segment : Packet
fin_segment = record segment_of_one { flags = record no_flags { fin = true; ack = true } }

abbrev rst_segment : Packet
rst_segment = record segment_of_one { flags = record no_flags { rst = true } }

abbrev syn_segment : Packet
syn_segment = record segment_of_one { flags = record no_flags { syn = true } }

packet_received_transitions_example :
    established ⟶* (packet_received 7 4000 fin_segment connection).block.state
packet_received_transitions_example = packet_received_transitions 7 4000 fin_segment connection

receive_segment_stream_example :
    Grown buffered false segment_of_one connection.block.rcv_nxt
      (receive_segment segment_of_one connection)
receive_segment_stream_example =
    receive_segment_stream segment_of_one connection buffered-IsValid (omega arith)

-- Of the first of its bytes that a window of 8189 bytes offers, and beyond it.
rst_counts_first : rst_counts rst_segment connection ≡ true
unfolding is_before is_after_or_equal get_window
rst_counts_first = rw (read_available_lem buffered-IsValid) refl

abbrev far_rst : Packet
far_rst = record rst_segment { seq_number = 100000 }

rst_counts_far : rst_counts far_rst connection ≡ false
unfolding is_before is_after_or_equal get_window
rst_counts_far = rw (read_available_lem buffered-IsValid) refl

-- 95 covers the first segment of the queue and not the second.
unacked_second : unacked 95 connection.retransmission_queue ≡ sent_often ∷ []
unfolding is_before_or_equal
unacked_second = refl

ack_queue-unacked_example :
    ((result (ack_queue 95 [] connection.retransmission_queue connection)).retransmission_queue
      ≡ unacked 95 connection.retransmission_queue)
    ⊎ (((result (ack_queue 95 [] connection.retransmission_queue connection)).block.state ≡ closed)
        × ((result
              (ack_queue 95 [] connection.retransmission_queue connection)).retransmission_queue
            ≡ []))
ack_queue-unacked_example = ack_queue-unacked 95 connection

package_all-Ships_example : Ships connection (package_all 5000 connection)
package_all-Ships_example =
    package_all-Ships 5000 connection buffered-IsValid (omega arith) (omega arith) (omega arith)

-- The peer's window is closed.
abbrev shut_window : Socket
shut_window = record connection { block = record (connection.block) { snd_wnd = 0 } }

abbrev patient : Socket
patient = record connection { retransmission_queue = sent_once ∷ [] }

abbrev idle : Socket
idle = record connection { block = record (connection.block) { state = closed } }

abbrev listener : Socket
listener = (start_listening 200 [] [] idle).1

abbrev listened : Socket
listened = packet_received_listen 77777 7 4000 syn_segment listener

listening_bounded_example :
    DistinctEntries listened × (length (queue_of listened.accept_queue) ≤ min 200 128)
listening_bounded_example =
    listening_bounded 200 [] [] idle listened refl
      (more (segment_came {s = listener} 77777 7 4000 syn_segment) done)

close_hangs_example :
    (close 5000 [] (receive_segment fin_segment connection) ≡ hung)
    ⊎ ((receive_segment fin_segment connection).block.state ≡ closed)
close_hangs_example = close_hangs 5000 [] fin_segment connection refl refl refl refl

-- A segment size of 1024.
abbrev mss_header : List ℕ
mss_header = replicate 20 0 ++ (2 ∷ 4 ∷ 4 ∷ 0 ∷ [])

read_options_1024 : read_options mss_header 24 256 ≡ 1024
unfolding read_options read_options_loop
read_options_1024 = refl

-- The same option, behind two NOPs.
abbrev padded_header : List ℕ
padded_header = replicate 20 0 ++ (1 ∷ 1 ∷ 2 ∷ 4 ∷ 4 ∷ 0 ∷ 0 ∷ 0 ∷ [])

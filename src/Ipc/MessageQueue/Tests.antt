-- ===== src/Ipc/MessageQueue/Tests.antt =====
-- A queue with a message of three bytes, and the theorems at it.
use aexkernel.Base.{ℕ, ◌+◌, ◌≡◌, refl, arith, [], ◌∷◌, ◌++◌, length, replicate, length-replicate}
use aexkernel.Base.Int.{pos}
use aexkernel.Ipc.MessageQueue.{
  MessageQueue, returned, read_message, write_message, create_queue, header_bytes,
}
use aexkernel.Ipc.MessageQueue.Order.{write_message-Holds, read_message-Holds}
use aexkernel.Ipc.MessageQueue.Messages.{Message, Holds, create_queue-Holds}

many : (n v : ℕ) → length (replicate n v) ≡ n
many n v = length-replicate n v

abbrev hello : Message
hello = record { pid = 300; bytes = 7 ∷ 8 ∷ 9 ∷ [] }

abbrev empty_queue : MessageQueue
empty_queue = create_queue (replicate 65536 0)

empty_Holds : Holds empty_queue []
empty_Holds = create_queue-Holds (replicate 65536 0) (omega (arith, many 65536 0))

write_message-Holds_example :
    (q' : MessageQueue) × (write_message [] empty_queue 300 (7 ∷ 8 ∷ 9 ∷ []) ≡ returned q' 0)
    × Holds q' (hello ∷ [])
    × (q'.free + 11 ≡ 65535)
write_message-Holds_example = write_message-Holds [] empty_queue [] hello empty_Holds (omega arith)

-- The queue with the message, once and twice.
abbrev one_message : MessageQueue
one_message = record {
  ring = record {
    buffer = header_bytes 300 3 ++ 7 ∷ 8 ∷ 9 ∷ replicate 65525 0;
    size = 65536;
    read_pos = 0;
    write_pos = 11;
  };
  free = 65524;
}

abbrev two_messages : MessageQueue
two_messages = record {
  ring = record {
    buffer = header_bytes 300 3 ++ 7 ∷ 8 ∷ 9 ∷ header_bytes 300 3 ++ 7 ∷ 8 ∷ 9 ∷ replicate 65514 0;
    size = 65536;
    read_pos = 0;
    write_pos = 22;
  };
  free = 65513;
}

one_Holds : Holds one_message (hello ∷ [])
one_Holds = record {
  ring = record {
    valid = record {
      storage = omega (arith, many 65525 0);
      read_in = omega arith;
      write_in = omega arith;
    };
    size = refl;
    bytes_of = refl;
  };
  room = omega arith;
}

two_Holds : Holds two_messages (hello ∷ hello ∷ [])
two_Holds = record {
  ring = record {
    valid = record {
      storage = omega (arith, many 65514 0);
      read_in = omega arith;
      write_in = omega arith;
    };
    size = refl;
    bytes_of = refl;
  };
  room = omega arith;
}

read_message-Holds_example :
    (q' : MessageQueue) × (read_message [] two_messages 3 ≡ returned q' (pos 3, 7 ∷ 8 ∷ 9 ∷ []))
    × Holds q' (hello ∷ [])
    × (q'.free ≡ 65524)
read_message-Holds_example =
    read_message-Holds [] two_messages hello (hello ∷ []) 3 two_Holds (omega arith)

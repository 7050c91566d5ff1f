-- ===== src/Ipc/MessageQueue/Messages.antt =====
-- Messages as bytes, and that the ring of a queue holds them.
use aexkernel.Base.{
  ℕ, ◌+◌, ◌^◌, ◌≤◌, ◌<◌, ◌≡◌, refl, sym, ap, ◌∙◌, arith, true, false, List, [], ◌∷◌, ◌++◌,
  append_assoc, append-nil, length, ltb,
}
use aexkernel.Base.Int.{pos}
use aexkernel.Ipc.MessageQueue.{
  MessageQueue, create_queue, max_waiting_size, bytes_word, header_bytes, header_len,
}
use aexkernel.Ipc.MessageQueue.Rings.{Has}

-- A message: who wrote it, and its bytes.
pub record Message : Type 0 where
  pub pid : ℕ
  pub bytes : List ℕ

abbrev pub encode : Message → List ℕ
encode m = header_bytes m.pid (length m.bytes) ++ m.bytes

abbrev pub encode_all : List Message → List ℕ
encode_all [] = []
encode_all (m ∷ ms) = encode m ++ encode_all ms

-- The ring holds these messages, and the room that is left is counted, if not all of it.
pub record Holds (q : MessageQueue) (ms : List Message) : Type 0 where
  pub ring : Has q.ring (encode_all ms)
  pub room : q.free + length (encode_all ms) ≤ max_waiting_size

pub ge→not_ltb : (m n : ℕ) → m ≤ n → ltb n m ≡ false
ge→not_ltb m n h = ground (arith, h)

pub encode_all-append :
    (ms : List Message) (m : Message) → encode_all (ms ++ m ∷ []) ≡ encode_all ms ++ encode m
encode_all-append [] m = append-nil (encode m)
encode_all-append (n ∷ ms) m =
    ap (λ b. encode n ++ b) (encode_all-append ms m)
    ∙ sym (append_assoc (encode n) (encode_all ms) (encode m))

pub header_len-encode :
    (m : Message)
    → length m.bytes < 2 ^ 31
    → header_len (header_bytes m.pid (length m.bytes)) ≡ pos (length m.bytes)
header_len-encode m h = rw (whole, small) refl
  where
    whole : bytes_word (header_bytes m.pid (length m.bytes)) 4 ≡ length m.bytes
    whole = omega (arith, h)

    small : ltb (length m.bytes) (2 ^ 31) ≡ true
    small = ground (arith, h)

pub create_queue-Holds :
    (storage : List ℕ) → 65536 ≤ length storage → Holds (create_queue storage) []
create_queue-Holds storage h = record {
  ring = record {
    valid = record { storage = h; read_in = omega arith; write_in = omega arith };
    size = refl;
    bytes_of = refl;
  };
  room = omega arith;
}

-- ===== src/Ipc/MessageQueue.antt =====
-- ipc/messagequeue.cpp: messages in a ring of 64 KiB, each behind a header. `m_lock` is held but for
-- the waits, so that what others do to the queue is a list of turns, one for each wait. A call of the
-- ring that waits does so under the lock, and nobody else comes to the ring.
pub mod Rings
pub mod Messages
pub mod Order
mod Tests
use aexkernel.Base.{
  ℕ, zero, suc, ◌+◌, ◌-◌, ◌*◌, ◌/◌, ◌%◌, ◌^◌, min, List, [], ◌∷◌, ◌++◌, ltb, ◌==◌, if◌then◌else◌,
  length, get_or,
}
use aexkernel.Base.Int.{ℤ, pos, minus_one, ◌-ℤ◌, min_ℤ, pos_part}
use aexkernel.Mem.CircularBuffer.{
  CircularBuffer, create, Outcome, finished, waiting, stuck, read, write,
}

abbrev pub max_waiting_size : ℕ
max_waiting_size = 65535

-- No operation takes `m_free` below 0.
pub record MessageQueue : Type 0 where
  pub ring : CircularBuffer
  pub free : ℕ

-- The constructor: the ring is created with the size of 64 KiB.
abbrev pub create_queue : List ℕ → MessageQueue
create_queue storage = record { ring = create storage 65536; free = max_waiting_size }

-- How a call ends: it returns, waits when the turns are over, or waits in the ring.
pub data Ended (A : Type 0) : Type 0 where
  returned : MessageQueue → A → Ended A
  asleep : MessageQueue → Ended A
  hung : Ended A

-- More than the ring has bytes.
abbrev pub ring_fuel : ℕ
ring_fuel = 65537

-- A number of 32 bits in memory, and back.
abbrev pub word_bytes : ℕ → List ℕ
word_bytes n = n % 256 ∷ n / 256 % 256 ∷ n / 65536 % 256 ∷ n / 16777216 % 256 ∷ []

abbrev pub bytes_word : List ℕ → ℕ → ℕ
bytes_word b i =
    get_or b i 0
    + 256 * get_or b (i + 1) 0
    + 65536 * get_or b (i + 2) 0
    + 16777216 * get_or b (i + 3) 0

-- `message_header`
abbrev pub header_bytes : ℕ → ℕ → List ℕ
header_bytes pid len = word_bytes pid ++ word_bytes len

-- `header.len`, an `int`.
abbrev pub header_len : List ℕ → ℤ
header_len b = let n = bytes_word b 4 in if ltb n (2 ^ 31) then pos n else pos n -ℤ pos (2 ^ 32)

-- The loop over what is left of a message, on fuel.
unfoldable pub drain : ℕ → CircularBuffer → ℕ → Outcome (List ℕ)
drain zero cb left = stuck
drain (suc fuel) cb left =
    let rest : Outcome (List ℕ) = elim (read ring_fuel [] minus_one cb (pos (min left 32))) [
      | finished cb' out ↦
          let next = drain fuel cb' (left - min left 32) in
          if length out == 0 then finished cb' [] else next
      | waiting cb' out ↦ waiting cb' out
      | stuck ↦ stuck
    ] in
    if left == 0 then finished cb [] else rest

-- `readMessage` from the header on, and from what follows it on.
unfoldable pub read_body : MessageQueue → ℕ → CircularBuffer → List ℕ → Ended (ℤ × List ℕ)
read_body q len cb header = elim (read ring_fuel [] minus_one cb (pos len)) [
  | finished cb' out ↦ elim (drain max_waiting_size cb' (pos_part (header_len header -ℤ pos len))) [
    | finished cb'' _ ↦
        returned (record { ring = cb''; free = q.free + (len + 8) })
          (min_ℤ (header_len header) (pos len), out)
    | waiting _ _ ↦ hung
    | stuck ↦ hung
  ]
  | waiting _ _ ↦ hung
  | stuck ↦ hung
]

unfoldable pub read_ready : MessageQueue → ℕ → Ended (ℤ × List ℕ)
read_ready q len = elim (read ring_fuel [] minus_one q.ring (pos 8)) [
  | finished cb header ↦ read_body q len cb header
  | waiting _ _ ↦ hung
  | stuck ↦ hung
]

-- The wait of `readMessage`.
unfoldable pub read_wait :
    List (MessageQueue → MessageQueue) → MessageQueue → ℕ → Ended (ℤ × List ℕ)
read_wait [] q len =
    if ltb (max_waiting_size - q.free) (len + 8) then asleep q else read_ready q len
read_wait (t ∷ ts) q len =
    let later = read_wait ts (t q) len in
    if ltb (max_waiting_size - q.free) (len + 8) then later else read_ready q len

unfoldable pub read_message :
    List (MessageQueue → MessageQueue) → MessageQueue → ℕ → Ended (ℤ × List ℕ)
read_message turns q len =
    if ltb max_waiting_size (len + 8) then returned q (pos 0, []) else read_wait turns q len

unfoldable pub write_body : MessageQueue → CircularBuffer → List ℕ → Ended ℕ
write_body q cb xs = elim (write ring_fuel [] cb xs) [
  | finished cb' _ ↦ returned (record { ring = cb'; free = q.free - (length xs + 8) }) 0
  | waiting _ _ ↦ hung
  | stuck ↦ hung
]

-- `writeMessage` when there is room; its result, which C++ has not, is 0.
unfoldable pub write_ready : MessageQueue → ℕ → List ℕ → Ended ℕ
write_ready q pid xs = elim (write ring_fuel [] q.ring (header_bytes pid (length xs))) [
  | finished cb _ ↦ write_body q cb xs
  | waiting _ _ ↦ hung
  | stuck ↦ hung
]

unfoldable pub write_wait : List (MessageQueue → MessageQueue) → MessageQueue → ℕ → List ℕ → Ended ℕ
write_wait [] q pid xs = if ltb q.free (length xs + 8) then asleep q else write_ready q pid xs
write_wait (t ∷ ts) q pid xs =
    let later = write_wait ts (t q) pid xs in
    if ltb q.free (length xs + 8) then later else write_ready q pid xs

unfoldable pub write_message :
    List (MessageQueue → MessageQueue) → MessageQueue → ℕ → List ℕ → Ended ℕ
write_message turns q pid xs =
    if ltb max_waiting_size (length xs + 8) then returned q 0 else write_wait turns q pid xs

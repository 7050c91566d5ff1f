-- ===== src/Ipc/MessageQueue/Order.antt =====
-- A message queue is a queue of messages: what is written comes out in its order, each message by one
-- read.
use aexkernel.Base.{
  ℕ, zero, suc, ◌+◌, ◌-◌, ◌≤◌, ◌<◌, ◌≡◌, refl, sym, ap, ◌∙◌, arith, List, [], ◌∷◌, ◌++◌,
  append_assoc, length, length-append, take, drop, take-append, drop-append, length-drop, take-add,
  drop-add, lt→ltb, replicate,
}
use mathlib.Core.Path.{subst}
use aexkernel.Base.Int.{pos, minus_one, ◌-ℤ◌, min_ℤ, pos_part}
use aexkernel.Mem.CircularBuffer.{CircularBuffer, finished, read, write}
use aexkernel.Ipc.MessageQueue.{
  MessageQueue, returned, asleep, ring_fuel, max_waiting_size, header_bytes, header_len, drain,
  read_body, read_ready, read_wait, read_message, write_body, write_ready, write_wait,
  write_message,
}
use aexkernel.Ipc.MessageQueue.Rings.{Has, read-Has, write-Has, drain-Has}
use aexkernel.Ipc.MessageQueue.Messages.{
  Message, encode, encode_all, Holds, ge→not_ltb, encode_all-append, header_len-encode,
}

write_wait_ready :
    (turns : List (MessageQueue → MessageQueue)) (q : MessageQueue) (pid : ℕ) (xs : List ℕ)
    → length xs + 8 ≤ q.free
    → write_wait turns q pid xs ≡ write_ready q pid xs
unfolding write_wait
write_wait_ready [] q pid xs h = rw (ge→not_ltb (length xs + 8) q.free h) refl
write_wait_ready (t ∷ ts) q pid xs h = rw (ge→not_ltb (length xs + 8) q.free h) refl

write_calls :
    (q : MessageQueue) (pid n n' : ℕ) (xs : List ℕ) (cb cb' : CircularBuffer)
    → write ring_fuel [] q.ring (header_bytes pid (length xs)) ≡ finished cb n
    → write ring_fuel [] cb xs ≡ finished cb' n'
    → write_ready q pid xs ≡ returned (record { ring = cb'; free = q.free - (length xs + 8) }) 0
unfolding write_ready write_body
write_calls q pid n n' xs cb cb' e e' = rw (e, write_ready) (rw (e', write_body) refl)

-- A write for which there is room returns without waiting, and the message is the last of the queue.
pub write_message-Holds :
    (turns : List (MessageQueue → MessageQueue)) (q : MessageQueue) (ms : List Message)
    (m : Message)
    → Holds q ms
    → length m.bytes + 8 ≤ q.free
    → (q' : MessageQueue) × (write_message turns q m.pid m.bytes ≡ returned q' 0)
      × Holds q' (ms ++ m ∷ [])
      × (q'.free + (length m.bytes + 8) ≡ q.free)
unfolding write_message
write_message-Holds turns q ms m h fits =
    let (cb, n, e, r) =
      write-Has q.ring (encode_all ms) (header_bytes m.pid (length m.bytes)) h.ring
        (omega (arith, h.room, fits)) in
    let (cb', n', e', r') =
      write-Has cb (encode_all ms ++ header_bytes m.pid (length m.bytes)) m.bytes r (
        omega (
          arith,
          h.room,
          fits,
          length-append (encode_all ms) (header_bytes m.pid (length m.bytes)),
        )) in
    (
      record { ring = cb'; free = q.free - (length m.bytes + 8) },
      rw
          (
            ge→not_ltb (length m.bytes + 8) max_waiting_size (omega (arith, h.room, fits)),
            write_wait_ready turns q m.pid m.bytes fits,
          )
          (write_calls q m.pid n n' m.bytes cb cb' e e'),
      record {
        ring = subst (λ b. Has cb' b) (whole ms m) r';
        room = omega (
          arith,
          h.room,
          fits,
          ap length (encode_all-append ms m),
          length-append (encode_all ms) (encode m),
          length-append (header_bytes m.pid (length m.bytes)) m.bytes,
        );
      },
      omega (arith, fits),
    )
  where
    whole :
        (ms : List Message) (m : Message)
        → (encode_all ms ++ header_bytes m.pid (length m.bytes)) ++ m.bytes
          ≡ encode_all (ms ++ m ∷ [])
    whole ms m =
        append_assoc (encode_all ms) (header_bytes m.pid (length m.bytes)) m.bytes
        ∙ sym (encode_all-append ms m)

take_short : (n : ℕ) (xs ys : List ℕ) → n ≤ length xs → take n (xs ++ ys) ≡ take n xs
take_short zero xs ys h = refl
take_short (suc n) [] ys h = absurd (omega (arith, h))
take_short (suc n) (x ∷ xs) ys h = ap (λ l. x ∷ l) (take_short n xs ys (omega (arith, h)))

read_wait_ready :
    (turns : List (MessageQueue → MessageQueue)) (q : MessageQueue) (len : ℕ)
    → len + 8 ≤ max_waiting_size - q.free
    → read_wait turns q len ≡ read_ready q len
unfolding read_wait
read_wait_ready [] q len h = rw (ge→not_ltb (len + 8) (max_waiting_size - q.free) h) refl
read_wait_ready (t ∷ ts) q len h = rw (ge→not_ltb (len + 8) (max_waiting_size - q.free) h) refl

read_calls :
    (q : MessageQueue) (len : ℕ) (header out : List ℕ) (cb cb' cb'' : CircularBuffer)
    → read ring_fuel [] minus_one q.ring (pos 8) ≡ finished cb header
    → read ring_fuel [] minus_one cb (pos len) ≡ finished cb' out
    → drain max_waiting_size cb' (pos_part (header_len header -ℤ pos len)) ≡ finished cb'' []
    → read_ready q len
      ≡ returned
          (record { ring = cb''; free = q.free + (len + 8) })
          (min_ℤ (header_len header) (pos len), out)
unfolding read_ready read_body
read_calls q len header out cb cb' cb'' e e' e'' = rw (e, read_ready) (rw (e', e'', read_body) refl)

total :
    (m : Message) (ms : List Message)
    → length (encode_all (m ∷ ms)) ≡ 8 + (length m.bytes + length (encode_all ms))
total m ms = omega (arith, length-append m.bytes (encode_all ms))

-- A read of no more bytes than the queue has behind the first header.
read_message-first :
    (turns : List (MessageQueue → MessageQueue)) (q : MessageQueue) (m : Message)
    (ms : List Message) (len : ℕ)
    → Holds q (m ∷ ms)
    → len ≤ length (m.bytes ++ encode_all ms)
    → (q' : MessageQueue) × (read_message turns q len
        ≡ returned q' (min_ℤ (pos (length m.bytes)) (pos len), take len (m.bytes ++ encode_all ms)))
      × Has q'.ring (drop (len + (length m.bytes - len)) (m.bytes ++ encode_all ms))
      × (q'.free ≡ q.free + (len + 8))
unfolding read_message
read_message-first turns q m ms len h fits =
    let (cb, e, r) = read-Has q.ring (encode_all (m ∷ ms)) 8 h.ring (omega arith) in
    let (cb', e', r') = read-Has cb (m.bytes ++ encode_all ms) len r fits in
    let (cb'', e'', r'') =
      drain-Has max_waiting_size cb' (drop len (m.bytes ++ encode_all ms)) (length m.bytes - len)
        (omega (arith, h.room, total m ms)) r'
        (omega (
          arith,
          fits,
          length-drop len (m.bytes ++ encode_all ms),
          length-append m.bytes (encode_all ms),
        )) in
    (
      record { ring = cb''; free = q.free + (len + 8) },
      rw
          (
            ge→not_ltb (len + 8) max_waiting_size (omega (arith, h.room, fits)),
            read_wait_ready turns q len (omega (arith, h.room, fits)),
          )
          (read_calls q len (header_bytes m.pid (length m.bytes))
              (take len (m.bytes ++ encode_all ms)) cb cb' cb'' e e'
              (ap (λ n. drain max_waiting_size cb' (pos_part (n -ℤ pos len))) its_len
                ∙ ap (λ n. drain max_waiting_size cb' n) (left (length m.bytes))
                ∙ e'')
            ∙ ap
                (λ n.
                  returned (record { ring = cb''; free = q.free + (len + 8) })
                    (min_ℤ n (pos len), take len (m.bytes ++ encode_all ms)))
                its_len),
      subst (λ b. Has cb'' b) (sym (drop-add len (length m.bytes - len) (m.bytes ++ encode_all ms)))
          r'',
      refl,
    )
  where
    its_len : header_len (header_bytes m.pid (length m.bytes)) ≡ pos (length m.bytes)
    its_len = header_len-encode m (omega (arith, h.room, total m ms))

    left : (x : ℕ) → pos_part (pos x -ℤ pos len) ≡ x - len
    left x = ground arith

-- A read of no more bytes than the first message has returns without waiting, with its first bytes and
-- their number; the message is gone whole. The room that is counted grows only by the bytes that were
-- asked for.
pub read_message-Holds :
    (turns : List (MessageQueue → MessageQueue)) (q : MessageQueue) (m : Message)
    (ms : List Message) (len : ℕ)
    → Holds q (m ∷ ms)
    → len ≤ length m.bytes
    → (q' : MessageQueue) × (read_message turns q len ≡ returned q' (pos len, take len m.bytes))
      × Holds q' ms
      × (q'.free ≡ q.free + (len + 8))
read_message-Holds turns q m ms len h fits =
    let (q', e, r, f) =
      read_message-first turns q m ms len h
        (omega (arith, fits, length-append m.bytes (encode_all ms))) in
    (
      q',
      e
          ∙ ap (λ n. returned q' (n, take len (m.bytes ++ encode_all ms)))
              (least (length m.bytes) fits)
          ∙ ap (λ b. returned q' (pos len, b)) (take_short len m.bytes (encode_all ms) fits),
      record {
        ring =
            subst (λ b. Has q'.ring b)
              (ap (λ n. drop n (m.bytes ++ encode_all ms)) (parts (length m.bytes) fits)
                ∙ drop-append m.bytes (encode_all ms))
              r;
        room = omega (arith, h.room, fits, f, total m ms);
      },
      f,
    )
  where
    least : (x : ℕ) → len ≤ x → min_ℤ (pos x) (pos len) ≡ pos len
    least x h = ground (arith, h)

    parts : (x : ℕ) → len ≤ x → len + (x - len) ≡ x
    parts x h = omega (arith, h)

-- A read of more bytes than the first message has, where other messages are behind it, puts bytes of
-- theirs into its buffer, and leaves the ring with what is left of them: the next header is not whole.
pub long_read_takes_next :
    (turns : List (MessageQueue → MessageQueue)) (q : MessageQueue) (m : Message)
    (ms : List Message) (more : ℕ)
    → Holds q (m ∷ ms)
    → more ≤ length (encode_all ms)
    → (q' : MessageQueue) × (read_message turns q (length m.bytes + more)
        ≡ returned q' (pos (length m.bytes), m.bytes ++ take more (encode_all ms)))
      × Has q'.ring (drop more (encode_all ms))
long_read_takes_next turns q m ms more h fits =
    let (q', e, r, f) =
      read_message-first turns q m ms (length m.bytes + more) h
        (omega (arith, fits, length-append m.bytes (encode_all ms))) in
    (
      q',
      e
          ∙ ap (λ n. returned q' (n, take (length m.bytes + more) (m.bytes ++ encode_all ms)))
              (least (length m.bytes))
          ∙ ap (λ b. returned q' (pos (length m.bytes), b))
              (take-add (length m.bytes) more (m.bytes ++ encode_all ms)
                ∙ ap (λ b. b ++ take more (drop (length m.bytes) (m.bytes ++ encode_all ms)))
                    (take-append m.bytes (encode_all ms))
                ∙ ap (λ b. m.bytes ++ take more b) (drop-append m.bytes (encode_all ms))),
      subst (λ b. Has q'.ring b)
          (ap (λ n. drop n (m.bytes ++ encode_all ms)) (none_left (length m.bytes))
            ∙ drop-add (length m.bytes) more (m.bytes ++ encode_all ms)
            ∙ ap (λ b. drop more b) (drop-append m.bytes (encode_all ms)))
          r,
    )
  where
    least : (x : ℕ) → min_ℤ (pos x) (pos (x + more)) ≡ pos x
    least x = ground arith

    none_left : (x : ℕ) → x + more + (x - (x + more)) ≡ x + more
    none_left x = omega arith

write_wait_sleeps :
    (turns : ℕ) (q : MessageQueue) (pid : ℕ) (xs : List ℕ)
    → q.free < length xs + 8
    → write_wait (replicate turns (λ p. p)) q pid xs ≡ asleep q
unfolding write_wait
write_wait_sleeps zero q pid xs h = rw (lt→ltb q.free (length xs + 8) h) refl
write_wait_sleeps (suc turns) q pid xs h =
    rw (lt→ltb q.free (length xs + 8) h) (write_wait_sleeps turns q pid xs h)

-- The one message of a queue whose room is counted right is read with a shorter length: the ring is
-- empty then, but a message that the empty ring has room for waits, however often it looks, where nobody
-- else uses the queue.
pub short_read_loses_room :
    (turns : List (MessageQueue → MessageQueue)) (q : MessageQueue) (m : Message) (len pid idle : ℕ)
    (xs : List ℕ)
    → Holds q (m ∷ [])
    → q.free + length (encode m) ≡ max_waiting_size
    → len < length m.bytes
    → length xs + 8 ≡ max_waiting_size
    → (q' : MessageQueue) × (read_message turns q len ≡ returned q' (pos len, take len m.bytes))
      × Has q'.ring []
      × (write_message (replicate idle (λ p. p)) q' pid xs ≡ asleep q')
unfolding write_message
short_read_loses_room turns q m len pid idle xs h all lt big =
    let (q', e, r, f) = read_message-Holds turns q m [] len h (omega (arith, lt)) in
    (
      q',
      e,
      r.ring,
      rw (ge→not_ltb (length xs + 8) max_waiting_size (omega (arith, big)))
          (write_wait_sleeps idle q' pid xs (omega (arith, f, all, lt, big))),
    )

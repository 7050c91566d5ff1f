-- ===== src/Net/Tcp/Calls/Transfer.antt =====
-- What `sendTo` and `receiveFrom` move where they need not wait.
use aexkernel.Base.{
  ℕ, zero, suc, ◌+◌, ◌-◌, ◌≤◌, ◌<◌, ◌≡◌, refl, ap, ◌∙◌, Bool, true, false, List, [], ◌∷◌, ◌++◌,
  ◌==◌, length, take, drop, min, arith,
}
use aexkernel.Base.Int.{pos, pos_part, minus_one}
use aexkernel.Mem.CircularBuffer.{
  CircularBuffer, Outcome, finished, waiting, stuck, read, read_available, write_available,
}
use aexkernel.Mem.CircularBuffer.Distance.{IsValid}
use aexkernel.Mem.CircularBuffer.Window.{contents}
use aexkernel.Mem.CircularBuffer.Read.{Took, read_ready}
use aexkernel.Net.Tcp.{
  Error, enone, State, established, ◌is◌, Socket, window_update, send_segment, send_segment_to,
}
use aexkernel.Net.Tcp.Receive.Data.{write_data-contents}
use aexkernel.Net.Tcp.Calls.{
  Turn, Call, returned, waits, hung, unfinished, send_some, send_loop, send_to, after_copy, on_read,
  receive_loop, receive_from,
}

suc_ne_zero : (n : ℕ) → (suc n == 0) ≡ false
suc_ne_zero n = ground arith

take-length : (xs : List ℕ) → take (length xs) xs ≡ xs
take-length [] = refl
take-length (x ∷ xs) = ap (λ l. x ∷ l) (take-length xs)

drop-length : (xs : List ℕ) → drop (length xs) xs ≡ []
drop-length [] = refl
drop-length (x ∷ xs) = drop-length xs

-- A round with room.
send_round :
    (fuel : ℕ) (ts : List Turn) (n x : ℕ) (r : List ℕ) (s : Socket)
    → s.block.send_shut ≡ false
    → pos_part (write_available s.tx_buffer) == 0 ≡ false
    → (let av = min (pos_part (write_available s.tx_buffer)) (length (x ∷ r)) in
        send_loop (suc fuel) ts n (x ∷ r) s
        ≡ send_loop fuel ts n (drop av (x ∷ r)) (send_some (take av (x ∷ r)) s))
unfolding send_loop
send_round fuel ts n x r s h e = rw (h, e) refl

send_loop-fits :
    (fuel : ℕ) (ts : List Turn) (n x : ℕ) (r : List ℕ) (s : Socket)
    → s.block.send_shut ≡ false
    → length (x ∷ r) ≤ pos_part (write_available s.tx_buffer)
    → send_loop (suc (suc fuel)) ts n (x ∷ r) s ≡ returned (send_some (x ∷ r) s) (enone, n)
send_loop-fits fuel ts n x r s h l =
    let all : min (pos_part (write_available s.tx_buffer)) (length (x ∷ r)) ≡ length (x ∷ r) =
      omega arith in
    send_round (suc fuel) ts n x r s h (ground (arith, l))
    ∙ ap (λ k. send_loop (suc fuel) ts n (drop k (x ∷ r)) (send_some (take k (x ∷ r)) s)) all
    ∙ ap (λ ys. send_loop (suc fuel) ts n ys (send_some (take (length (x ∷ r)) (x ∷ r)) s))
        (drop-length (x ∷ r))
    ∙ ap (λ ys. send_loop (suc fuel) ts n [] (send_some ys s)) (take-length (x ∷ r))
    ∙ unfold send_loop in refl

send_loop-enough :
    (fuel : ℕ) (ts : List Turn) (n x : ℕ) (r : List ℕ) (s : Socket)
    → 1 < fuel
    → s.block.send_shut ≡ false
    → length (x ∷ r) ≤ pos_part (write_available s.tx_buffer)
    → send_loop fuel ts n (x ∷ r) s ≡ returned (send_some (x ∷ r) s) (enone, n)
send_loop-enough zero ts n x r s f h l = absurd (omega arith)
send_loop-enough (suc zero) ts n x r s f h l = absurd (omega arith)
send_loop-enough (suc (suc fuel)) ts n x r s f h l = send_loop-fits fuel ts n x r s h l

send_to-loop :
    (ts : List Turn) (xs : List ℕ) (s : Socket)
    → length xs == 0 ≡ false
    → s.block.send_shut ≡ false
    → s.block.state is established ≡ true
    → send_to ts false xs s ≡ send_loop (suc (length xs + length ts)) ts (length xs) xs s
unfolding send_to
send_to-loop ts xs s z h e = rw (z, h, e) refl

receive_from-loop :
    (ts : List Turn) (w : Bool) (len : ℕ) (s : Socket)
    → len == 0 ≡ false
    → s.block.state is established ≡ true
    → receive_from ts false w len s ≡ receive_loop (suc (len + length ts)) ts w len [] s
unfolding receive_from
receive_from-loop ts w len s z e = rw (z, e) refl

is_established : {st : State} → st ≡ established → st is established ≡ true
is_established e = rw e refl

-- On an ESTABLISHED connection that may send, `sendTo` of bytes that fit into the room of a valid
-- transmit buffer returns at once with their number, whatever the turns: the buffer stays valid, and
-- its contents grow by exactly those bytes, in order.
pub send_to_fits :
    (ts : List Turn) (x : ℕ) (r : List ℕ) (s : Socket)
    → s.block.state ≡ established
    → s.block.send_shut ≡ false
    → IsValid s.tx_buffer
    → length (x ∷ r) ≤ pos_part (write_available s.tx_buffer)
    → (send_to ts false (x ∷ r) s ≡ returned (send_some (x ∷ r) s) (enone, length (x ∷ r)))
      × IsValid (send_some (x ∷ r) s).tx_buffer
      × (contents (send_some (x ∷ r) s).tx_buffer ≡ contents s.tx_buffer ++ (x ∷ r))
send_to_fits ts x r s e h v l =
    let (v', c) = write_data-contents s.tx_buffer (x ∷ r) v l in
    (
      send_to-loop ts (x ∷ r) s (suc_ne_zero (length r)) h (is_established e)
          ∙ send_loop-enough (suc (length (x ∷ r) + length ts)) ts (length (x ∷ r)) x r s
              (omega arith) h l,
      v',
      c,
    )

-- The call has returned with `len` bytes, which were at the front of the buffer.
abbrev pub Received : Socket → ℕ → List ℕ → Call (Error × List ℕ) → Type 0
Received s len out (returned s' (e, xs)) =
    (e ≡ enone)
    × (length xs ≡ length out + len)
    × IsValid s'.rx_buffer
    × (xs ++ contents s'.rx_buffer ≡ out ++ contents s.rx_buffer)
Received s len out (waits s') = ⊥
Received s len out hung = ⊥
Received s len out unfinished = ⊥

rx-after_copy : (rx : CircularBuffer) (s : Socket) → (after_copy rx s).rx_buffer ≡ rx
unfolding after_copy window_update send_segment send_segment_to
rx-after_copy rx s = ground arith

-- A round with bytes in the buffer.
receive_copies :
    (fuel : ℕ) (ts : List Turn) (w : Bool) (l : ℕ) (s : Socket)
    → pos_part (read_available s.rx_buffer) == 0 ≡ false
    → (let av = min (pos_part (read_available s.rx_buffer)) (suc l) in
        receive_loop (suc fuel) ts w (suc l) [] s
        ≡ on_read
            (read (suc av) [] minus_one s.rx_buffer (pos av))
            (λ rx xs. receive_loop fuel ts w (suc l - av) xs (after_copy rx s)))
unfolding receive_loop
receive_copies fuel ts w l s e = rw (e, receive_loop) refl

-- The round after it, with nothing left to ask for.
Received-on_read :
    (fuel : ℕ) (ts : List Turn) (w : Bool) (len rest : ℕ) (s : Socket) (o : Outcome (List ℕ))
    → rest ≡ 0
    → Took s.rx_buffer len [] o
    → Received s len []
        (on_read o (λ rx xs. receive_loop (suc fuel) ts w rest xs (after_copy rx s)))
unfolding receive_loop
Received-on_read fuel ts w len rest s (finished rx xs) z (v, e, n) =
    rw (z, receive_loop, rx-after_copy rx s) (refl, n, v, e)
Received-on_read fuel ts w len rest s (waiting rx xs) z g = absurd g
Received-on_read fuel ts w len rest s stuck z g = absurd g

receive_round :
    (fuel : ℕ) (ts : List Turn) (w : Bool) (l : ℕ) (s : Socket)
    → IsValid s.rx_buffer
    → suc l ≤ pos_part (read_available s.rx_buffer)
    → Received s (suc l) [] (receive_loop (suc (suc fuel)) ts w (suc l) [] s)
receive_round fuel ts w l s v h =
    let av = min (pos_part (read_available s.rx_buffer)) (suc l) in
    let all : av ≡ suc l = omega arith in
    rw (receive_copies (suc fuel) ts w l s (ground (arith, h)), all)
      (Received-on_read fuel ts w (suc l) (suc l - suc l) s _ (omega arith)
        (read_ready (suc (suc l)) [] minus_one (suc l) v h (omega arith)))

receive_enough :
    (fuel : ℕ) (ts : List Turn) (w : Bool) (l : ℕ) (s : Socket)
    → 1 < fuel
    → IsValid s.rx_buffer
    → suc l ≤ pos_part (read_available s.rx_buffer)
    → Received s (suc l) [] (receive_loop fuel ts w (suc l) [] s)
receive_enough zero ts w l s f v h = absurd (omega arith)
receive_enough (suc zero) ts w l s f v h = absurd (omega arith)
receive_enough (suc (suc fuel)) ts w l s f v h = receive_round fuel ts w l s v h

-- On an ESTABLISHED connection, `receiveFrom` of no more bytes than a valid receive buffer holds
-- returns at once, whatever the turns and the flags: with as many bytes as were asked for, which,
-- followed by what is left, are what the buffer held.
pub receive_from_ready :
    (ts : List Turn) (w : Bool) (l : ℕ) (s : Socket)
    → s.block.state ≡ established
    → IsValid s.rx_buffer
    → suc l ≤ pos_part (read_available s.rx_buffer)
    → Received s (suc l) [] (receive_from ts false w (suc l) s)
receive_from_ready ts w l s e v h =
    rw (receive_from-loop ts w (suc l) s (suc_ne_zero l) (is_established e))
      (receive_enough (suc (suc l + length ts)) ts w l s (omega arith) v h)

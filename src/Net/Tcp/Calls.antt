-- ===== src/Net/Tcp/Calls.antt =====
-- The calls that programs make on a socket: `connect`, `bind`, `sendTo`, `receiveFrom`, `shutdown` and
-- `close`. Where a call waits for an event it lets go of `m_lock`; a list of turns says what others do
-- to the socket in each wait, and what time it is after it. `hung` is a thread that waits for a lock
-- that it holds itself.
pub mod Hangup
pub mod Transfer
use aexkernel.Base.{
  ℕ, zero, suc, ◌+◌, ◌-◌, ◌*◌, ◌/◌, ◌%◌, ◌^◌, Bool, true, false, ◌&&◌, ◌||◌, not, Option, none,
  some, List, [], ◌∷◌, ◌++◌, ltb, ◌==◌, if◌then◌else◌, length, min, take, drop,
}
use aexkernel.Base.Int.{pos, pos_part, minus_one}
use aexkernel.Mem.CircularBuffer.{
  CircularBuffer, Outcome, finished, waiting, stuck, read, read_available, write_available,
}
use aexkernel.Net.Tcp.{
  Error, enone, einval, eisconn, enotconn, econnrefused, epipe, State, listen, syn_sent,
  syn_received, established, fin_wait_1, fin_wait_2, close_wait, last_ack, closed, ◌is◌, Socket,
  set_state, reset_and_tell, window_update,
}
use aexkernel.Net.Tcp.Receive.{write_data}
use aexkernel.Net.Tcp.Send.{clear_state, syn, fin, u64}

pub record Turn : Type 0 where
  pub others : Socket → Socket
  pub time : ℕ  -- after it

pub data Call (A : Type 0) : Type 0 where
  returned : Socket → A → Call A
  waits : Socket → Call A  -- the turns are over
  hung : Call A
  unfinished : Call A  -- out of fuel

abbrev pub tcp_connection_timeout : ℕ
tcp_connection_timeout = 7000000000

-- `connect`, after the wait.
pub connected : Socket → Call Error
connected s =
    if s.block.state is established
      || s.block.state is fin_wait_1
      || s.block.state is fin_wait_2
      || s.block.state is close_wait
    then returned s enone
    else returned (reset_and_tell s) econnrefused

-- The wait of `connect`; `now` is the time at the test.
pub connect_wait : ℕ → ℕ → List Turn → Socket → Call Error
unfolding connected
connect_wait timeout_at now [] s =
    if not (s.block.state is established) && not (s.block.state is closed) && ltb now timeout_at
    then waits s
    else connected s
connect_wait timeout_at now (t ∷ ts) s =
    let again = connect_wait timeout_at t.time ts (t.others s) in
    if not (s.block.state is established) && not (s.block.state is closed) && ltb now timeout_at
    then again
    else connected s

-- `connect`, to an address and a port; without them its pointer is null.
pub connect : ℕ → List ℕ → List ℕ → Option (ℕ × ℕ) → List Turn → Socket → Call Error
unfolding connect_wait
connect uptime tx rx none ts s = returned s einval
connect uptime tx rx (some (addr, port)) ts s =
    let s₁ = record s { destination_address = addr; destination_port = port } in
    let s₂ = set_state (clear_state tx rx s₁) syn_sent in
    if not (s.block.state is closed)
    then returned s eisconn
    else connect_wait (u64 (uptime + tcp_connection_timeout)) uptime ts (syn uptime s₂)

-- The source address is taken by the IP layer from the interface, and has no part in the state.
pub bind : Option ℕ → Socket → Error × Socket
bind none s = (einval, s)
bind (some port) s = (enone, record s { source_port = port })

-- A round of `sendTo` that has room in the buffer.
abbrev pub send_some : List ℕ → Socket → Socket
send_some xs s = record s { tx_buffer = write_data s.tx_buffer xs }

-- The loop of `sendTo`; `req_len` is the number that it returns.
pub send_loop : ℕ → List Turn → ℕ → List ℕ → Socket → Call (Error × ℕ)
send_loop zero ts req_len xs s = unfinished
send_loop (suc fuel) ts req_len [] s = returned s (enone, req_len)
send_loop (suc fuel) ts req_len (x ∷ r) s =
    let xs = x ∷ r in
    let av = min (pos_part (write_available s.tx_buffer)) (length xs) in
    let sent = send_loop fuel ts req_len (drop av xs) (send_some (take av xs) s) in
    let idle : Call (Error × ℕ) = elim ts [
      | [] ↦ waits s
      | t ∷ ts' ↦ send_loop fuel ts' req_len xs (t.others s)
    ] in
    if s.block.send_shut
    then returned s (enone, req_len)
    else if pos_part (write_available s.tx_buffer) == 0
    then idle
    else sent

-- `sendTo`; `dst` says that a destination is given. Each round writes a byte or takes a turn.
pub send_to : List Turn → Bool → List ℕ → Socket → Call (Error × ℕ)
send_to ts dst xs s =
    if length xs == 0
    then returned s (einval, 0)
    else if s.block.send_shut
    then returned s (epipe, 0)
    else if dst
    then returned s (eisconn, 0)
    else if not (s.block.state is established)
    then returned s (enotconn, 0)
    else send_loop (suc (length xs + length ts)) ts (length xs) xs s

-- After the bytes were copied: the peer is told of the larger window, where it is to be.
pub after_copy : CircularBuffer → Socket → Socket
after_copy rx s =
    let s₁ = record s { rx_buffer = rx } in
    if s.block.notify_of_window_size
    then window_update (record s₁ { block = record (s₁.block) { notify_of_window_size = false } })
    else s₁

-- The read out of the buffer, which holds what is asked for.
abbrev pub on_read :
    Outcome (List ℕ) → (CircularBuffer → List ℕ → Call (Error × List ℕ)) → Call (Error × List ℕ)
on_read (finished rx xs) k = k rx xs
on_read (waiting rx xs) k = unfinished
on_read stuck k = unfinished

-- The loop of `receiveFrom`; `out` is what was read, and `len` what is still asked for.
pub receive_loop : ℕ → List Turn → Bool → ℕ → List ℕ → Socket → Call (Error × List ℕ)
unfolding after_copy
receive_loop zero ts waitall len out s = unfinished
receive_loop (suc fuel) ts waitall zero out s = returned s (enone, out)
receive_loop (suc fuel) ts waitall (suc l) out s =
    let av = min (pos_part (read_available s.rx_buffer)) (suc l) in
    let copied =
      on_read (read (suc av) [] minus_one s.rx_buffer (pos av))
        (λ rx xs. receive_loop fuel ts waitall (suc l - av) (out ++ xs) (after_copy rx s)) in
    let idle : Call (Error × List ℕ) = elim ts [
      | [] ↦ waits s
      | t ∷ ts' ↦ receive_loop fuel ts' waitall (suc l) out (t.others s)
    ] in
    if pos_part (read_available s.rx_buffer) == 0
    then (if not waitall && ltb 0 (length out) || s.block.receive_shut
        then returned s (enone, out)
        else idle)
    else copied

-- `receiveFrom`; `src` says that an address to fill in is given.
pub receive_from : List Turn → Bool → Bool → ℕ → Socket → Call (Error × List ℕ)
receive_from ts src waitall len s =
    if len == 0
    then returned s (einval, [])
    else if src
    then returned s (eisconn, [])
    else if not (s.block.state is established)
    then returned s (enotconn, [])
    else receive_loop (suc (len + length ts)) ts waitall len [] s

-- `fin()`, which takes `m_lock`, called by a thread that holds it or does not.
abbrev pub call_fin : Bool → ℕ → Socket → Option Socket
call_fin held uptime s = if held then none else some (fin uptime s)

-- The wait of `shutdown` and of `close` for the end of the connection.
pub wait_closed : List Turn → Socket → Call Error
wait_closed [] s = if s.block.state is closed then returned s enone else waits s
wait_closed (t ∷ ts) s =
    let again = wait_closed ts (t.others s) in
    if s.block.state is closed then returned s enone else again

abbrev pub wait_after_fin : List Turn → Option Socket → Call Error
wait_after_fin ts none = hung
wait_after_fin ts (some s) = wait_closed ts s

-- The FIN of `shutdown`.
pub shutdown_sends : ℕ → List Turn → Socket → Call Error
unfolding wait_closed
shutdown_sends uptime ts s =
    let s₁ =
      if s.block.state is established
      then set_state s fin_wait_1
      else if s.block.state is close_wait
      then set_state s last_ack
      else s in
    wait_after_fin ts (call_fin false uptime s₁)

-- The wait of `shutdown` until all is sent and acknowledged.
pub shutdown_drains : ℕ → List Turn → Socket → Call Error
unfolding shutdown_sends
shutdown_drains uptime [] s =
    if not (pos_part (read_available s.tx_buffer) == 0) || not (s.block.snd_una == s.block.snd_nxt)
    then waits s
    else shutdown_sends uptime [] s
shutdown_drains uptime (t ∷ ts) s =
    let again = shutdown_drains t.time ts (t.others s) in
    if not (pos_part (read_available s.tx_buffer) == 0) || not (s.block.snd_una == s.block.snd_nxt)
    then again
    else shutdown_sends uptime (t ∷ ts) s

-- The bits of `how`.
abbrev pub shut_rd : ℕ → Bool
shut_rd how = how % 2 == 1

abbrev pub shut_wr : ℕ → Bool
shut_wr how = how / 2 % 2 == 1

pub shutdown : ℕ → List Turn → ℕ → Socket → Call Error
unfolding shutdown_drains
shutdown uptime ts how s =
    let s₁ =
      if shut_rd how then record s { block = record (s.block) { receive_shut = true } } else s in
    let s₂ = record s₁ { block = record (s₁.block) { send_shut = true } } in
    if how == 0
    then returned s einval
    else if s.block.state is listen
        || s.block.state is syn_sent
        || s.block.state is syn_received
        || s.block.state is closed
    then returned s enotconn
    else if shut_wr how && not s.block.send_shut
    then shutdown_drains uptime ts s₂
    else returned s₁ enone

-- `close`, which holds `m_lock` where it calls `fin()`.
pub close : ℕ → List Turn → Socket → Call Error
unfolding wait_closed
close uptime ts s =
    if s.block.state is close_wait
    then wait_after_fin ts (call_fin true uptime s)
    else if s.block.state is last_ack || s.block.state is closed
    then wait_closed ts s
    else wait_closed ts (reset_and_tell s)

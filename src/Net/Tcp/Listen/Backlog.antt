-- ===== src/Net/Tcp/Listen/Backlog.antt =====
-- What a listening socket comes to: its half-open connections and the sockets that wait for `accept`.
use aexkernel.Base.{
  ℕ, ◌+◌, ◌≤◌, ◌≡◌, refl, ◌∙◌, true, ◌&&◌, inl, inr, Option, none, some, List, [], ◌∷◌, ◌==◌,
  Bool-cases, length, length-append, min, arith,
}
use aexkernel.Net.Tcp.{ListenEntry, Socket, send_segment_to, established, closed}
use aexkernel.Net.Tcp.Receive.{Packet, hdr_len}
use aexkernel.Net.Tcp.Options.{read_options}
use aexkernel.Net.Tcp.Listen.{
  new_block, entry_is, get_listen_entry, try_create_listen_entry, queue_of, listen_syn, listen_ack,
  establish, answer_entry, listen_entry_found, packet_received_listen, accept_from, accept_one,
  start_listening,
}
use aexkernel.Net.Tcp.Listen.Entries.{
  Distinct, entry_is-get, Distinct-set_entry, Distinct-remove_entry, Distinct-try_create,
}

-- Places for connections that nobody has accepted yet, taken or not.
abbrev pub places : Socket → ℕ
places s = length (queue_of s.accept_queue) + s.listen_backlog

abbrev pub DistinctEntries : Socket → Type 0
DistinctEntries s = Distinct (queue_of s.listen_queue)

-- The answer to a SYN leaves the two queues and the backlog alone.
answer_entry-keeps :
    (src src_port : ℕ) (s : Socket) (o : Option ListenEntry)
    → ((answer_entry src src_port s o).listen_queue ≡ s.listen_queue)
      × (places (answer_entry src src_port s o) ≡ places s)
unfolding send_segment_to
answer_entry-keeps src src_port s none = (refl, refl)
answer_entry-keeps src src_port s (some e) = (refl, refl)

listen_syn-Distinct :
    (uptime src src_port : ℕ) (p : Packet) (s : Socket)
    → DistinctEntries s
    → DistinctEntries (listen_syn uptime src src_port p s)
unfolding listen_syn
listen_syn-Distinct uptime src src_port p s d =
    let e : ListenEntry = record {
      source_address = src;
      source_port = src_port;
      block = new_block uptime p;
    } in
    let es = try_create_listen_entry src src_port e (queue_of s.listen_queue) in
    elim (Bool-cases p.flags.syn) [
      | inl t ↦
          rw
            (
              t,
              (answer_entry-keeps src src_port (record s { listen_queue = some es })
                  (get_listen_entry src src_port es)).0,
            )
            (Distinct-try_create src src_port e (queue_of s.listen_queue) d (own_key src src_port))
      | inr t ↦ rw t d
    ]
  where
    own_key : (a p : ℕ) → (a == a) && (p == p) ≡ true
    own_key a p = ground arith

listen_syn-places :
    (uptime src src_port : ℕ) (p : Packet) (s : Socket)
    → places (listen_syn uptime src src_port p s) ≡ places s
unfolding listen_syn
listen_syn-places uptime src src_port p s =
    let e : ListenEntry = record {
      source_address = src;
      source_port = src_port;
      block = new_block uptime p;
    } in
    let es = try_create_listen_entry src src_port e (queue_of s.listen_queue) in
    elim (Bool-cases p.flags.syn) [
      | inl t ↦
          rw t
            (answer_entry-keeps src src_port (record s { listen_queue = some es })
              (get_listen_entry src src_port es)).1
      | inr t ↦ rw t refl
    ]

listen_ack-Distinct :
    (src src_port : ℕ) (p : Packet) (e : ListenEntry) (s : Socket)
    → entry_is src src_port e ≡ true
    → DistinctEntries s
    → DistinctEntries (listen_ack src src_port p e s)
unfolding listen_ack establish
listen_ack-Distinct src src_port p e s h d = ground (
  arith,
  h,
  Distinct-remove_entry src src_port (queue_of s.listen_queue) d,
  Distinct-set_entry src src_port
      (record e {
        block = record (e.block) { snd_mss = read_options p.buffer (hdr_len p) e.block.snd_mss };
      })
      (queue_of s.listen_queue) d h,
)

listen_ack-places :
    (src src_port : ℕ) (p : Packet) (e : ListenEntry) (s : Socket)
    → places (listen_ack src src_port p e s) ≡ places s
unfolding listen_ack establish
listen_ack-places src src_port p e s = ground (
  arith,
  length-append (queue_of s.accept_queue) (
      record e {
        block = record (e.block) {
          state = established;
          snd_mss = read_options p.buffer (hdr_len p) e.block.snd_mss;
        };
      }
      ∷ []),
)

-- The end of the handler, with the entry that was looked up.
listen_entry_found-Distinct :
    (src src_port : ℕ) (p : Packet) (s : Socket) (o : Option ListenEntry)
    → get_listen_entry src src_port (queue_of s.listen_queue) ≡ o
    → DistinctEntries s
    → DistinctEntries (listen_entry_found src src_port p s o)
listen_entry_found-Distinct src src_port p s none h d = d
listen_entry_found-Distinct src src_port p s (some e) h d =
    listen_ack-Distinct src src_port p e s (entry_is-get src src_port (queue_of s.listen_queue) e h)
      d

listen_entry_found-places :
    (src src_port : ℕ) (p : Packet) (s : Socket) (o : Option ListenEntry)
    → places (listen_entry_found src src_port p s o) ≡ places s
listen_entry_found-places src src_port p s none = refl
listen_entry_found-places src src_port p s (some e) = listen_ack-places src src_port p e s

packet_received_listen-Distinct :
    (uptime src src_port : ℕ) (p : Packet) (s : Socket)
    → DistinctEntries s
    → DistinctEntries (packet_received_listen uptime src src_port p s)
unfolding packet_received_listen
packet_received_listen-Distinct uptime src src_port p s d =
    let s₁ = listen_syn uptime src src_port p s in
    elim (Bool-cases p.flags.rst) [
      | inl r ↦ rw r d
      | inr r ↦ rw r (
          listen_entry_found-Distinct src src_port p s₁
            (get_listen_entry src src_port (queue_of s₁.listen_queue)) refl
            (listen_syn-Distinct uptime src src_port p s d))
    ]

packet_received_listen-places :
    (uptime src src_port : ℕ) (p : Packet) (s : Socket)
    → places (packet_received_listen uptime src src_port p s) ≡ places s
unfolding packet_received_listen
packet_received_listen-places uptime src src_port p s =
    let s₁ = listen_syn uptime src src_port p s in
    elim (Bool-cases p.flags.rst) [
      | inl r ↦ rw r refl
      | inr r ↦ rw r (
          listen_entry_found-places src src_port p s₁
            (get_listen_entry src src_port (queue_of s₁.listen_queue))
          ∙ listen_syn-places uptime src src_port p s)
    ]

-- What happens to a listening socket: a segment, whatever its source and its time, or a call of
-- `accept` that returns.
infix 40 ◌⇒◌ ◌⇒*◌
pub data ◌⇒◌ : Socket → Socket → Type 0 where
  segment_came :
      {s : Socket} (uptime src src_port : ℕ) (p : Packet)
      → s ⇒ packet_received_listen uptime src src_port p s
  accepted : {s s' : Socket} (e : ListenEntry) → accept_one s ≡ some (e, s') → s ⇒ s'

pub data ◌⇒*◌ : Socket → Socket → Type 0 where
  done : {s : Socket} → s ⇒* s
  more : {s t u : Socket} → s ⇒ t → t ⇒* u → s ⇒* u

accept_from-keeps :
    (s s' : Socket) (e : ListenEntry) (es : List ListenEntry)
    → accept_from s es ≡ some (e, s')
    → (s'.listen_queue ≡ s.listen_queue)
      × (s'.listen_backlog + length (queue_of s'.accept_queue) ≡ length es + s.listen_backlog)
accept_from-keeps s s' e [] h = ground (arith, h)
accept_from-keeps s s' e (x ∷ es) h = ground (arith, h)

accept_one-keeps :
    (s s' : Socket) (e : ListenEntry)
    → accept_one s ≡ some (e, s')
    → (s'.listen_queue ≡ s.listen_queue) × (places s' ≡ places s)
unfolding accept_one
accept_one-keeps s s' e h =
    let (q, p) = accept_from-keeps s s' e (queue_of s.accept_queue) h in (q, omega (arith, p))

step-keeps :
    {s s' : Socket} → s ⇒ s' → DistinctEntries s → DistinctEntries s' × (places s' ≡ places s)
step-keeps {s} (segment_came uptime src src_port p) d = (
  packet_received_listen-Distinct uptime src src_port p s d,
  packet_received_listen-places uptime src src_port p s,
)
step-keeps {s} {s'} (accepted e h) d = let (q, p) = accept_one-keeps s s' e h in (rw q d, p)

steps-keep :
    {s s' : Socket} → s ⇒* s' → DistinctEntries s → DistinctEntries s' × (places s' ≡ places s)
steps-keep done d = (d, refl)
steps-keep (more p ps) d =
    let (d', e) = step-keeps p d in let (d'', e') = steps-keep ps d' in (d'', e' ∙ e)

start_listening_lem :
    (backlog : ℕ) (tx rx : List ℕ) (s : Socket)
    → s.block.state ≡ closed
    → DistinctEntries (start_listening backlog tx rx s).1
      × (places (start_listening backlog tx rx s).1 ≡ min backlog 128)
unfolding start_listening
start_listening_lem backlog tx rx s c = rw c (tt, omega arith)

-- Whatever segments come to a socket after `listen`, and however often `accept` takes one: no two
-- half-open connections have the same peer, and never do more sockets wait for `accept` than the
-- backlog, cut at 128, allows.
pub listening_bounded :
    (backlog : ℕ) (tx rx : List ℕ) (s s' : Socket)
    → s.block.state ≡ closed
    → (start_listening backlog tx rx s).1 ⇒* s'
    → DistinctEntries s' × (length (queue_of s'.accept_queue) ≤ min backlog 128)
listening_bounded backlog tx rx s s' c steps =
    let (d, p) = start_listening_lem backlog tx rx s c in
    let (d', p') = steps-keep steps d in (d', omega (arith, p, p'))

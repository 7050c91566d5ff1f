-- ===== src/Net/Arp.antt =====
-- The table of the addresses of the local network: mod/core/netstack/layer/link/arp/table.cpp and
-- table.hpp. Entries and queries are lists, each under a lock of its own; a round of `loop` runs under
-- the lock of the queries. The requests that are sent are a log. `time` is what `uptime` gives.
pub mod Lookup
mod Tests
use aexkernel.Base.{
  ℕ, zero, suc, ◌+◌, ◌-◌, ◌*◌, ◌%◌, ◌^◌, Bool, true, false, ◌&&◌, not, Option, none, some, List, [],
  ◌∷◌, ◌++◌, ltb, leb, ◌==◌, if◌then◌else◌,
}

abbrev pub arp_refresh_ns : ℕ
arp_refresh_ns = 10000000000

abbrev pub arp_timeout_ns : ℕ
arp_timeout_ns = 15000000000

abbrev pub arp_interval_ns : ℕ
arp_interval_ns = 1000000000

abbrev pub arp_retries : ℕ
arp_retries = 5

pub record ArpEntry : Type 0 where
  pub uuid : ℕ
  pub set_at : ℕ  -- uint64_t
  pub updating : Bool
  pub ipv4 : ℕ
  pub mac : ℕ

pub record ArpQuery : Type 0 where
  pub uuid : ℕ
  pub retry_at : ℕ  -- uint64_t
  pub retries : ℕ  -- uint32_t
  pub ipv4 : ℕ

pub record ArpTable : Type 0 where
  pub entries : List ArpEntry
  pub queries : List ArpQuery
  pub requests : List ℕ

-- `to_arp_uuid(ARP_ETHERNET, ETH_IPv4)`, which all entries and queries here have.
abbrev pub eth_ipv4 : ℕ
eth_ipv4 = 1 + 0x800 * 2 ^ 16

abbrev pub entry_for : ℕ → ArpEntry → Bool
entry_for ipv4 e = e.uuid == eth_ipv4 && e.ipv4 == ipv4

abbrev pub query_for : ℕ → ArpQuery → Bool
query_for ipv4 q = q.uuid == eth_ipv4 && q.ipv4 == ipv4

-- `Vector::erase`
pub erase : ℕ → List ArpQuery → List ArpQuery
erase i [] = []
erase zero (q ∷ qs) = qs
erase (suc i) (q ∷ qs) = q ∷ erase i qs

-- The first entry for the address, and its index.
pub find_entry : ℕ → ℕ → List ArpEntry → Option (ℕ × ArpEntry)
find_entry ipv4 i [] = none
find_entry ipv4 i (e ∷ es) = if entry_for ipv4 e then some (i, e) else find_entry ipv4 (i + 1) es

-- Whether there is a query for the address.
pub asked : ℕ → List ArpQuery → Bool
asked ipv4 [] = false
asked ipv4 (q ∷ qs) = if query_for ipv4 q then true else asked ipv4 qs

pub query_mac : ℕ → ArpTable → ArpTable
query_mac ipv4 t = if asked ipv4 t.queries then t else record t {
  queries = t.queries ++ (record { uuid = eth_ipv4; retry_at = 0; retries = 0; ipv4 = ipv4 } ∷ []);
}

-- `entry.updating = true`, of the first entry for the address.
pub set_updating : ℕ → List ArpEntry → List ArpEntry
set_updating ipv4 [] = []
set_updating ipv4 (e ∷ es) =
    if entry_for ipv4 e then record e { updating = true } ∷ es else e ∷ set_updating ipv4 es

-- The age of an entry, a difference of two `uint64_t`.
abbrev pub age : ℕ → ArpEntry → ℕ
age time e = (time + 2 ^ 64 - e.set_at) % 2 ^ 64

-- What `get_mac` does with the entry that it has found, or without one.
pub use_entry : ℕ → ℕ → ArpTable → Option (ℕ × ArpEntry) → Option ℕ × ArpTable
use_entry time ipv4 t none = (none, query_mac ipv4 t)
use_entry time ipv4 t (some (i, e)) =
    if ltb arp_timeout_ns (age time e)
    then (none, query_mac ipv4 (record t { queries = erase i t.queries }))
    else if ltb arp_refresh_ns (age time e)
    then (some e.mac, query_mac ipv4 (record t { entries = set_updating ipv4 t.entries }))
    else (some e.mac, t)

pub get_mac : ℕ → ℕ → ArpTable → Option ℕ × ArpTable
get_mac time ipv4 t = use_entry time ipv4 t (find_entry ipv4 0 t.entries)

-- The first loop of `set_mac`.
pub drop_queries : ℕ → List ArpQuery → List ArpQuery
drop_queries ipv4 [] = []
drop_queries ipv4 (q ∷ qs) =
    let rest = drop_queries ipv4 qs in if query_for ipv4 q then rest else q ∷ rest

-- The second loop, and the new entry where it finds none. The new entry's `updating`, which nothing
-- reads, is not initialised in the source.
pub set_entry : ℕ → ℕ → ℕ → List ArpEntry → List ArpEntry
set_entry time ipv4 mac [] =
    record { uuid = eth_ipv4; set_at = time; updating = false; ipv4 = ipv4; mac = mac } ∷ []
set_entry time ipv4 mac (e ∷ es) =
    let rest = set_entry time ipv4 mac es in
    if entry_for ipv4 e
    then record e { set_at = time; updating = false; mac = mac } ∷ es
    else e ∷ rest

pub set_mac : ℕ → ℕ → ℕ → ArpTable → ArpTable
set_mac time ipv4 mac t = record t {
  entries = set_entry time ipv4 mac t.entries;
  queries = drop_queries ipv4 t.queries;
}

-- A query after its request was sent.
abbrev pub retried : ℕ → ArpQuery → ArpQuery
retried time q = record q {
  retry_at = (time + arp_interval_ns) % 2 ^ 64;
  retries = (q.retries + 1) % 2 ^ 32;
}

-- A round of `loop` over the queries: those that are left, and the addresses that are asked for.
pub loop_round : ℕ → List ArpQuery → List ArpQuery × List ℕ
loop_round time [] = ([], [])
loop_round time (q ∷ qs) =
    let (rest, sent) = loop_round time qs in
    if ltb time q.retry_at
    then (q ∷ rest, sent)
    else if q.retries == arp_retries
    then (rest, sent)
    else (retried time q ∷ rest, if q.uuid == eth_ipv4 then q.ipv4 ∷ sent else sent)

pub loop_once : ℕ → ArpTable → ArpTable
loop_once time t =
    let (rest, sent) = loop_round time t.queries in
    record t { queries = rest; requests = t.requests ++ sent }

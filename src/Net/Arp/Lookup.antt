-- ===== src/Net/Arp/Lookup.antt =====
-- What the table answers, and what becomes of its queries.
use aexkernel.Base.{
  ℕ, ◌+◌, ◌^◌, ◌≤◌, ◌<◌, ◌≡◌, refl, ap, ◌∙◌, true, false, ◌&&◌, inl, inr, none, some, List, [], ◌∷◌,
  ◌++◌, ◌==◌, Bool-cases, All, arith,
}
use aexkernel.Net.Arp.{
  arp_timeout_ns, arp_retries, ArpEntry, ArpQuery, ArpTable, entry_for, query_for, erase,
  find_entry, asked, query_mac, age, use_entry, get_mac, drop_queries, set_entry, set_mac,
  loop_round, eth_ipv4,
}

-- After `set_entry`, the first entry for the address is one that was set just now.
find_entry-set_entry :
    (time ipv4 mac i : ℕ) (es : List ArpEntry)
    → (k : ℕ) × (e : ArpEntry) × (find_entry ipv4 i (set_entry time ipv4 mac es) ≡ some (k, e))
      × (e.mac ≡ mac)
      × (e.set_at ≡ time)
unfolding find_entry set_entry
find_entry-set_entry time ipv4 mac i [] = (
  i,
  record { uuid = eth_ipv4; set_at = time; updating = false; ipv4 = ipv4; mac = mac },
  ground arith,
  refl,
  refl,
)
find_entry-set_entry time ipv4 mac i (e ∷ es) = elim (Bool-cases (entry_for ipv4 e)) [
  | inl h ↦
      (i, record e { set_at = time; updating = false; mac = mac }, ground (arith, h), refl, refl)
  | inr h ↦
      let (k, e', f, m, t) = find_entry-set_entry time ipv4 mac (i + 1) es in
      (k, e', ground (arith, h, f), m, t)
]

use_entry-young :
    (time ipv4 i : ℕ) (t : ArpTable) (e : ArpEntry)
    → e.set_at ≤ time
    → time ≤ e.set_at + arp_timeout_ns
    → time < 2 ^ 64
    → (use_entry time ipv4 t (some (i, e))).0 ≡ some e.mac
unfolding use_entry
use_entry-young time ipv4 i t e a b c = ground (arith, a, b, c)

-- An address that was set is found, whatever the table held, for 15 seconds: until the time reaches
-- 2 ^ 64, `get_mac` gives the address that the last `set_mac` has set.
pub get_mac-set_mac :
    (time later ipv4 mac : ℕ) (t : ArpTable)
    → time ≤ later
    → later ≤ time + arp_timeout_ns
    → later < 2 ^ 64
    → (get_mac later ipv4 (set_mac time ipv4 mac t)).0 ≡ some mac
unfolding get_mac set_mac
get_mac-set_mac time later ipv4 mac t a b c =
    let (k, e, f, m, s) = find_entry-set_entry time ipv4 mac 0 t.entries in
    rw f (
      use_entry-young later ipv4 k (set_mac time ipv4 mac t) e (omega (arith, s)) (omega (arith, s))
        c
      ∙ ap some m)

-- An entry that is older than 15 seconds is never removed: `get_mac` gives nothing and leaves the
-- entries as they were, and it is a query that goes, the one at the entry's index.
pub get_mac_expired :
    (time ipv4 i : ℕ) (e : ArpEntry) (t : ArpTable)
    → find_entry ipv4 0 t.entries ≡ some (i, e)
    → arp_timeout_ns < age time e
    → ((get_mac time ipv4 t).0 ≡ none)
      × ((get_mac time ipv4 t).1.entries ≡ t.entries)
      × ((get_mac time ipv4 t).1 ≡ query_mac ipv4 (record t { queries = erase i t.queries }))
unfolding get_mac use_entry query_mac
get_mac_expired time ipv4 i e t f h = rw f (ground (arith, h))

asked-drop_queries : (ipv4 : ℕ) (qs : List ArpQuery) → asked ipv4 (drop_queries ipv4 qs) ≡ false
unfolding asked drop_queries
asked-drop_queries ipv4 [] = refl
asked-drop_queries ipv4 (q ∷ qs) = ground (arith, asked-drop_queries ipv4 qs)

asked-append :
    (ipv4 : ℕ) (qs : List ArpQuery) (q : ArpQuery)
    → query_for ipv4 q ≡ true
    → asked ipv4 (qs ++ (q ∷ [])) ≡ true
unfolding asked
asked-append ipv4 [] q h = ground (arith, h)
asked-append ipv4 (p ∷ qs) q h = ground (arith, h, asked-append ipv4 qs q h)

-- An answer ends the queries for its address, and `query_mac` asks for it: after `set_mac` there is
-- no query for the address, and after `query_mac` there is one.
pub asked_lem :
    (time ipv4 mac : ℕ) (t : ArpTable)
    → (asked ipv4 (set_mac time ipv4 mac t).queries ≡ false)
      × (asked ipv4 (query_mac ipv4 t).queries ≡ true)
unfolding set_mac query_mac
asked_lem time ipv4 mac t = (
  asked-drop_queries ipv4 t.queries,
  elim (Bool-cases (asked ipv4 t.queries)) [
    | inl h ↦ ground (arith, h)
    | inr h ↦ ground (
      arith,
      h,
      asked-append ipv4 t.queries
          (record { uuid = eth_ipv4; retry_at = 0; retries = 0; ipv4 = ipv4 }) (own_query ipv4),
    )
  ],
)
  where
    own_query : (a : ℕ) → (eth_ipv4 == eth_ipv4) && (a == a) ≡ true
    own_query a = ground arith

-- No query of the list was sent more often than it may be.
abbrev pub WithinRetries : List ArpQuery → Type 0
WithinRetries qs = All (λ q. q.retries ≤ arp_retries) qs

-- A round of the loop keeps every query within its five retries.
pub loop_round-WithinRetries :
    (time : ℕ) (qs : List ArpQuery) → WithinRetries qs → WithinRetries (loop_round time qs).0
unfolding loop_round
loop_round-WithinRetries time [] w = tt
loop_round-WithinRetries time (q ∷ qs) (h, w) =
    ground (arith, h, loop_round-WithinRetries time qs w)

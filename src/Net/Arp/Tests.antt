-- ===== src/Net/Arp/Tests.antt =====
-- A small table, and the theorems there.
use aexkernel.Base.{◌≡◌, refl, false, some, [], ◌∷◌, arith}
use aexkernel.Net.Arp.{ArpEntry, ArpQuery, find_entry, ArpTable, eth_ipv4, get_mac, set_mac}
use aexkernel.Net.Arp.Lookup.{get_mac-set_mac}

abbrev old_entry : ArpEntry
old_entry = record { uuid = eth_ipv4; set_at = 0; updating = false; ipv4 = 7; mac = 70 }

abbrev query_of_8 : ArpQuery
query_of_8 = record { uuid = eth_ipv4; retry_at = 0; retries = 5; ipv4 = 8 }

abbrev query_of_9 : ArpQuery
query_of_9 = record { uuid = eth_ipv4; retry_at = 0; retries = 4; ipv4 = 9 }

abbrev table : ArpTable
table = record { entries = old_entry ∷ []; queries = query_of_8 ∷ query_of_9 ∷ []; requests = [] }

get_mac-set_mac_example : (get_mac 20000000000 7 (set_mac 10000000000 7 71 table)).0 ≡ some 71
get_mac-set_mac_example =
    get_mac-set_mac 10000000000 20000000000 7 71 table (omega arith) (omega arith) (omega arith)

found_old : find_entry 7 0 table.entries ≡ some (0, old_entry)
unfolding find_entry
found_old = refl

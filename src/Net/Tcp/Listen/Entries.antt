-- ===== src/Net/Tcp/Listen/Entries.antt =====
-- The half-open connections of a listening socket: one for each peer.
use aexkernel.Base.{
  ℕ, ◌≡◌, refl, true, false, inl, inr, none, some, List, [], ◌∷◌, ◌++◌, Bool-cases, Option-cases,
  arith,
}
use aexkernel.Net.Tcp.{ListenEntry}
use aexkernel.Net.Tcp.Listen.{
  entry_is, get_listen_entry, remove_entry, set_entry, try_create_listen_entry,
}

-- No two entries have the same address and port.
abbrev pub Distinct : List ListenEntry → Type 0
Distinct [] = Unit
Distinct (e ∷ es) = (get_listen_entry e.source_address e.source_port es ≡ none) × Distinct es

-- The entry of a key is one that has it.
pub entry_is-get :
    (addr port : ℕ) (es : List ListenEntry) (e : ListenEntry)
    → get_listen_entry addr port es ≡ some e
    → entry_is addr port e ≡ true
unfolding get_listen_entry
entry_is-get addr port [] e h = ground (arith, h)
entry_is-get addr port (x ∷ es) e h = ground (arith, h, entry_is-get addr port es e)

same_key :
    (addr port : ℕ) (e : ListenEntry)
    → entry_is addr port e ≡ true
    → (e.source_address ≡ addr) × (e.source_port ≡ port)
same_key addr port e h = ground (arith, h)

get-append_none :
    (addr port : ℕ) (es : List ListenEntry) (e : ListenEntry)
    → get_listen_entry addr port es ≡ none
    → entry_is addr port e ≡ false
    → get_listen_entry addr port (es ++ (e ∷ [])) ≡ none
unfolding get_listen_entry
get-append_none addr port [] e h n = ground (arith, n)
get-append_none addr port (x ∷ es) e h n = ground (arith, h, n, get-append_none addr port es e)

get-set_entry-none :
    (addr port a p : ℕ) (e : ListenEntry) (es : List ListenEntry)
    → get_listen_entry addr port es ≡ none
    → entry_is a p e ≡ true
    → get_listen_entry addr port (set_entry a p e es) ≡ none
unfolding get_listen_entry set_entry
get-set_entry-none addr port a p e [] h n = refl
get-set_entry-none addr port a p e (x ∷ es) h n =
    ground (arith, h, n, get-set_entry-none addr port a p e es)

get-remove_entry-none :
    (addr port a p : ℕ) (es : List ListenEntry)
    → get_listen_entry addr port es ≡ none
    → get_listen_entry addr port (remove_entry a p es) ≡ none
unfolding get_listen_entry remove_entry
get-remove_entry-none addr port a p [] h = refl
get-remove_entry-none addr port a p (x ∷ es) h =
    ground (arith, h, get-remove_entry-none addr port a p es)

Distinct-append :
    (es : List ListenEntry) (e : ListenEntry)
    → Distinct es
    → get_listen_entry e.source_address e.source_port es ≡ none
    → Distinct (es ++ (e ∷ []))
unfolding get_listen_entry
Distinct-append [] e d h = (refl, tt)
Distinct-append (x ∷ es) e (n, d) h = (
  get-append_none x.source_address x.source_port es e n (ground (arith, h)),
  Distinct-append es e d (ground (arith, h)),
)

pub Distinct-set_entry :
    (a p : ℕ) (e : ListenEntry) (es : List ListenEntry)
    → Distinct es
    → entry_is a p e ≡ true
    → Distinct (set_entry a p e es)
unfolding set_entry
Distinct-set_entry a p e [] d h = tt
Distinct-set_entry a p e (x ∷ es) (n, d) h = elim (Bool-cases (entry_is a p x)) [
  | inl q ↦ rw (q, set_entry) (ground (arith, h, q, n, same_key a p e h, same_key a p x q), d)
  | inr q ↦
      rw (q, set_entry)
        (
          get-set_entry-none x.source_address x.source_port a p e es n h,
          Distinct-set_entry a p e es d h,
        )
]

pub Distinct-remove_entry :
    (a p : ℕ) (es : List ListenEntry) → Distinct es → Distinct (remove_entry a p es)
unfolding remove_entry
Distinct-remove_entry a p [] d = tt
Distinct-remove_entry a p (x ∷ es) (n, d) = elim (Bool-cases (entry_is a p x)) [
  | inl q ↦ rw (q, remove_entry) (Distinct-remove_entry a p es d)
  | inr q ↦
      rw (q, remove_entry)
        (
          get-remove_entry-none x.source_address x.source_port a p es n,
          Distinct-remove_entry a p es d,
        )
]

pub Distinct-try_create :
    (a p : ℕ) (e : ListenEntry) (es : List ListenEntry)
    → Distinct es
    → entry_is a p e ≡ true
    → Distinct (try_create_listen_entry a p e es)
unfolding try_create_listen_entry
Distinct-try_create a p e es d h = elim (Option-cases (get_listen_entry a p es)) [
  | inl n ↦
      rw (n, try_create_listen_entry)
        (Distinct-append es e d (let (q, r) = same_key a p e h in rw (q, r) n))
  | inr (old, n) ↦ rw (n, try_create_listen_entry) d
]

-- ===== src/Mem/Paging/Areas/Search.antt =====
-- The loop of `findContiguous`: what it counts is free.
use aexkernel.Base.{
  ℕ, zero, suc, ◌+◌, ◌-◌, ◌*◌, ◌/◌, ◌%◌, ◌^◌, ◌≤◌, ◌<◌, ◌≡◌, refl, sym, ap, ◌∙◌, Bool, true, false,
  not, ◌⊎◌, inl, inr, Option, none, some, ◌==◌, if◌then◌else◌, leb, leb→le, arith,
}
use aexkernel.Mem.Paging.{
  Memory, Pagemap, index_39, index_30, index_21, index_12, levels, walk, find_table, rawof,
}
use native.Mathlib.Decide.{ℕ_discrete, dec_lt}
use aexkernel.Mem.Paging.Entries.{page_number, rawof-same}
use aexkernel.Mem.Paging.Areas.{wrap, search}

-- `combo` pages from `start` on are free.
abbrev pub AreFree : Memory → Pagemap → ℕ → ℕ → Type 0
AreFree m p start combo = (k : ℕ) → k < combo → rawof m p (start + 4096 * k) ≡ 0

-- The table for `vaddr` is `tb`, and its entry at `index`, unless the next table is to be looked for.
abbrev pub At : Memory → Pagemap → ℕ → ℕ → Option ℕ → Type 0
At m p vaddr index tb =
    ((index ≡ index_12 vaddr) × (t : ℕ) × (tb ≡ some t) × ((find_table m p.page_root vaddr).0 ≡ tb))
    ⊎ ((512 ≤ index) × (index_12 vaddr ≡ 0))

abbrev pub table_of : Memory → Pagemap → ℕ → Option ℕ
table_of m p vaddr = (find_table m p.page_root vaddr).0

levels-same : (va va' : ℕ) → va / 2 ^ 21 % 2 ^ 27 ≡ va' / 2 ^ 21 % 2 ^ 27 → levels va ≡ levels va'
levels-same va va' h = rw (a39, a30, a21) refl
  where
    a39 : index_39 va ≡ index_39 va'
    a39 = omega (arith, h)

    a30 : index_30 va ≡ index_30 va'
    a30 = omega (arith, h)

    a21 : index_21 va ≡ index_21 va'
    a21 = omega (arith, h)

find_table-same :
    (m : Memory) (root va va' : ℕ)
    → va / 2 ^ 21 % 2 ^ 27 ≡ va' / 2 ^ 21 % 2 ^ 27
    → find_table m root va ≡ find_table m root va'
unfolding find_table
find_table-same m root va va' h = ap (walk m root) (levels-same va va' h)

-- The entry for an aligned address is in its table.
rawof-table :
    (m : Memory) (p : Pagemap) (va : ℕ)
    → va % 4096 ≡ 0
    → rawof m p va ≡ elim (table_of m p va) [ none ↦ 0 | some t ↦ m.word t (index_12 va) ]
unfolding rawof
rawof-table m p va h =
    ap (λ v. elim (table_of m p v) [ none ↦ 0 | some t ↦ m.word t (index_12 va) ])
      (omega (arith, h))

-- What a round of the loop comes to.
step_cases :
    (over : Bool) (T : Option ℕ) (used : ℕ → Bool) (enough₁ enough₂ : Bool) (start : ℕ)
    (skip taken free : Option ℕ) (r : ℕ)
    → (if over then some 0 else elim T [
      | none ↦ if enough₁ then some start else skip
      | some t ↦ if not (used t) then taken else if enough₂ then some start else free
    ])
      ≡ some r
    → (r ≡ 0)
      ⊎ ((T ≡ none) × (((enough₁ ≡ true) × (r ≡ start)) ⊎ (skip ≡ some r)))
      ⊎ ((t : ℕ) × (T ≡ some t)
          × (((used t ≡ false) × (taken ≡ some r))
              ⊎ ((used t ≡ true) × (((enough₂ ≡ true) × (r ≡ start)) ⊎ (free ≡ some r)))))
step_cases over T used enough₁ enough₂ start skip taken free r h = ground (arith, h)

AreFree-suc :
    (m : Memory) (p : Pagemap) (start combo vaddr : ℕ)
    → AreFree m p start combo
    → page_number (start + 4096 * combo) ≡ page_number vaddr
    → rawof m p vaddr ≡ 0
    → AreFree m p start (combo + 1)
AreFree-suc m p start combo vaddr f e z k lt = elim (ℕ_discrete k combo) [
  | yes a ↦ rw a (rawof-same m p vaddr (start + 4096 * combo) e ∙ z)
  | no a ↦ f k (omega (arith, lt, a))
]

AreFree-add :
    (m : Memory) (p : Pagemap) (start combo vaddr n : ℕ)
    → AreFree m p start combo
    → page_number (start + 4096 * combo) ≡ page_number vaddr
    → ((j : ℕ) → j < n → rawof m p (vaddr + 4096 * j) ≡ 0)
    → AreFree m p start (combo + n)
AreFree-add m p start combo vaddr n f e z k lt = elim (dec_lt k combo) [
  | yes a ↦ f k a
  | no a ↦
      rawof-same m p (vaddr + 4096 * (k - combo)) (start + 4096 * k) (omega (arith, e, a))
      ∙ z (k - combo) (omega (arith, lt, a))
]

-- A table that is missing has 512 free pages.
table_of-none :
    (m : Memory) (p : Pagemap) (vaddr : ℕ)
    → vaddr % 4096 ≡ 0
    → index_12 vaddr ≡ 0
    → table_of m p vaddr ≡ none
    → (j : ℕ) → j < 512
    → rawof m p (vaddr + 4096 * j) ≡ 0
table_of-none m p vaddr aligned first n j lt =
    rawof-table m p (vaddr + 4096 * j) (omega (arith, aligned))
    ∙ ap (λ T. elim T [ none ↦ 0 | some t ↦ m.word t (index_12 (vaddr + 4096 * j)) ])
        (ap (λ x. x.0)
            (find_table-same m p.page_root (vaddr + 4096 * j) vaddr
              (omega (arith, aligned, first, lt)))
          ∙ n)

-- The table that a round reads is the one for the address, at the address's index.
At-here :
    (m : Memory) (p : Pagemap) (vaddr index : ℕ) (tb : Option ℕ)
    → At m p vaddr index tb
    → ((if leb 512 index then table_of m p vaddr else tb) ≡ table_of m p vaddr)
      × ((if leb 512 index then 0 else index) ≡ index_12 vaddr)
At-here m p vaddr index tb (inl (e, t, q, f)) = (rw (inside) (sym f), rw (inside) e)
  where
    inside : leb 512 index ≡ false
    inside = ground (arith, e)
At-here m p vaddr index tb (inr (e, z)) = (rw (outside) refl, rw (outside) (sym z))
  where
    outside : leb 512 index ≡ true
    outside = ground (arith, e)

At-next :
    (m : Memory) (p : Pagemap) (vaddr t : ℕ)
    → vaddr % 4096 ≡ 0
    → table_of m p vaddr ≡ some t
    → At m p (wrap (vaddr + 4096)) (index_12 vaddr + 1) (table_of m p vaddr)
At-next m p vaddr t aligned q = elim (ℕ_discrete (index_12 vaddr) 511) [
  | yes a ↦ inr (omega (arith, a), omega (arith, a, aligned))
  | no a ↦ inl (
    omega (arith, a, aligned),
    t,
    q,
    ap (λ x. x.0)
        (find_table-same m p.page_root (wrap (vaddr + 4096)) vaddr (omega (arith, a, aligned))),
  )
]

abbrev round : ℕ → Memory → Pagemap → ℕ → ℕ → ℕ → ℕ → Option ℕ → ℕ → Option ℕ
round n m p amount vaddr combo start here i =
    let next = wrap (vaddr + 4096) in
    let taken = search n m p amount next (i + 1) 0 next here in
    let free = search n m p amount next (i + 1) (combo + 1) start here in
    if leb p.vend vaddr then some 0 else elim here [
      | none ↦
          if leb amount (combo + 512)
          then some start
          else search n m p amount (wrap (vaddr + 4096 * 512)) 512 (combo + 512) start none
      | some t ↦
          if not (m.word t i == 0)
          then taken
          else if leb amount (combo + 1)
          then some start
          else free
    ]

-- A round reads the table for the address.
search-round :
    (n : ℕ) (m : Memory) (p : Pagemap) (amount vaddr index combo start : ℕ) (tb : Option ℕ)
    → At m p vaddr index tb
    → search (suc n) m p amount vaddr index combo start tb
      ≡ round n m p amount vaddr combo start (table_of m p vaddr) (index_12 vaddr)
unfolding search
search-round n m p amount vaddr index combo start tb at =
    let (a, b) = At-here m p vaddr index tb at in
    ap (λ T. round n m p amount vaddr combo start T (if leb 512 index then 0 else index)) a
    ∙ ap (round n m p amount vaddr combo start (table_of m p vaddr)) b

-- A table is missing only where the next one is to be looked for.
At-missing :
    (m : Memory) (p : Pagemap) (vaddr index : ℕ) (tb : Option ℕ)
    → At m p vaddr index tb
    → table_of m p vaddr ≡ none
    → index_12 vaddr ≡ 0
At-missing m p vaddr index tb (inl (_, t, q, f)) n = absurd (clash (sym n ∙ f ∙ q))
  where
    clash : ◌≡◌ {A = Option ℕ} none (some t) → ⊥
    clash h = cc
At-missing m p vaddr index tb (inr (_, z)) n = z

pub search-AreFree :
    (n : ℕ) (m : Memory) (p : Pagemap) (amount vaddr index combo start : ℕ) (tb : Option ℕ) (r : ℕ)
    → At m p vaddr index tb
    → vaddr % 4096 ≡ 0
    → page_number (start + 4096 * combo) ≡ page_number vaddr
    → AreFree m p start combo
    → search n m p amount vaddr index combo start tb ≡ some r
    → (r ≡ 0) ⊎ AreFree m p r amount
unfolding search
search-AreFree zero m p amount vaddr index combo start tb r at aligned e f h = ground (arith, h)
search-AreFree (suc n) m p amount vaddr index combo start tb r at aligned e f h =
    let cases =
      step_cases (leb p.vend vaddr) (table_of m p vaddr) (λ t. m.word t i == 0)
        (leb amount (combo + 512)) (leb amount (combo + 1)) start
        (search n m p amount (wrap (vaddr + 4096 * 512)) 512 (combo + 512) start none)
        (search n m p amount next (i + 1) 0 next (table_of m p vaddr))
        (search n m p amount next (i + 1) (combo + 1) start (table_of m p vaddr)) r
        (sym (search-round n m p amount vaddr index combo start tb at) ∙ h) in
    elim cases [
      | inl z ↦ inl z
      | inr (inl (q, d)) ↦
          let first = At-missing m p vaddr index tb at q in
          let more =
            AreFree-add m p start combo vaddr 512 f e (table_of-none m p vaddr aligned first q) in
          elim d [
            | inl (enough, eq) ↦ inr (fewer r (combo + 512) enough eq more)
            | inr h' ↦
                search-AreFree n m p amount (wrap (vaddr + 4096 * 512)) 512 (combo + 512) start none
                  r (inr (omega arith, omega (arith, first))) (omega (arith, aligned))
                  (omega (arith, e)) more h'
          ]
      | inr (inr (t, q, inl (used, h'))) ↦
          search-AreFree n m p amount next (i + 1) 0 next (table_of m p vaddr) r
            (At-next m p vaddr t aligned q) (omega (arith, aligned)) (omega arith)
            (λ k lt. absurd (none_below k lt)) h'
      | inr (inr (t, q, inr (unused, d))) ↦
          let more = AreFree-suc m p start combo vaddr f e (empty t q unused) in
          elim d [
            | inl (enough, eq) ↦ inr (fewer r (combo + 1) enough eq more)
            | inr h' ↦
                search-AreFree n m p amount next (i + 1) (combo + 1) start (table_of m p vaddr) r
                  (At-next m p vaddr t aligned q) (omega (arith, aligned)) (omega (arith, e)) more
                  h'
          ]
    ]
  where
    next : ℕ
    next = wrap (vaddr + 4096)

    i : ℕ
    i = index_12 vaddr

    none_below : (k : ℕ) → k < 0 → ⊥
    none_below k lt = omega (arith, lt)

    fewer :
        (r' c : ℕ) → leb amount c ≡ true → r' ≡ start → AreFree m p start c → AreFree m p r' amount
    fewer r' c enough eq g k lt =
        ap (λ x. rawof m p (x + 4096 * k)) eq ∙ g k (le k c lt (leb→le amount c enough))
      where
        le : (k' c' : ℕ) → k' < amount → amount ≤ c' → k' < c'
        le k' c' a b = omega (arith, a, b)

    empty : (t : ℕ) → table_of m p vaddr ≡ some t → (m.word t i == 0) ≡ true → rawof m p vaddr ≡ 0
    empty t q unused =
        rawof-table m p vaddr aligned
        ∙ ap (λ T. elim T [ none ↦ 0 | some t' ↦ m.word t' (index_12 vaddr) ]) q
        ∙ ground (arith, unused)

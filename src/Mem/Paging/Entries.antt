-- ===== src/Mem/Paging/Entries.antt =====
-- The walks over tables of which an entry of the last level is written, and `rawof` as such a walk.
use aexkernel.Base.{
  ℕ, ◌+◌, ◌*◌, ◌/◌, ◌%◌, ◌^◌, ◌<◌, ◌≡◌, refl, sym, ap, ◌∙◌, inl, inr, none, some, List, [], ◌∷◌,
  ==_ne, length, map, arith,
}
use mathlib.Core.Path.{subst}
use native.Mathlib.Decide.{ℕ_discrete}
use aexkernel.Mem.Paging.{
  Memory, Pagemap, masked, write_word, index_39, index_30, index_21, index_12, walk, levels,
  find_table, rawof,
}
use aexkernel.Mem.Paging.Tree.{
  Owner, IsTree, leaf, leaf-go, leaf-stop, Indices, part, is_present-ne_zero,
}
use aexkernel.Mem.Paging.Walk.{word-write_ne}
use aexkernel.Mem.Paging.Ensure.{LeadsTo}

module _ (m : Memory) (owner : Owner) (root t key p v : ℕ) (tr : IsTree m owner root)
    (o : owner t ≡ some (3, key)) where
  inner-word :
      (g l k j : ℕ) → owner g ≡ some (l, k) → l < 3 → (write_word m t p v).word g j ≡ m.word g j
  inner-word g l k j og hl = word-write_ne m t p v g j (λ a _. last_level a)
    where
      last_level : g ≡ t → ⊥
      last_level a = ground (arith, og, o, hl, ap owner a)

  pub IsTree-write : IsTree (write_word m t p v) owner root
  IsTree-write = record {
    rooted = tr.rooted;
    linked = λ f l k i of hl hi. rw (inner-word f l k i of hl) (tr.linked f l k i of hl hi);
    supply = tr.supply;
  }

  pub LeadsTo-write :
      (g l k : ℕ) (js : List ℕ) (u : ℕ)
      → owner g ≡ some (l, k)
      → l + length js ≡ 3
      → Indices js
      → LeadsTo m g js u
      → LeadsTo (write_word m t p v) g js u
  LeadsTo-write g l k [] u og e h q = q
  LeadsTo-write g l k (j ∷ js) u og e (hj, hs) (n, q) =
      let same = inner-word g l k j og (omega (arith, e)) in
      (
        λ z. n (sym same ∙ z),
        subst (λ x. LeadsTo (write_word m t p v) x js u) (sym (ap masked same))
            (elim (tr.linked g l k j og (omega (arith, e)) hj) [
              | inl z ↦ absurd (n z)
              | inr (_, oc) ↦
                  LeadsTo-write (masked (m.word g j)) (l + 1) (k * 512 + j) js u oc
                    (omega (arith, e)) hs q
            ]),
      )

  pub leaf-write_ne :
      (g l k : ℕ) (js : List ℕ) (x : ℕ)
      → owner g ≡ some (l, k)
      → l + length js ≡ 3
      → Indices js
      → ((part k js ≡ key) → (x ≡ p) → ⊥)
      → leaf (write_word m t p v) g js x ≡ leaf m g js x
  unfolding leaf
  leaf-write_ne g l k [] x og e h d = word-write_ne m t p v g x (λ a b. d (same_key a) b)
    where
      same_key : g ≡ t → k ≡ key
      same_key a = ground (arith, og, o, ap owner a)
  leaf-write_ne g l k (j ∷ js) x og e (hj, hs) d =
      let same = inner-word g l k j og (omega (arith, e)) in
      elim (tr.linked g l k j og (omega (arith, e)) hj) [
        | inl z ↦ leaf-stop (write_word m t p v) g j js x (same ∙ z) ∙ sym (leaf-stop m g j js x z)
        | inr (q, oc) ↦
            leaf-go (write_word m t p v) g j js x
              (λ z. is_present-ne_zero (m.word g j) q (sym same ∙ z))
            ∙ ap (λ w. leaf (write_word m t p v) (masked w) js x) same
            ∙ leaf-write_ne (masked (m.word g j)) (l + 1) (k * 512 + j) js x oc (omega (arith, e))
                hs d
            ∙ sym (leaf-go m g j js x (is_present-ne_zero (m.word g j) q))
      ]

-- The indices of an address through the levels before the last.
abbrev pub indices : ℕ → List ℕ
indices va = index_39 va ∷ index_30 va ∷ index_21 va ∷ []

abbrev pub page_number : ℕ → ℕ
page_number va = va / 4096 % 2 ^ 36

pub page_number-part : (va : ℕ) → page_number va ≡ part 0 (indices va) * 512 + index_12 va
page_number-part va = omega arith

pub indices-Indices : (va : ℕ) → Indices (indices va)
indices-Indices va = (omega arith, (omega arith, (omega arith, tt)))

pub indices-masked : (va : ℕ) → indices (masked va) ≡ indices va
indices-masked va = rw (a39, a30, a21) refl
  where
    a39 : index_39 (masked va) ≡ index_39 va
    a39 = omega arith

    a30 : index_30 (masked va) ≡ index_30 va
    a30 = omega arith

    a21 : index_21 (masked va) ≡ index_21 va
    a21 = omega arith

pub index_12-masked : (va : ℕ) → index_12 (masked va) ≡ index_12 va
index_12-masked va = omega arith

pub same_indices :
    (va va' : ℕ)
    → page_number va' ≡ page_number va
    → (indices va' ≡ indices va) × (index_12 va' ≡ index_12 (masked va))
same_indices va va' h = (rw (a39, a30, a21) refl, omega (arith, h))
  where
    a39 : index_39 va' ≡ index_39 va
    a39 = omega (arith, h)

    a30 : index_30 va' ≡ index_30 va
    a30 = omega (arith, h)

    a21 : index_21 va' ≡ index_21 va
    a21 = omega (arith, h)

walk-leaf :
    (m : Memory) (f : ℕ) (js : List (ℕ × ℕ)) (x : ℕ)
    → elim (walk m f js).0 [ none ↦ 0 | some t ↦ m.word t x ] ≡ leaf m f (map (λ j. j.0) js) x
unfolding walk leaf
walk-leaf m f [] x = refl
walk-leaf m f ((j, skip) ∷ js) x = elim (ℕ_discrete (m.word f j) 0) [
  | yes z ↦ rw z refl
  | no n ↦ rw (==_ne (m.word f j) 0 n) (walk-leaf m (masked (m.word f j)) js x)
]

pub rawof-leaf :
    (m : Memory) (p : Pagemap) (va : ℕ)
    → rawof m p va ≡ leaf m p.page_root (indices va) (index_12 va)
unfolding rawof find_table
rawof-leaf m p va =
    walk-leaf m p.page_root (levels (masked va)) (index_12 va)
    ∙ ap (λ is. leaf m p.page_root is (index_12 va)) (indices-masked va)

pub rawof-same :
    (m : Memory) (p : Pagemap) (va va' : ℕ)
    → page_number va' ≡ page_number va
    → rawof m p va' ≡ rawof m p va
rawof-same m p va va' h =
    let (same, last) = same_indices va va' h in
    rawof-leaf m p va'
    ∙ ap (λ is. leaf m p.page_root is (index_12 va')) same
    ∙ ap (leaf m p.page_root (indices va)) (last ∙ index_12-masked va)
    ∙ sym (rawof-leaf m p va)

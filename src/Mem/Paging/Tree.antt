-- ===== src/Mem/Paging/Tree.antt =====
-- Tables that form a tree, and what an entry's change does to the words that the walk leads to.
use aexkernel.Base.{
  ℕ, ◌+◌, ◌*◌, ◌<◌, ◌≡◌, ◌≢◌, refl, sym, ap, ◌∙◌, true, ◌⊎◌, inl, inr, Option, none, some, List, [],
  ◌∷◌, ◌==◌, ==_ne, if◌then◌else◌, length, All, arith,
}
use native.Mathlib.Decide.{ℕ_discrete}
use aexkernel.Mem.Paging.{Memory, masked, is_present}

-- Which frames are tables: of which level, from the root's 0 to 3, and of which part of the address
-- space, counted through the level.
abbrev pub Owner : Type 0
Owner = ℕ → Option (ℕ × ℕ)

-- Frames that no table is in, each given once.
abbrev pub Supply : Owner → List ℕ → Type 0
Supply owner [] = Unit
Supply owner (n ∷ ns) = (owner n ≡ none) × (masked n ≡ n) × All (λ x. x ≢ n) ns × Supply owner ns

-- An entry of a table that is not of the last level is 0, or leads to the table for its part.
pub record IsTree (m : Memory) (owner : Owner) (root : ℕ) : Type 0 where
  pub rooted : owner root ≡ some (0, 0)
  pub linked :
      (f l k i : ℕ)
      → owner f ≡ some (l, k)
      → l < 3
      → i < 512
      → (m.word f i ≡ 0)
        ⊎ ((is_present (m.word f i) ≡ true)
            × (owner (masked (m.word f i)) ≡ some (l + 1, k * 512 + i)))
  pub supply : Supply owner m.frames

-- The word at index `i` of the last table, for the indices before it; 0 where a table is missing.
unfoldable pub leaf : Memory → ℕ → List ℕ → ℕ → ℕ
leaf m f [] i = m.word f i
leaf m f (j ∷ js) i =
    let rest = leaf m (masked (m.word f j)) js i in if m.word f j == 0 then 0 else rest

abbrev pub Indices : List ℕ → Type 0
Indices = All (λ j. j < 512)

-- The part of the address space that the indices lead to, from part `k` on.
abbrev pub part : ℕ → List ℕ → ℕ
part k [] = k
part k (j ∷ js) = part (k * 512 + j) js

leaf-zero :
    (m : Memory) (f : ℕ) (js : List ℕ) (i : ℕ) → ((j : ℕ) → m.word f j ≡ 0) → leaf m f js i ≡ 0
unfolding leaf
leaf-zero m f [] i z = z i
leaf-zero m f (j ∷ js) i z = rw (z j) refl

-- A word of an owned frame is as it was, but for the one at `i` of `f`.
abbrev pub KeptBut : Owner → ℕ → ℕ → Memory → Memory → Type 0
KeptBut owner f i m m' =
    (g j l k : ℕ) → owner g ≡ some (l, k) → ((g ≡ f) → (j ≡ i) → ⊥) → m'.word g j ≡ m.word g j

-- That one leads to where it led, or to an empty table instead of nowhere.
abbrev pub Leads : ℕ → ℕ → Memory → Memory → Type 0
Leads f i m m' =
    (m'.word f i ≢ 0)
    × (((m.word f i ≢ 0) × (masked (m'.word f i) ≡ masked (m.word f i)))
        ⊎ ((m.word f i ≡ 0) × ((j : ℕ) → m'.word (masked (m'.word f i)) j ≡ 0)))

-- The walk over such an entry.
pub leaf-go :
    (m : Memory) (f j : ℕ) (js : List ℕ) (i : ℕ)
    → m.word f j ≢ 0
    → leaf m f (j ∷ js) i ≡ leaf m (masked (m.word f j)) js i
unfolding leaf
leaf-go m f j js i h = rw (==_ne (m.word f j) 0 h) refl

pub leaf-stop :
    (m : Memory) (f j : ℕ) (js : List ℕ) (i : ℕ) → m.word f j ≡ 0 → leaf m f (j ∷ js) i ≡ 0
unfolding leaf
leaf-stop m f j js i h = rw h refl

pub is_present-ne_zero : (e : ℕ) → is_present e ≡ true → e ≢ 0
is_present-ne_zero e h z = ground (arith, h, z)

module _ (m m' : Memory) (owner : Owner) (root f i lf kf : ℕ) (t : IsTree m owner root)
    (o : owner f ≡ some (lf, kf)) (inner : lf < 3) (kept : KeptBut owner f i m m')
    (leads : Leads f i m m') where
  -- An entry is as it was, or is the one at `i` of `f`.
  entry : (g j l k : ℕ) → owner g ≡ some (l, k) → (m'.word g j ≡ m.word g j) ⊎ Leads g j m m'
  entry g j l k og = elim (ℕ_discrete g f) [
    | yes a ↦ elim (ℕ_discrete j i) [
      | yes b ↦ inr (rw (a, b) leads)
      | no b ↦ inl (kept g j l k og (λ _ b'. b b'))
    ]
    | no a ↦ inl (kept g j l k og (λ a' _. a a'))
  ]

  -- The words at the ends of all walks are as they were.
  pub leaf-same :
      (g l k : ℕ) (js : List ℕ) (x : ℕ)
      → owner g ≡ some (l, k)
      → l + length js ≡ 3
      → Indices js
      → leaf m' g js x ≡ leaf m g js x
  unfolding leaf
  leaf-same g l k [] x og e h = kept g x l k og (λ a b. last_level a)
    where
      last_level : g ≡ f → ⊥
      last_level a = ground (arith, og, o, e, inner, ap owner a)
  leaf-same g l k (j ∷ js) x og e (hj, hs) = elim (t.linked g l k j og (omega (arith, e)) hj) [
    | inl z ↦ elim (entry g j l k og) [
      | inl s ↦ leaf-stop m' g j js x (s ∙ z) ∙ sym (leaf-stop m g j js x z)
      | inr (n, inl (n', _)) ↦ absurd (n' z)
      | inr (n, inr (_, empty)) ↦
          leaf-go m' g j js x n
          ∙ leaf-zero m' (masked (m'.word g j)) js x empty
          ∙ sym (leaf-stop m g j js x z)
    ]
    | inr (p, oc) ↦
        let deeper =
          leaf-same (masked (m.word g j)) (l + 1) (k * 512 + j) js x oc (omega (arith, e)) hs in
        let n : m.word g j ≢ 0 = λ z. is_present-ne_zero (m.word g j) p z in
        elim (entry g j l k og) [
          | inl s ↦
              leaf-go m' g j js x (λ z. n (sym s ∙ z))
              ∙ ap (λ w. leaf m' (masked w) js x) s
              ∙ deeper
              ∙ sym (leaf-go m g j js x n)
          | inr (n', inl (_, s)) ↦
              leaf-go m' g j js x n'
              ∙ ap (λ w. leaf m' w js x) s
              ∙ deeper
              ∙ sym (leaf-go m g j js x n)
          | inr (_, inr (z, _)) ↦ absurd (n z)
        ]
  ]

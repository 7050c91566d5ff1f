-- ===== src/Mem/Paging/Ensure.antt =====
-- The rounds of `findTableEnsure`, one after the other: they end at the table that the indices lead to.
use aexkernel.Base.{
  ℕ, ◌+◌, ◌*◌, ◌≤◌, ◌<◌, ◌≡◌, ◌≢◌, refl, sym, ap, ◌∙◌, Bool, true, false, inl, inr, some, List, [],
  ◌∷◌, Bool-cases, length, arith,
}
use mathlib.Core.Path.{subst}
use aexkernel.Mem.Paging.{
  Memory, masked, marked, is_present, write_word, fill, phys_alloc, ensure_step, ensure_loop,
}
use aexkernel.Mem.Paging.Tree.{Owner, Supply, IsTree, leaf, leaf-go, leaf-same, Indices, part}
use aexkernel.Mem.Paging.Walk.{Extends, Apart, Stepped, Stepped-present, Stepped-new, masked-marked}

-- A round, its entry being present or 0, and a frame being left.
ensure_step-Stepped :
    (m : Memory) (owner : Owner) (root f i l k : ℕ)
    → IsTree m owner root
    → owner f ≡ some (l, k)
    → l < 3
    → i < 512
    → 1 ≤ length m.frames
    → (m' : Memory) × (f' : ℕ) × (ensure_step m f i ≡ some (m', f'))
      × Stepped m owner root f i l k m' f'
unfolding ensure_step phys_alloc
ensure_step-Stepped m owner root f i l k t o hl hi spare =
    elim (Bool-cases (is_present (m.word f i))) [
      | inl p ↦ (_, _, rw p refl, Stepped-present m owner root f i l k t o hl hi p)
      | inr p ↦ elim (t.linked f l k i o hl hi) [
        | inr (q, _) ↦ absurd (clash p q)
        | inl z ↦ new m.frames refl p z
      ]
    ]
  where
    empty : length m.frames ≡ 0 → 1 ≤ length m.frames → ⊥
    empty a b = omega (arith, a, b)

    clash : {b : Bool} → b ≡ false → b ≡ true → ⊥
    clash a b = cc

    new :
        (fs : List ℕ)
        → m.frames ≡ fs
        → is_present (m.word f i) ≡ false
        → m.word f i ≡ 0
        → (m' : Memory) × (f' : ℕ) × (ensure_step m f i ≡ some (m', f'))
          × Stepped m owner root f i l k m' f'
    new [] e p z = absurd (empty (ap length e) spare)
    new (n ∷ ns) e p z = (
      fill (write_word (record m { frames = ns }) f i (marked n)) (masked (marked n)) 0,
      masked (marked n),
      rw (p, e) refl,
      Stepped-new m owner root f i l k t o hl hi n ns e s z (masked (marked n))
          (masked-marked n ∙ aligned s),
    )
      where
        s : Supply owner (n ∷ ns)
        s = subst (Supply owner) e t.supply

        aligned : Supply owner (n ∷ ns) → masked n ≡ n
        aligned (_, a, _, _) = a

-- The entries at the indices lead from `f` to `t`.
abbrev pub LeadsTo : Memory → ℕ → List ℕ → ℕ → Type 0
LeadsTo m f [] t = f ≡ t
LeadsTo m f (j ∷ js) t = (m.word f j ≢ 0) × LeadsTo m (masked (m.word f j)) js t

pub leaf-LeadsTo :
    (m : Memory) (f : ℕ) (js : List ℕ) (t x : ℕ) → LeadsTo m f js t → leaf m f js x ≡ m.word t x
unfolding leaf
leaf-LeadsTo m f [] t x p = ap (λ g. m.word g x) p
leaf-LeadsTo m f (j ∷ js) t x (n, p) =
    leaf-go m f j js x n ∙ leaf-LeadsTo m (masked (m.word f j)) js t x p

-- What the rounds for the indices have done: they are at the table `t`.
pub record Reached (m : Memory) (owner : Owner) (root f l k : ℕ) (js : List ℕ) (m' : Memory) (t : ℕ)
    : Type 0 where
  pub owner' : Owner
  pub tree : IsTree m' owner' root
  pub owned : owner' t ≡ some (l + length js, part k js)
  pub extends : Extends owner owner'
  pub kept : (g j l' k' : ℕ) → owner g ≡ some (l', k') → l' < l → m'.word g j ≡ m.word g j
  pub same :
      (g l' k' : ℕ) (is : List ℕ) (x : ℕ)
      → owner g ≡ some (l', k')
      → l' + length is ≡ 3
      → Indices is
      → leaf m' g is x ≡ leaf m g is x
  pub path : LeadsTo m' f js t
  pub used : length m.frames ≤ length m'.frames + length js
  pub apart : Apart owner m owner' m'
  pub same_freed : m'.freed ≡ m.freed

-- A round, and what the ones after it have done.
Reached-step :
    (m : Memory) (owner : Owner) (root f l k j : ℕ) (js : List ℕ)
    → IsTree m owner root
    → owner f ≡ some (l, k)
    → l < 3
    → (m₁ : Memory) (f₁ : ℕ) → (s : Stepped m owner root f j l k m₁ f₁) → (m₂ : Memory) (t : ℕ)
    → Reached m₁ s.owner' root f₁ (l + 1) (k * 512 + j) js m₂ t
    → Reached m owner root f l k (j ∷ js) m₂ t
Reached-step m owner root f l k j js tr o inner m₁ f₁ s m₂ t r = record {
  owner' = r.owner';
  tree = r.tree;
  owned = r.owned ∙ ap (λ x. some (x, part (k * 512 + j) js)) levels_add;
  extends = λ g l' k' q. r.extends g l' k' (s.extends g l' k' q);
  kept = λ g j' l' k' q lt.
      r.kept g j' l' k' (s.extends g l' k' q) (omega (arith, lt))
      ∙ s.kept g j' l' k' q (λ a b. other_level g l' k' q lt a);
  same = λ g l' k' is x q e h.
      r.same g l' k' is x (s.extends g l' k' q) e h
      ∙ leaf-same m m₁ owner root f j l k tr o inner s.kept s.leads g l' k' is x q e h;
  path = (
    λ z. s.leads.0 (sym entry ∙ z),
    subst (λ x. LeadsTo m₂ x js t) (sym (ap masked entry ∙ s.target)) r.path,
  );
  used = total s.used r.used;
  apart =
      λ g a. let (a₁, w₁) = s.apart g a in let (a₂, w₂) = r.apart g a₁ in (a₂, λ x. w₂ x ∙ w₁ x);
  same_freed = r.same_freed ∙ s.same_freed;
}
  where
    levels_add : l + 1 + length js ≡ l + length (j ∷ js)
    levels_add = omega arith

    entry : m₂.word f j ≡ m₁.word f j
    entry = r.kept f j l k (s.extends f l k o) (omega arith)

    other_level : (g l' k' : ℕ) → owner g ≡ some (l', k') → l' < l → g ≡ f → ⊥
    other_level g l' k' q lt a = ground (arith, q, o, lt, ap owner a)

    total :
        length m.frames ≤ length m₁.frames + 1
        → length m₁.frames ≤ length m₂.frames + length js
        → length m.frames ≤ length m₂.frames + length (j ∷ js)
    total a b = omega (arith, a, b)

ensure_loop-some :
    (m : Memory) (f j : ℕ) (js : List ℕ) (m₁ : Memory) (f₁ : ℕ)
    → ensure_step m f j ≡ some (m₁, f₁)
    → ensure_loop m f (j ∷ js) ≡ ensure_loop m₁ f₁ js
unfolding ensure_loop
ensure_loop-some m f j js m₁ f₁ q = rw (q, ensure_loop) refl

pub ensure_loop-Reached :
    (m : Memory) (owner : Owner) (root f l k : ℕ) (js : List ℕ)
    → IsTree m owner root
    → owner f ≡ some (l, k)
    → l + length js ≡ 3
    → Indices js
    → length js ≤ length m.frames
    → (m' : Memory) × (t : ℕ) × (ensure_loop m f js ≡ some (m', t))
      × Reached m owner root f l k js m' t
unfolding ensure_loop
ensure_loop-Reached m owner root f l k [] tr o e h spare = (
  m,
  f,
  refl,
  record {
    owner' = owner;
    tree = tr;
    owned = rw (add_zero l) o;
    extends = λ g l' k' q. q;
    kept = λ g j l' k' q lt. refl;
    same = λ g l' k' is x q e' h'. refl;
    path = refl;
    used = omega arith;
    apart = λ g a. (a, λ j. refl);
    same_freed = refl;
  },
)
  where
    add_zero : (a : ℕ) → a + 0 ≡ a
    add_zero a = omega arith
ensure_loop-Reached m owner root f l k (j ∷ js) tr o e (hj, hs) spare =
    let (m₁, f₁, q₁, s) =
      ensure_step-Stepped m owner root f j l k tr o (omega (arith, e)) hj (omega (arith, spare)) in
    let (m₂, t, q₂, r) =
      ensure_loop-Reached m₁ s.owner' root f₁ (l + 1) (k * 512 + j) js s.tree s.owned
        (omega (arith, e)) hs (fewer m₁ s.used) in
    (
      m₂,
      t,
      ensure_loop-some m f j js m₁ f₁ q₁ ∙ q₂,
      Reached-step m owner root f l k j js tr o (omega (arith, e)) m₁ f₁ s m₂ t r,
    )
  where
    fewer : (m₁ : Memory) → length m.frames ≤ length m₁.frames + 1 → length js ≤ length m₁.frames
    fewer m₁ u = omega (arith, u, spare)

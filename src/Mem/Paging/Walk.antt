-- ===== src/Mem/Paging/Walk.antt =====
-- `findTableEnsure` keeps the tables a tree, and the words at the ends of all walks.
use aexkernel.Base.{
  ℕ, ◌+◌, ◌*◌, ◌≤◌, ◌<◌, ◌≡◌, ◌≢◌, refl, sym, ap, ◌∙◌, true, ◌⊎◌, inl, inr, Option, none, some,
  List, [], ◌∷◌, ◌==◌, ==_refl, ==_ne, if◌then◌else◌, length, All, arith,
}
use mathlib.Core.Path.{subst}
use native.Mathlib.Decide.{ℕ_discrete}
use aexkernel.Mem.Paging.{Memory, masked, marked, is_present, write_word, fill}
use aexkernel.Mem.Paging.Tree.{Owner, Supply, IsTree, KeptBut, Leads, is_present-ne_zero}

abbrev pub Extends : Owner → Owner → Type 0
Extends owner owner' = (g l k : ℕ) → owner g ≡ some (l, k) → owner' g ≡ some (l, k)

-- A frame that is no table, and will be none.
abbrev pub Aside : Owner → List ℕ → ℕ → Type 0
Aside owner frames g = (owner g ≡ none) × All (λ x. x ≢ g) frames

-- Such frames stay as they are.
abbrev pub Apart : Owner → Memory → Owner → Memory → Type 0
Apart owner m owner' m' =
    (g : ℕ)
    → Aside owner m.frames g
    → Aside owner' m'.frames g × ((j : ℕ) → m'.word g j ≡ m.word g j)

-- What a round has done: the entry leads to the table `f'` of the next level.
pub record Stepped (m : Memory) (owner : Owner) (root f i l k : ℕ) (m' : Memory) (f' : ℕ)
    : Type 0 where
  pub owner' : Owner
  pub tree : IsTree m' owner' root
  pub owned : owner' f' ≡ some (l + 1, k * 512 + i)
  pub extends : Extends owner owner'
  pub kept : KeptBut owner f i m m'
  pub leads : Leads f i m m'
  pub target : masked (m'.word f i) ≡ f'
  pub used : length m.frames ≤ length m'.frames + 1
  pub apart : Apart owner m owner' m'
  pub same_freed : m'.freed ≡ m.freed

pub word-write_self : (m : Memory) (f i v : ℕ) → (write_word m f i v).word f i ≡ v
word-write_self m f i v = rw (==_refl f, ==_refl i) refl

pub word-write_ne :
    (m : Memory) (f i v g j : ℕ)
    → ((g ≡ f) → (j ≡ i) → ⊥)
    → (write_word m f i v).word g j ≡ m.word g j
word-write_ne m f i v g j h = elim (ℕ_discrete g f) [
  | yes a ↦ elim (ℕ_discrete j i) [
    | yes b ↦ absurd (h a b)
    | no b ↦ rw (a, ==_refl f, ==_ne j i b) refl
  ]
  | no a ↦ rw (==_ne g f a) refl
]

marked_ne_zero : (e : ℕ) → marked e ≢ 0
marked_ne_zero e z = omega arith

is_present-marked : (e : ℕ) → is_present (marked e) ≡ true
is_present-marked e = ground arith

pub masked-marked : (e : ℕ) → masked (marked e) ≡ masked e
masked-marked e = omega arith

module _ (m : Memory) (owner : Owner) (root f i l k : ℕ) (t : IsTree m owner root)
    (o : owner f ≡ some (l, k)) (inner : l < 3) (hi : i < 512) where
  -- An entry that leads to its part's table keeps the tables linked, the new ones being empty.
  linked_on :
      (m' : Memory) (owner' : Owner)
      → KeptBut owner f i m m'
      → is_present (m'.word f i) ≡ true
      → Extends owner owner'
      → owner' (masked (m'.word f i)) ≡ some (l + 1, k * 512 + i)
      → ((g l' k' : ℕ)
          → owner' g ≡ some (l', k')
          → (owner g ≡ some (l', k')) ⊎ ((j : ℕ) → m'.word g j ≡ 0))
      → (g l' k' j : ℕ) → owner' g ≡ some (l', k')
      → l' < 3
      → j < 512
      → (m'.word g j ≡ 0)
        ⊎ ((is_present (m'.word g j) ≡ true)
            × (owner' (masked (m'.word g j)) ≡ some (l' + 1, k' * 512 + j)))
  linked_on m' owner' kept p ext c new g l' k' j og hl hj = elim (new g l' k' og) [
    | inr z ↦ inl (z j)
    | inl og' ↦ elim (ℕ_discrete g f) [
      | yes a ↦ elim (ℕ_discrete j i) [
        | yes b ↦ rw (a, b) (inr (p, c ∙ same_part l' k' (sym o ∙ sym (ap owner a) ∙ og')))
        | no b ↦ old (λ _ b'. b b') og'
      ]
      | no a ↦ old (λ a' _. a a') og'
    ]
  ]
    where
      same_part :
          (l' k' : ℕ)
          → ◌≡◌ {A = Option (ℕ × ℕ)} (some (l, k)) (some (l', k'))
          → ◌≡◌ {A = Option (ℕ × ℕ)} (some (l + 1, k * 512 + i)) (some (l' + 1, k' * 512 + i))
      same_part l' k' h = ground (arith, h)

      old :
          ((g ≡ f) → (j ≡ i) → ⊥)
          → owner g ≡ some (l', k')
          → (m'.word g j ≡ 0)
            ⊎ ((is_present (m'.word g j) ≡ true)
                × (owner' (masked (m'.word g j)) ≡ some (l' + 1, k' * 512 + j)))
      old d og' = rw (kept g j l' k' og' d) (elim (t.linked g l' k' j og' hl hj) [
        | inl z ↦ inl z
        | inr (q, oc) ↦ inr (q, ext (masked (m.word g j)) (l' + 1) (k' * 512 + j) oc)
      ])

  not_new : (n g l' k' : ℕ) → owner n ≡ none → owner g ≡ some (l', k') → g ≢ n
  not_new n g l' k' free og e = some-ne-none (sym og ∙ ap owner e ∙ free)
    where
      some-ne-none : ◌≡◌ {A = Option (ℕ × ℕ)} (some (l', k')) none → ⊥
      some-ne-none h = cc

  -- The entry is present already.
  pub Stepped-present :
      is_present (m.word f i) ≡ true
      → Stepped m owner root f i l k
          (write_word m f i (marked (m.word f i)))
          (masked (marked (m.word f i)))
  Stepped-present h =
      let m' = write_word m f i (marked (m.word f i)) in
      let self : m'.word f i ≡ marked (m.word f i) = word-write_self m f i (marked (m.word f i)) in
      let kept : KeptBut owner f i m m' =
        λ g j l' k' q d. word-write_ne m f i (marked (m.word f i)) g j d in
      let old : masked (m'.word f i) ≡ masked (m.word f i) =
        ap masked self ∙ masked-marked (m.word f i) in
      record {
        owner' = owner;
        tree = record {
          rooted = t.rooted;
          linked =
              linked_on m' owner kept (ap is_present self ∙ is_present-marked (m.word f i))
                (λ g l' k' q. q) (ap owner old ∙ child (t.linked f l k i o inner hi))
                (λ g l' k' q. inl q);
          supply = t.supply;
        };
        owned = ap owner (masked-marked (m.word f i)) ∙ child (t.linked f l k i o inner hi);
        extends = λ g l' k' q. q;
        kept = kept;
        leads = (
          λ z. marked_ne_zero (m.word f i) (sym self ∙ z),
          inl (is_present-ne_zero (m.word f i) h, old),
        );
        target = ap masked self;
        used = omega arith;
        same_freed = refl;
        apart = λ g (q, d). (
          (q, d),
          λ j. word-write_ne m f i (marked (m.word f i)) g j (λ a _. not_new g f l k q o (sym a)),
        );
      }
    where
      child :
          ((m.word f i ≡ 0)
            ⊎ ((is_present (m.word f i) ≡ true)
                × (owner (masked (m.word f i)) ≡ some (l + 1, k * 512 + i))))
          → owner (masked (m.word f i)) ≡ some (l + 1, k * 512 + i)
      child (inl z) = absurd (is_present-ne_zero (m.word f i) h z)
      child (inr (_, c)) = c

  abbrev with_table : ℕ → Owner
  with_table n g = if g == n then some (l + 1, k * 512 + i) else owner g

  Supply-with_table :
      (n : ℕ) (ns : List ℕ) → Supply owner ns → All (λ x. x ≢ n) ns → Supply (with_table n) ns
  Supply-with_table n [] s a = tt
  Supply-with_table n (x ∷ ns) (o', e, d, s) (a, as') =
      (rw (==_ne x n a) o', e, d, Supply-with_table n ns s as')

  -- A new table is taken from the supply, and cleared.
  pub Stepped-new :
      (n : ℕ) (ns : List ℕ)
      → m.frames ≡ n ∷ ns
      → Supply owner (n ∷ ns)
      → m.word f i ≡ 0
      → (n' : ℕ) → n' ≡ n
      → Stepped m owner root f i l k
          (fill (write_word (record m { frames = ns }) f i (marked n)) n' 0)
          n'
  Stepped-new n ns e (free, aligned, others, rest) z n' en =
      let m₁ = record m { frames = ns } in
      let m' = fill (write_word m₁ f i (marked n)) n' 0 in
      let free' : owner n' ≡ none = ap owner en ∙ free in
      let owner' = with_table n' in
      let other : (g l' k' : ℕ) → owner g ≡ some (l', k') → g ≢ n' =
        λ g l' k' og. not_new n' g l' k' free' og in
      let self : m'.word f i ≡ marked n =
        ap (λ b. if b then 0 else (write_word m₁ f i (marked n)).word f i)
          (==_ne f n' (other f l k o))
        ∙ word-write_self m₁ f i (marked n) in
      let kept : KeptBut owner f i m m' = λ g j l' k' q d.
        ap (λ b. if b then 0 else (write_word m₁ f i (marked n)).word g j)
          (==_ne g n' (other g l' k' q))
        ∙ word-write_ne m₁ f i (marked n) g j d in
      let empty : (j : ℕ) → m'.word n' j ≡ 0 =
        λ j. ap (λ b. if b then 0 else (write_word m₁ f i (marked n)).word n' j) (==_refl n') in
      let target : masked (m'.word f i) ≡ n' =
        ap masked self ∙ masked-marked n ∙ aligned ∙ sym en in
      let owned : owner' n' ≡ some (l + 1, k * 512 + i) =
        ap (λ b. if b then some (l + 1, k * 512 + i) else owner n') (==_refl n') in
      let ext : Extends owner owner' = λ g l' k' q.
        ap (λ b. if b then some (l + 1, k * 512 + i) else owner g) (==_ne g n' (other g l' k' q))
        ∙ q in
      record {
        owner' = owner';
        tree = record {
          rooted = ext root 0 0 t.rooted;
          linked =
              linked_on m' owner' kept (ap is_present self ∙ is_present-marked n) ext
                (ap owner' target ∙ owned) (λ g l' k' q. new_one n' m'.word empty g l' k' q);
          supply = Supply-with_table n' ns rest (subst (λ x. All (λ y. y ≢ x) ns) (sym en) others);
        };
        owned = owned;
        extends = ext;
        kept = kept;
        leads = (
          λ z'. marked_ne_zero n (sym self ∙ z'),
          inr (z, λ j. ap (λ x. m'.word x j) target ∙ empty j),
        );
        target = target;
        used = rw e (omega arith);
        same_freed = refl;
        apart = λ g (q, d).
            let (head, tail) : (n ≢ g) × All (λ x. x ≢ g) ns =
              subst (λ fs. All (λ x. x ≢ g) fs) e d in
            (
              (
                ap (λ b. if b then some (l + 1, k * 512 + i) else owner g)
                      (==_ne g n' (λ a. head (sym en ∙ sym a)))
                    ∙ q,
                tail,
              ),
              λ j.
                  ap (λ b. if b then 0 else (write_word m₁ f i (marked n)).word g j)
                    (==_ne g n' (λ a. head (sym en ∙ sym a)))
                  ∙ word-write_ne m₁ f i (marked n) g j (λ a _. not_new g f l k q o (sym a)),
            );
      }
    where
      new_one :
          (n' : ℕ)
          → (w : ℕ → ℕ → ℕ) → ((j : ℕ) → w n' j ≡ 0)
          → (g l' k' : ℕ) → with_table n' g ≡ some (l', k')
          → (owner g ≡ some (l', k')) ⊎ ((j : ℕ) → w g j ≡ 0)
      new_one n' w empty g l' k' q = elim (ℕ_discrete g n') [
        | yes a ↦ inr (λ j. ap (λ x. w x j) a ∙ empty j)
        | no a ↦
            inl
              (sym (ap (λ b. if b then some (l + 1, k * 512 + i) else owner g) (==_ne g n' a)) ∙ q)
      ]

-- ===== src/Fs/Path/Written.antt =====
-- The buffer of `canonize_path`, and what a piece does to it.
use aexkernel.Base.{
  ℕ, suc, ◌+◌, ◌≤◌, ◌<◌, ◌≡◌, ◌≢◌, refl, sym, ap, ◌∙◌, true, false, ◌⊎◌, inl, inr, Option, some,
  List, [], ◌∷◌, ◌++◌, ◌==◌, ==_ne, ==_iff, Bool-cases, if◌then◌else◌, leb, length, length-append,
  min, take, take_all, All, arith,
}
use mathlib.Core.Path.{subst}
use native.Mathlib.Decide.{ℕ_discrete}
use aexkernel.Fs.Path.{slash, Buffer, put, store, is_dot, is_dot_dot, climb, canonize_piece}
use aexkernel.Fs.Path.Pieces.{Short}
use aexkernel.Fs.Path.Buffers.{
  render, step_into, Holds, Holds-append, Holds-split, Holds-same, put_other, put_self, store-below,
  store-Holds, climb-to,
}

-- A piece of a path: not empty, and without a slash.
abbrev pub IsPiece : List ℕ → Type 0
IsPiece piece = (1 ≤ length piece) × All (λ c. c ≢ slash) piece

pub no_slash :
    (b : Buffer) (i : ℕ) (piece : List ℕ)
    → All (λ c. c ≢ slash) piece
    → Holds b i piece
    → (j : ℕ) → i ≤ j
    → j < i + length piece
    → b j ≢ slash
no_slash b i [] a h j low high = absurd (omega (arith, low, high))
no_slash b i (c ∷ cs) (a, as') (h, hs) j low high = elim (ℕ_discrete j i) [
  | yes e ↦ λ z. a (sym h ∙ sym (ap b e) ∙ z)
  | no n ↦ no_slash b (i + 1) cs as' hs j (omega (arith, low, n)) (omega (arith, high))
]

-- The buffer has the pieces, and ends behind them where there is one.
pub record Written (b : Buffer) (index : ℕ) (pieces : List (List ℕ)) : Type 0 where
  pub at_end : index ≡ length (render pieces)
  pub holds : Holds b 0 (render pieces)
  pub ended : (index ≡ 0) ⊎ (b index ≡ 0)
  pub all_pieces : All IsPiece pieces

-- Up from the last piece.
climb-Written :
    (b : Buffer) (index : ℕ) (x : List ℕ) (xs : List (List ℕ))
    → Written b index (x ∷ xs)
    → climb b index ≡ length (render xs)
unfolding render
climb-Written b index x xs w =
    let k = length (render xs) in
    let (_, (at_slash, piece_held)) = Holds-split b 0 (render xs) (slash ∷ x) w.holds in
    let long : index ≡ k + suc (length x) = w.at_end ∙ length-append (render xs) (slash ∷ x) in
    ap (climb b) long
    ∙ climb-to b k (suc (length x)) (inr (ap b (sym (zero_more k)) ∙ at_slash)) (λ j low high.
      elim (ℕ_discrete j index) [
        | yes e ↦ λ z. elim w.ended [
          | inl y ↦ omega (arith, y, long)
          | inr y ↦ not_slash (sym y ∙ ap b (sym e) ∙ z)
        ]
        | no n ↦
            no_slash b (0 + k + 1) x (w.all_pieces.0.1) piece_held j (omega (arith, low))
              (omega (arith, high, n, long))
      ])
  where
    zero_more : (y : ℕ) → 0 + y ≡ y
    zero_more y = omega arith

    not_slash : ◌≡◌ {A = ℕ} 0 slash → ⊥
    not_slash e = omega (arith, e)

up-Written :
    (b : Buffer) (index : ℕ) (x : List ℕ) (xs : List (List ℕ))
    → Written b index (x ∷ xs)
    → let k = length (render xs) in
      Written (if k == 0 then b else put b k 0) (if k == 0 then 0 else k) xs
unfolding render
up-Written b index x xs w =
    let k = length (render xs) in
    let (kept, _) = Holds-split b 0 (render xs) (slash ∷ x) w.holds in
    elim (ℕ_discrete k 0) [
      | yes z ↦
          rw ((==_iff k 0).1 z)
            (record { at_end = sym z; holds = kept; ended = inl refl; all_pieces = w.all_pieces.1 })
      | no n ↦ rw (==_ne k 0 n) (record {
        at_end = refl;
        holds =
            Holds-same b (put b k 0) 0 (render xs)
              (λ j low high. put_other b k 0 j (λ e. omega (arith, e, high))) kept;
        ended = inr (put_self b k 0);
        all_pieces = w.all_pieces.1;
      })
    ]

push-Written :
    (b : Buffer) (index : ℕ) (pieces : List (List ℕ)) (piece : List ℕ)
    → Written b index pieces
    → IsPiece piece
    → Written
        (store (put b index slash) (index + 1) (piece ++ 0 ∷ []))
        (index + 1 + length piece)
        (piece ∷ pieces)
unfolding render
push-Written b index pieces piece w p =
    let b' = store (put b index slash) (index + 1) (piece ++ 0 ∷ []) in
    let (held, (last, _)) =
      Holds-split b' (index + 1) piece (0 ∷ [])
        (store-Holds (put b index slash) (index + 1) (piece ++ 0 ∷ [])) in
    let kept : (j : ℕ) → 0 ≤ j → j < 0 + length (render pieces) → b' j ≡ b j = λ j low high.
      store-below (put b index slash) (index + 1) (piece ++ 0 ∷ []) j
        (omega (arith, high, w.at_end))
      ∙ put_other b index slash j (λ e. omega (arith, e, high, w.at_end)) in
    let here : b' index ≡ slash =
      store-below (put b index slash) (index + 1) (piece ++ 0 ∷ []) index (omega arith)
      ∙ put_self b index slash in
    record {
      at_end = longer ∙ sym (length-append (render pieces) (slash ∷ piece));
      holds =
          Holds-append b' 0 (render pieces) (slash ∷ piece)
            (Holds-same b b' 0 (render pieces) kept w.holds)
            (subst (λ i. Holds b' i (slash ∷ piece)) start (here, held));
      ended = inr last;
      all_pieces = (p, w.all_pieces);
    }
  where
    longer : index + 1 + length piece ≡ length (render pieces) + suc (length piece)
    longer = omega (arith, w.at_end)

    start : index ≡ 0 + length (render pieces)
    start = omega (arith, w.at_end)

pub canonize_piece-Written :
    (limit : ℕ) (piece : List ℕ) (b : Buffer) (index : ℕ) (pieces : List (List ℕ))
    → Written b index pieces
    → IsPiece piece
    → Short piece
    → index + length piece < limit
    → (b' : Buffer) × (index' : ℕ) × (canonize_piece limit piece b index ≡ some (b', index'))
      × Written b' index' (step_into pieces piece)
      × (index' ≤ index + 1 + length piece)
unfolding canonize_piece step_into render climb
canonize_piece-Written limit piece b index pieces w p short room =
    elim (Bool-cases (is_dot piece)) [
      | inl d ↦ rw d (b, index, refl, stay pieces w d, omega arith)
      | inr d ↦ elim (Bool-cases (is_dot_dot piece)) [
        | inl u ↦ rw (d, u) (up pieces w d u)
        | inr u ↦
            rw (d, u, enough, all_of_it)
              (
                store (put b index slash) (index + 1) (piece ++ 0 ∷ []),
                index + 1 + length piece,
                refl,
                pushed pieces w d u,
                omega arith,
              )
      ]
    ]
  where
    stay :
        (ps : List (List ℕ))
        → Written b index ps
        → is_dot piece ≡ true
        → Written b index (step_into ps piece)
    stay [] x d = rw d x
    stay (y ∷ ys) x d = rw d x

    enough : leb limit (index + length piece) ≡ false
    enough = ground (arith, room)

    all_of_it : take (min (length piece) 2047) piece ≡ piece
    all_of_it = take_all (min (length piece) 2047) piece (omega (arith, short))

    pushed :
        (ps : List (List ℕ))
        → Written b index ps
        → is_dot piece ≡ false
        → is_dot_dot piece ≡ false
        → Written
            (store (put b index slash) (index + 1) (piece ++ 0 ∷ []))
            (index + 1 + length piece)
            (step_into ps piece)
    pushed [] x d u = rw (d, u) (push-Written b index [] piece x p)
    pushed (y ∷ ys) x d u = rw (d, u) (push-Written b index (y ∷ ys) piece x p)

    up :
        (ps : List (List ℕ))
        → Written b index ps
        → is_dot piece ≡ false
        → is_dot_dot piece ≡ true
        → (b' : Buffer) × (index' : ℕ) × (if◌then◌else◌ {A = Option (Buffer × ℕ)}
              (climb b index == 0)
              (some (b, 0))
              (some (put b (climb b index) 0, climb b index))
            ≡ some (b', index'))
          × Written b' index' (step_into ps piece)
          × (index' ≤ index + 1 + length piece)
    up [] x d u = (b, 0, rw (ap (climb b) x.at_end) refl, rw (d, u) at_root, omega arith)
      where
        at_root : Written b 0 []
        at_root = record { at_end = refl; holds = tt; ended = inl refl; all_pieces = tt }
    up (y ∷ ys) x d u =
        let k = length (render ys) in
        (
          if k == 0 then b else put b k 0,
          if k == 0 then 0 else k,
          rw (climb-Written b index y ys x) (choose k),
          rw (d, u) (up-Written b index y ys x),
          lower k (length y) (x.at_end ∙ length-append (render ys) (slash ∷ y)),
        )
      where
        choose :
            (k : ℕ)
            → if◌then◌else◌ {A = Option (Buffer × ℕ)} (k == 0) (some (b, 0)) (some (put b k 0, k))
              ≡ some (if k == 0 then b else put b k 0, if k == 0 then 0 else k)
        choose k = elim (Bool-cases (k == 0)) [ inl e ↦ rw e refl | inr e ↦ rw e refl ]

        lower : (k l : ℕ) → index ≡ k + suc l → (if k == 0 then 0 else k) ≤ index + 1 + length piece
        lower k l e = ground (arith, e)

-- ===== src/Fs/Path/Canonize.antt =====
-- What `canonize_path` leaves in its buffer.
use aexkernel.Base.{
  ℕ, zero, suc, ◌+◌, ◌-◌, ◌≤◌, ◌<◌, ◌≡◌, ◌≢◌, refl, sym, ap, ◌∙◌, Bool, true, false, ◌&&◌, ◌⊎◌, inl,
  inr, some, List, [], ◌∷◌, ◌++◌, ==_ne, ==_iff, Bool-cases, if◌then◌else◌, get_or, ◌==◌, ltb, leb,
  length, length-append, All, append_assoc, append-nil, arith,
}
use mathlib.Core.Path.{subst}
use aexkernel.Fs.Path.{
  slash, first, Walker, walker, next, ends_with_slash, Buffer, put, store, canonize_piece,
  canonize_loop, canonize_base, canonize_end, canonize_path,
}
use aexkernel.Fs.Path.Pieces.{Short, next-component}
use aexkernel.Fs.Path.Components.{components}
use aexkernel.Fs.Path.Written.{no_slash, IsPiece, Written, canonize_piece-Written}
use aexkernel.Fs.Path.Buffers.{
  render, step_into, resolve, Holds, Holds-append, Holds-split, Holds-same, put_other, put_self,
  store-Holds,
}
use aexkernel.Fs.Path.Room.{components-IsPiece, cost, cost-components}

canonize_loop-some :
    (n limit : ℕ) (w w' : Walker) (piece : List ℕ) (b : Buffer) (index : ℕ) (b' : Buffer)
    (index' : ℕ)
    → next w ≡ (some piece, w')
    → canonize_piece limit piece b index ≡ some (b', index')
    → canonize_loop (suc n) limit w b index ≡ canonize_loop n limit w' b' index'
unfolding canonize_loop
canonize_loop-some n limit w w' piece b index b' index' q r =
    rw (ap (λ x. x.0) q, r, canonize_loop) (ap (λ x. canonize_loop n limit x.1 b' index') q)

canonize_loop-Written :
    (n limit : ℕ) (w : Walker) (b : Buffer) (index : ℕ) (pieces : List (List ℕ))
    → w.too_long ≡ false
    → All Short (components w.rest)
    → length w.rest < n
    → index + cost (components w.rest) ≤ limit
    → Written b index pieces
    → (b' : Buffer) × (index' : ℕ) × (canonize_loop n limit w b index ≡ some (b', index'))
      × Written b' index' (resolve pieces (components w.rest))
      × (index' ≤ index + cost (components w.rest))
unfolding canonize_loop resolve cost
canonize_loop-Written zero limit w b index pieces h short lt room x =
    absurd (none_below (length w.rest) lt)
  where
    none_below : (y : ℕ) → y < 0 → ⊥
    none_below y l = omega (arith, l)
canonize_loop-Written (suc n) limit w b index pieces h short lt room x =
    elim (next-component w h short) [
      | inl (z, q) ↦ (b, index, rw (q, canonize_loop) refl, rw z x, omega arith)
      | inr (piece, rest, q, parts, less, some_chars) ↦
          let (short₁, short') : Short piece × All Short (components rest) =
            subst (All Short) parts short in
          let (p, _) : IsPiece piece × All IsPiece (components rest) =
            subst (All IsPiece) parts (components-IsPiece w.rest) in
          let room' : index + cost (piece ∷ components rest) ≤ limit =
            subst (λ y. index + cost y ≤ limit) parts room in
          let (b₁, index₁, e₁, x₁, l₁) =
            canonize_piece-Written limit piece b index pieces x p short₁ (omega (arith, room')) in
          let w' = record w { rest = rest; at_level = w.at_level + 1 } in
          let (b₂, index₂, e₂, x₂, l₂) =
            canonize_loop-Written n limit w' b₁ index₁ (step_into pieces piece) h short'
              (omega (arith, lt, less, some_chars)) (omega (arith, room', l₁)) x₁ in
          (
            b₂,
            index₂,
            canonize_loop-some n limit w w' piece b index b₁ index₁ q e₁ ∙ e₂,
            subst (λ y. Written b₂ index₂ (resolve pieces y)) (sym parts) x₂,
            subst (λ y. index₂ ≤ index + cost y) (sym parts) (omega (arith, l₁, l₂)),
          )
    ]

-- The string in the buffer.
abbrev pub Reads : Buffer → List ℕ → Type 0
Reads b xs = Holds b 0 (xs ++ 0 ∷ [])

-- What the path is resolved from: the root, or the base, which is the pieces `pieces` with slashes.
abbrev pub StartsAt : List ℕ → List ℕ → List (List ℕ) → Type 0
StartsAt path base pieces =
    ((first path ≡ slash) × (pieces ≡ []))
    ⊎ ((first path ≢ slash) × (base ≡ render pieces) × (1 ≤ length base) × All IsPiece pieces)

last_char :
    (b : Buffer) (pieces : List (List ℕ))
    → Holds b 0 (render pieces)
    → 1 ≤ length (render pieces)
    → All IsPiece pieces
    → b (length (render pieces) - 1) ≢ slash
unfolding render
last_char b [] h l a = absurd (omega (arith, l))
last_char b (x ∷ xs) h l ((some_chars, no_slashes), _) =
    let (_, (_, held)) = Holds-split b 0 (render xs) (slash ∷ x) h in
    let long = length-append (render xs) (slash ∷ x) in
    no_slash b (0 + length (render xs) + 1) x no_slashes held (length (render xs ++ slash ∷ x) - 1)
      (omega (arith, long, some_chars)) (omega (arith, long, some_chars))

canonize_base-Written :
    (limit : ℕ) (path base : List ℕ) (b : Buffer) (pieces : List (List ℕ))
    → StartsAt path base pieces
    → length base ≤ limit
    → (b' : Buffer) × (index : ℕ) × (canonize_base limit path base b ≡ some (b', index))
      × Written b' index pieces
      × (index ≤ length base)
unfolding canonize_base render
canonize_base-Written limit path base b pieces (inl (e, z)) room = (
  put (put (put b 0 slash) 1 0) limit 0,
  0,
  rw ((==_iff (first path) slash).1 e, not_relative (ltb 0 (length base))) refl,
  rw z (record { at_end = refl; holds = tt; ended = inl refl; all_pieces = tt }),
  omega arith,
)
  where
    not_relative : (x : Bool) → (x && false) ≡ false
    not_relative true = refl
    not_relative false = refl
canonize_base-Written limit path base b pieces (inr (n, e, some_chars, a)) room =
    let b₁ = put (put (put b 0 slash) 1 0) limit 0 in
    let b₂ = put (store b₁ 0 base) (length base) 0 in
    let held : Holds b₂ 0 base =
      Holds-same (store b₁ 0 base) b₂ 0 base
        (λ j low high. put_other (store b₁ 0 base) (length base) 0 j (λ x. omega (arith, x, high)))
        (store-Holds b₁ 0 base) in
    let held' = subst (Holds b₂ 0) e held in
    (
      b₂,
      length base,
      rw
          (
            relative,
            ==_ne (first path) slash n,
            fits,
            ==_ne (b₂ (length base - 1)) slash (last b₂ held'),
          )
          refl,
      record {
        at_end = ap length e;
        holds = held';
        ended = inr (put_self (store b₁ 0 base) (length base) 0);
        all_pieces = a;
      },
      omega arith,
    )
  where
    relative : ltb 0 (length base) ≡ true
    relative = ground (arith, some_chars)

    fits : ltb limit (length base) ≡ false
    fits = ground (arith, room)

    last : (b' : Buffer) → Holds b' 0 (render pieces) → b' (length base - 1) ≢ slash
    last b' h =
        subst (λ x. b' (length x - 1) ≢ slash) (sym e)
          (last_char b' pieces h (subst (λ x. 1 ≤ length x) e some_chars) a)

canonize_end-Reads :
    (limit before : ℕ) (path : List ℕ) (b : Buffer) (index : ℕ) (pieces : List (List ℕ))
    → Written b index pieces
    → index < limit
    → (1 ≤ length pieces) ⊎ (ends_with_slash before path ≡ true)
    → (b' : Buffer) × (canonize_end limit before path b index ≡ some b')
      × Reads b' (render pieces ++ (if ends_with_slash before path then slash ∷ [] else []))
unfolding canonize_end render
canonize_end-Reads limit before path b index pieces w room some_or_slash =
    elim (Bool-cases (ends_with_slash before path)) [
      | inl y ↦ (
        put (put b index slash) (index + 1) 0,
        rw (y, fits) refl,
        rw y (
            subst (Holds (put (put b index slash) (index + 1) 0) 0)
              (sym (append_assoc (render pieces) (slash ∷ []) (0 ∷ [])))
              (Holds-append (put (put b index slash) (index + 1) 0) 0 (render pieces)
                (slash ∷ 0 ∷ [])
                (Holds-same b (put (put b index slash) (index + 1) 0) 0 (render pieces)
                  (λ j low high.
                    put_other (put b index slash) (index + 1) 0 j
                      (λ e. omega (arith, e, high, w.at_end))
                    ∙ put_other b index slash j (λ e. omega (arith, e, high, w.at_end)))
                  w.holds)
                (subst (λ i. Holds (put (put b index slash) (index + 1) 0) i (slash ∷ 0 ∷ [])) start
                  (
                    put_other (put b index slash) (index + 1) 0 index (λ e. omega (arith, e))
                        ∙ put_self b index slash,
                    (put_self (put b index slash) (index + 1) 0, tt),
                  )))),
      )
      | inr n ↦ (
        b,
        rw n refl,
        rw n (
            subst (λ xs. Holds b 0 (xs ++ 0 ∷ [])) (sym (append-nil (render pieces)))
              (Holds-append b 0 (render pieces) (0 ∷ []) w.holds
                (subst (λ i. Holds b i (0 ∷ [])) start (at_nul pieces w n some_or_slash, tt)))),
      )
    ]
  where
    fits : leb limit index ≡ false
    fits = ground (arith, room)

    start : index ≡ 0 + length (render pieces)
    start = omega (arith, w.at_end)

    at_nul :
        (ps : List (List ℕ))
        → Written b index ps
        → ends_with_slash before path ≡ false
        → (1 ≤ length ps) ⊎ (ends_with_slash before path ≡ true)
        → b index ≡ 0
    at_nul ps x n (inr y) = absurd (clash n y)
      where
        clash : {t : Bool} → t ≡ false → t ≡ true → ⊥
        clash p q = cc
    at_nul [] x n (inl l) = absurd (omega (arith, l))
    at_nul (y ∷ ys) x n (inl l) = elim x.ended [
      | inr z ↦ z
      | inl z ↦ absurd (omega (arith, z, x.at_end, length-append (render ys) (slash ∷ y)))
    ]

-- The last character is a slash.
abbrev pub slash_last : List ℕ → Bool
slash_last path = get_or path (length path - 1) 0 == slash

ends_with_slash-last :
    (before : ℕ) (path : List ℕ) → 1 ≤ length path → ends_with_slash before path ≡ slash_last path
unfolding ends_with_slash
ends_with_slash-last before [] h = absurd (omega (arith, h))
ends_with_slash-last before (c ∷ cs) h = refl

-- A path that is not empty and starts with a slash, or one that does not and a base that is pieces with a slash before
-- each, no component having more than 255 characters and the buffer being 3 bytes longer than both:
-- unless all pieces are taken back by `..` and the path ends without a slash, `canonize_path` leaves
-- the pieces to which the components resolve, with a slash before each and the path's last slash.
pub canonize_path-Reads :
    (before : ℕ) (path base : List ℕ) (b : Buffer) (buffer_len : ℕ) (pieces : List (List ℕ))
    → 1 ≤ length path
    → StartsAt path base pieces
    → All Short (components path)
    → length base + length path + 3 ≤ buffer_len
    → (1 ≤ length (resolve pieces (components path))) ⊎ (slash_last path ≡ true)
    → (b' : Buffer) × (canonize_path before path base b buffer_len ≡ some b')
      × Reads b' (
          render (resolve pieces (components path)) ++ (if slash_last path then slash ∷ [] else []))
unfolding canonize_path walker
canonize_path-Reads before path base b buffer_len pieces some_chars starts short room
      some_or_slash =
    let (b₁, index₁, e₁, x₁, l₁) =
      canonize_base-Written (buffer_len - 1) path base b pieces starts (omega (arith, room)) in
    let (b₂, index₂, e₂, x₂, l₂) =
      canonize_loop-Written (length path + 1) (buffer_len - 1) (walker path) b₁ index₁ pieces refl
        short (omega arith) (omega (arith, room, l₁, cost-components path)) x₁ in
    let (b₃, e₃, x₃) =
      canonize_end-Reads (buffer_len - 1) before path b₂ index₂ (resolve pieces (components path))
        x₂ (omega (arith, room, l₁, l₂, cost-components path))
        (subst (λ t. (1 ≤ length (resolve pieces (components path))) ⊎ (t ≡ true)) (sym last)
          some_or_slash) in
    (
      b₃,
      rw (enough, e₁, e₂, canonize_path) e₃,
      subst
          (λ t.
            Reads b₃ (render (resolve pieces (components path)) ++ (if t then slash ∷ [] else [])))
          last x₃,
    )
  where
    last : ends_with_slash before path ≡ slash_last path
    last = ends_with_slash-last before path some_chars

    enough : ltb buffer_len 2 ≡ false
    enough = ground (arith, room)

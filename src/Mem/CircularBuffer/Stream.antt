-- ===== src/Mem/CircularBuffer/Stream.antt =====
-- The stream of bytes that a read takes from: what it has got, and what the others add.
use aexkernel.Base.{
  ℕ, zero, suc, ◌+◌, ◌-◌, ◌≤◌, ◌<◌, ◌≡◌, refl, sym, ap, ◌∙◌, min, arith, Bool, true, false, List,
  [], ◌∷◌, ◌++◌, append-nil, append_assoc, length, ◌≢◌, ==_ne, length-append, take, drop, ◌⊎◌,
}
use aexkernel.Base.Int.{ℤ}
use mathlib.Core.Path.{subst}
use aexkernel.Mem.CircularBuffer.{
  CircularBuffer, Turn, Outcome, finished, waiting, stuck, slice, take_out, read_loop,
  read_gives_up,
}
use aexkernel.Mem.CircularBuffer.Distance.{IsValid, used, read_available_cut_lem}
use aexkernel.Mem.CircularBuffer.Window.{contents, take_out-contents, take_out-IsValid}

-- The bytes that one round copies.
abbrev pub chunk : CircularBuffer → ℕ → ℕ
chunk cb n = min n (min (cb.size - cb.read_pos) (used cb))

pub chunk_pos : {cb : CircularBuffer} (n : ℕ) → IsValid cb → 0 < n → 0 < used cb → 0 < chunk cb n
chunk_pos n v p q = omega (arith, v)

pub length-slice : (buf : List ℕ) (i n : ℕ) → length (slice buf i n) ≡ n
unfolding slice
length-slice buf i zero = refl
length-slice buf i (suc n) = ap suc (length-slice buf (i + 1) n)

-- What a round of copying gives.
pub record Round (cb : CircularBuffer) (n : ℕ) : Type 0 where
  pub valid : IsValid (take_out cb (chunk cb n))
  pub bytes :
      contents cb ≡ slice cb.buffer cb.read_pos (chunk cb n) ++ contents (take_out cb (chunk cb n))
  pub count : used (take_out cb (chunk cb n)) + chunk cb n ≡ used cb

pub round : {cb : CircularBuffer} (n : ℕ) → IsValid cb → Round cb n
round {cb} n v = record {
  valid = (take_out-IsValid (chunk cb n) v (omega arith) (omega (arith, v))).0;
  bytes = take_out-contents (chunk cb n) v (omega arith) (omega (arith, v));
  count = (take_out-IsValid (chunk cb n) v (omega arith) (omega (arith, v))).1;
}

pub read_loop_copies :
    {cb : CircularBuffer} (fuel : ℕ) (turns : List Turn) (quota : ℤ) (l : ℕ) (out : List ℕ)
    → IsValid cb
    → chunk cb (suc l) ≢ 0
    → read_loop (suc fuel) turns quota cb (suc l) out
      ≡ read_loop fuel turns quota
          (take_out cb (chunk cb (suc l)))
          (suc l - chunk cb (suc l))
          (out ++ slice cb.buffer cb.read_pos (chunk cb (suc l)))
unfolding read_loop
read_loop_copies fuel turns quota l out v h = rw (read_available_cut_lem v, ==_ne _ 0 h) refl

-- What the others do in a turn, with the bytes that they put in.
pub record Addition : Type 0 where
  pub turn : Turn
  pub bytes : List ℕ

abbrev pub turns_of : List Addition → List Turn
turns_of [] = []
turns_of (a ∷ rest) = a.turn ∷ turns_of rest

abbrev pub bytes_of : List Addition → List ℕ
bytes_of [] = []
bytes_of (a ∷ rest) = a.bytes ++ bytes_of rest

-- The others find an empty buffer of `n` bytes, as it is where a read waits. They leave it valid, of
-- that size, with just those bytes in it.
abbrev pub Adds : ℕ → Addition → Type 0
Adds n a =
    (cb : CircularBuffer)
    → IsValid cb
    → cb.size ≡ n
    → used cb ≡ 0
    → IsValid (a.turn.others cb)
      × ((a.turn.others cb).size ≡ n)
      × (contents (a.turn.others cb) ≡ contents cb ++ a.bytes)

-- The bytes read so far and those that are left make up the stream: what the buffer held, and then
-- what the others have put in since (`added`).
pub record Got (cb : CircularBuffer) (len : ℕ) (out added : List ℕ) (cb' : CircularBuffer)
    (out' : List ℕ) : Type 0 where
  pub valid : IsValid cb'
  pub stream : out' ++ contents cb' ≡ out ++ (contents cb ++ added)
  pub at_least : length out ≤ length out'
  pub at_most : length out' ≤ length out + len

-- Nobody interrupts the thread in these turns.
abbrev pub calm : List Turn → Bool
calm [] = true
calm (t ∷ ts) = elim t.interrupted [ true ↦ false | false ↦ calm ts ]

-- The call gives up in the first of the turns that are left, with `out'` of `total` bytes.
abbrev pub GaveUp : ℤ → List Addition → ℕ → CircularBuffer → List ℕ → Type 0
GaveUp quota [] total cb' out' = ⊥
GaveUp quota (a ∷ _) total cb' out' =
    read_gives_up quota cb' (total - length out') (length out') a.turn.interrupted ≡ true

-- What `read` of `len` bytes may end in. It returns after `k` turns, with all of the bytes or since it
-- gives up in the next turn, or it still waits when the turns are over. What the others have put in is
-- the bytes of the turns that have passed. It has all of the bytes if no quota was given and nobody
-- interrupted it.
abbrev pub Served :
    ℤ → List Addition → CircularBuffer → ℕ → List ℕ → Bool → Outcome (List ℕ) → Type 0
Served quota adds cb len out whole (finished cb' out') =
    (k : ℕ) × (k ≤ length adds)
    × Got cb len out (bytes_of (take k adds)) cb' out'
    × ((length out' ≡ length out + len) ⊎ GaveUp quota (drop k adds) (length out + len) cb' out')
    × (whole ≡ true → length out' ≡ length out + len)
Served quota adds cb len out whole (waiting cb' out') =
    Got cb len out (bytes_of adds) cb' out' × (length out' < length out + len)
Served quota adds cb len out whole stuck = ⊥

Got-copied :
    {cb cb' : CircularBuffer} {len : ℕ} {out out' : List ℕ} (added : List ℕ)
    → Round cb len
    → Got
        (take_out cb (chunk cb len))
        (len - chunk cb len)
        (out ++ slice cb.buffer cb.read_pos (chunk cb len))
        added
        cb'
        out'
    → Got cb len out added cb' out'
Got-copied {cb} {cb'} {len} {out} {out'} added r g = record {
  valid = g.valid;
  stream =
      g.stream
      ∙ append_assoc out front (contents (take_out cb n) ++ added)
      ∙ ap (λ l. out ++ l) (sym (append_assoc front (contents (take_out cb n)) added))
      ∙ ap (λ l. out ++ (l ++ added)) (sym r.bytes);
  at_least = omega (arith, g.at_least, grown);
  at_most = omega (arith, g.at_most, grown);
}
  where
    n : ℕ
    n = chunk cb len

    front : List ℕ
    front = slice cb.buffer cb.read_pos n

    grown : length (out ++ front) ≡ length out + n
    grown = omega (arith, length-append out front, length-slice cb.buffer cb.read_pos n)

same_total :
    (quota : ℤ) (adds : List Addition) {m n : ℕ} (cb' : CircularBuffer) (out' : List ℕ)
    → m ≡ n
    → (length out' ≡ m) ⊎ GaveUp quota adds m cb' out'
    → (length out' ≡ n) ⊎ GaveUp quota adds n cb' out'
same_total quota adds cb' out' e h =
    subst (λ t. (length out' ≡ t) ⊎ GaveUp quota adds t cb' out') e h

pub Served-copied :
    (quota : ℤ) (adds : List Addition) (cb : CircularBuffer) (len : ℕ) (out : List ℕ) (whole : Bool)
    (o : Outcome (List ℕ))
    → Round cb len
    → Served quota adds
        (take_out cb (chunk cb len))
        (len - chunk cb len)
        (out ++ slice cb.buffer cb.read_pos (chunk cb len))
        whole
        o
    → Served quota adds cb len out whole o
Served-copied quota adds cb len out whole (finished cb' out') r (k, le, g, end, f) =
    let total : length (out ++ slice cb.buffer cb.read_pos (chunk cb len)) + (len - chunk cb len)
        ≡ length out + len =
      omega (
        arith,
        length-append out (slice cb.buffer cb.read_pos (chunk cb len)),
        length-slice cb.buffer cb.read_pos (chunk cb len),
      ) in
    (
      k,
      le,
      Got-copied (bytes_of (take k adds)) r g,
      same_total quota (drop k adds) cb' out' total end,
      λ w. f w ∙ total,
    )
Served-copied quota adds cb len out whole (waiting cb' out') r (g, f) = (
  Got-copied (bytes_of adds) r g,
  omega (
    arith,
    f,
    length-append out (slice cb.buffer cb.read_pos (chunk cb len)),
    length-slice cb.buffer cb.read_pos (chunk cb len),
  ),
)
Served-copied quota adds cb len out whole stuck r g = g

Got-added :
    {cb cb₁ cb' : CircularBuffer} {len : ℕ} {out out' : List ℕ} (ws added : List ℕ)
    → contents cb₁ ≡ contents cb ++ ws
    → Got cb₁ len out added cb' out'
    → Got cb len out (ws ++ added) cb' out'
Got-added {cb} {out} ws added e g = record {
  valid = g.valid;
  stream =
      g.stream
      ∙ ap (λ l. out ++ (l ++ added)) e
      ∙ ap (λ l. out ++ l) (append_assoc (contents cb) ws added);
  at_least = g.at_least;
  at_most = g.at_most;
}

pub Served-added :
    (quota : ℤ) (a : Addition) (adds : List Addition) (cb : CircularBuffer) (len : ℕ) (out : List ℕ)
    (w w' : Bool) (o : Outcome (List ℕ))
    → contents (a.turn.others cb) ≡ contents cb ++ a.bytes
    → (w' ≡ true → w ≡ true)
    → Served quota adds (a.turn.others cb) len out w o
    → Served quota (a ∷ adds) cb len out w' o
Served-added quota a adds cb len out w w' (finished cb' out') e h (k, le, g, end, f) =
    (suc k, omega arith, Got-added a.bytes (bytes_of (take k adds)) e g, end, λ x. f (h x))
Served-added quota a adds cb len out w w' (waiting cb' out') e h (g, f) =
    (Got-added a.bytes (bytes_of adds) e g, f)
Served-added quota a adds cb len out w w' stuck e h g = g

pub Got-here :
    {cb : CircularBuffer} (len : ℕ) (out : List ℕ) → IsValid cb → Got cb len out [] cb out
Got-here {cb} len out v = record {
  valid = v;
  stream = ap (λ l. out ++ l) (sym (append-nil (contents cb)));
  at_least = omega arith;
  at_most = omega arith;
}

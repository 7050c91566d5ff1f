-- ===== src/Mem/Phys/Alloc.antt =====
-- `alloc` grants the first run of free frames of the first piece that has one.
use aexkernel.Base.{
  ℕ, ◌+◌, ◌-◌, ◌*◌, ◌%◌, ◌^◌, ◌≤◌, ◌<◌, ◌≡◌, arith, true, Option, none, some, List, ◌∷◌, All,
}
use aexkernel.Mem.FramePiece.{FramePiece, to_size}
use aexkernel.Mem.FramePiece.Find.{IsRun, Finds}
use aexkernel.Mem.FramePiece.Laws.{IsValid, Result}
use aexkernel.Mem.Phys.{Phys, page_size, ceiltopg, ceiltopg_int, address}

abbrev pub HasNoRun : ℕ → FramePiece → Type 0
HasNoRun n p = (t : ℕ) → ¬ IsRun p.bitmap p.size n t

-- From `ps`, `n` frames are granted at address `a`, and `qs` is left: the first piece with a run of
-- `n` free frames gives its first one, and nothing else changes.
pub data Grant (n : ℕ) : List FramePiece → ℕ → List FramePiece → Type 0 where
  here :
      {p p' : FramePiece} {ps : List FramePiece} {a : ℕ} (s : ℕ)
      → Finds p.bitmap p.size n (some s)
      → Result true p s n p'
      → a ≡ address p s
      → Grant n (p ∷ ps) a (p' ∷ ps)
  later :
      {p : FramePiece} {ps qs : List FramePiece} {a : ℕ}
      → HasNoRun n p
      → Grant n ps a qs
      → Grant n (p ∷ ps) a (p ∷ qs)

abbrev pub Grants : ℕ → List FramePiece → Option (ℕ × List FramePiece) → Type 0
Grants n ps (some (a, qs)) = Grant n ps a qs × All IsValid qs
Grants n ps none = All (HasNoRun n) ps

-- What a call of `alloc` may end in.
abbrev pub Allocates : ℕ → Phys → Option (ℕ × Phys) → Type 0
Allocates n s (some (a, s')) =
    Grant n s.pieces a s'.pieces
    × All IsValid s'.pieces
    × (s'.frames_available ≡ (s.frames_available + 2 ^ 64 - n) % 2 ^ 64)
Allocates n s none = All (HasNoRun n) s.pieces

pub ceiltopg_int_lem : (a : ℕ) → a + 4095 < 2 ^ 31 → ceiltopg_int a ≡ ceiltopg a
unfolding ceiltopg_int
ceiltopg_int_lem a h = ground arith

-- The address of frame `i` of a piece is right for the first 2 GiB of the piece, and for the second
-- 2 GiB, where the product does not fit into an int, it is 4 GiB too low (modulo 2 ^ 64).
pub address_wraps :
    (p : FramePiece) (i : ℕ)
    → p.start < 2 ^ 63
    → (i < 2 ^ 19 → address p i ≡ p.start + i * page_size)
      × (2 ^ 19 ≤ i → i < 2 ^ 20 → (address p i + 2 ^ 32) % 2 ^ 64 ≡ p.start + i * page_size)
unfolding to_size
address_wraps p i q = (λ small. ground arith, λ large below. ground arith)

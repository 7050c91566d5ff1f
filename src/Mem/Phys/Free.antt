-- ===== src/Mem/Phys/Free.antt =====
-- `free` always goes to the first piece, and so undoes `alloc` only there.
use aexkernel.Base.{
  ℕ, ◌+◌, ◌-◌, ◌*◌, ◌/◌, ◌%◌, ◌^◌, ◌≤◌, ◌<◌, ◌≡◌, refl, sym, ap, ◌∙◌, arith, false, Option, none,
  some, List, [], ◌∷◌, ltb,
}
use native.Mathlib.Decide.{dec_le}
use aexkernel.Mem.Bitmap.{taken}
use aexkernel.Mem.FramePiece
use aexkernel.Mem.FramePiece.{FramePiece, find}
use aexkernel.Mem.FramePiece.Find.{IsRun, find-Finds}
use aexkernel.Mem.FramePiece.Laws.{IsValid, alloc-free}
use aexkernel.Mem.Phys.Alloc.{address_wraps, ceiltopg_int_lem}
use aexkernel.Mem.Phys.{
  Phys, page_size, ceiltopg, ceiltopg_int, address, free, more_frames, pieces_from,
}

-- The pieces behind the first.
abbrev pub later_pieces : List FramePiece → List FramePiece
later_pieces [] = []
later_pieces (p ∷ ps) = ps

-- From the first piece's start on, `free` is a `free` of the first piece, whichever piece the address
-- belongs to.
free-first :
    (p : FramePiece) (ps : List FramePiece) (available addr amount : ℕ)
    → p.start ≤ addr
    → free (record { pieces = p ∷ ps; frames_available = available }) addr amount
      ≡ more_frames
          (record { pieces = p ∷ ps; frames_available = available })
          (ceiltopg_int amount)
          (pieces_from ps
            (FramePiece.free p ((addr - p.start) / page_size % 2 ^ 32) (ceiltopg_int amount)))
unfolding free
free-first p ps available addr amount h = rw (not_below p.start addr h) refl
  where
    not_below : (a b : ℕ) → a ≤ b → ltb b a ≡ false
    not_below a b q = ground arith

tail_kept :
    (s s' : Phys) (p : FramePiece) (ps : List FramePiece) (n : ℕ) (o : Option FramePiece)
    → s.pieces ≡ p ∷ ps
    → more_frames s n (pieces_from ps o) ≡ some s'
    → later_pieces s'.pieces ≡ ps
unfolding more_frames pieces_from
tail_kept s s' p ps n none e h = cc
tail_kept s s' p ps n (some q) e h = cc

-- No call of `free` gives a frame back to a piece behind the first: when it returns, those pieces are
-- what they were, whatever the address and the amount.
pub free_skips_later_pieces :
    (p : FramePiece) (ps : List FramePiece) (available addr amount : ℕ) {s' : Phys}
    → free (record { pieces = p ∷ ps; frames_available = available }) addr amount ≡ some s'
    → later_pieces s'.pieces ≡ ps
free_skips_later_pieces p ps available addr amount {s'} h = elim (dec_le p.start addr) [
  | yes inside ↦
      tail_kept (record { pieces = p ∷ ps; frames_available = available }) s' p ps
        (ceiltopg_int amount)
        (FramePiece.free p ((addr - p.start) / page_size % 2 ^ 32) (ceiltopg_int amount)) refl
        (sym (free-first p ps available addr amount inside) ∙ h)
  | no below ↦ unfold free in ground arith
]

more_frames_back :
    (available n : ℕ) (p₁ p₂ : FramePiece) (ps : List FramePiece)
    → available < 2 ^ 64
    → n ≤ available
    → more_frames
        (record { pieces = p₁ ∷ ps; frames_available = available - n })
        n
        (pieces_from ps (some p₂))
      ≡ some (record { pieces = p₂ ∷ ps; frames_available = available })
unfolding more_frames pieces_from
more_frames_back available n p₁ p₂ ps f c =
    ap (λ k. some (record { pieces = p₂ ∷ ps; frames_available = k })) (omega arith)

-- In the first piece, within its first 2 GiB, `free` undoes `alloc`: frames that `find` has found and
-- `alloc` has taken are free again after `free` of their address, with the counter as before.
pub free-alloc_first :
    (p : FramePiece) (ps : List FramePiece) (available amount s : ℕ)
    → IsValid p
    → 0 < amount
    → amount + 4095 < 2 ^ 31
    → p.start + p.size * page_size < 2 ^ 63
    → s < 2 ^ 19
    → available < 2 ^ 64
    → ceiltopg amount ≤ available
    → find p (ceiltopg amount) ≡ some s
    → (p₁ p₂ : FramePiece) × (FramePiece.alloc p s (ceiltopg amount) ≡ some p₁)
      × (free
            (record { pieces = p₁ ∷ ps; frames_available = available - ceiltopg amount })
            (address p s)
            amount
          ≡ some (record { pieces = p₂ ∷ ps; frames_available = available }))
      × ((j : ℕ) → taken p₂.bitmap j ≡ taken p.bitmap j)
      × (p₂.frames_free ≡ p.frames_free)
free-alloc_first p ps available amount s v h fit small low fits counted e =
    let n = ceiltopg amount in
    let (p₁, p₂, e₁, e₂, same_bits, same_count, _, same_start) = alloc-free n s v (omega arith) e in
    let run : IsRun p.bitmap p.size n s =
      (rw e at (find-Finds p n v.counted v.small (omega arith))).0 in
    let here : address p s ≡ p.start + s * page_size = (address_wraps p s (omega arith)).0 low in
    let frame : (address p s - p₁.start) / page_size % 2 ^ 32 ≡ s =
      rw (here, same_start) (omega arith) in
    (
      p₁,
      p₂,
      e₁,
      free-first p₁ ps (available - n) (address p s) amount (rw (here, same_start) (omega arith))
          ∙ rw (ceiltopg_int_lem amount fit, frame, e₂)
              (more_frames_back available n p₁ p₂ ps fits counted),
      same_bits,
      same_count,
    )

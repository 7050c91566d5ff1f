-- ===== src/Mem/Paging/Areas/Tests.antt =====
-- Runs of the paging operations, and the theorems on them at concrete inputs.
use aexkernel.Base.{
  ℕ, zero, suc, ◌+◌, ◌*◌, ◌≤◌, ◌<◌, ◌≡◌, ◌≢◌, refl, true, false, inl, Option, none, some, List, [],
  ◌∷◌, ◌++◌, ◌==◌, ==_ne, ==_refl, if◌then◌else◌, All, arith,
}
use native.Mathlib.Decide.{ℕ_discrete}
use aexkernel.Mem.Paging.{
  Memory, Pagemap, lor, find_table, walk, find_table_ensure, ensure_loop, ensure_step, assign,
  unassign, rawof,
}
use aexkernel.Mem.Paging.Tree.{Owner, Supply, IsTree}
use aexkernel.Mem.Paging.Refine.{
  AddressSpace, Implements, Now, put_entry, assign-Implements, unassign-Implements,
}
use aexkernel.Mem.Paging.Areas.{place, search, find_contiguous, map_loop, map_area, free}
use aexkernel.Mem.Paging.Areas.Free.{AreOwn, clear_run, frames_run, free-Freed}

abbrev spare : ℕ → ℕ → List ℕ
spare zero n = []
spare (suc k) n = n * 4096 ∷ spare k (n + 1)

abbrev one_table : Owner
one_table g = if g == 4096 then some (0, 0) else none

abbrev empty_memory : Memory
empty_memory = record { word = λ f i. 0; frames = spare 16 2; freed = [] }

abbrev user_map : Pagemap
user_map = record { vstart = 0x400000; vend = 0x00007FFFFFFFFFFF; page_root = 4096; gflags = 0 }

abbrev nothing : AddressSpace
nothing n = 0

spare-above : (k n c : ℕ) → c < n → All (λ x. x ≢ c * 4096) (spare k n)
spare-above zero n c h = tt
spare-above (suc k) n c h = ((λ e. omega (arith, h, e)), spare-above k (n + 1) c (omega (arith, h)))

Supply-spare : (k n : ℕ) → 2 ≤ n → Supply one_table (spare k n)
unfolding Supply
Supply-spare zero n h = tt
Supply-spare (suc k) n h = (
  rw (==_ne (n * 4096) 4096 (λ e. omega (arith, h, e))) refl,
  omega arith,
  spare-above k (n + 1) n (omega arith),
  Supply-spare k (n + 1) (omega (arith, h)),
)

empty_memory-IsTree : IsTree empty_memory one_table 4096
empty_memory-IsTree = record {
  rooted = refl;
  linked = λ f l k i o hl hi. inl refl;
  supply = Supply-spare 16 2 (omega arith);
}

empty_memory-Implements : Implements empty_memory user_map nothing
unfolding rawof find_table walk
empty_memory-Implements va = refl

assign-Implements_example :
    (m' : Memory) × (assign empty_memory user_map 0x400123 0x7000 3 ≡ some m')
    × Now empty_memory one_table user_map (put_entry nothing 0x400 0x7003) 3 m'
assign-Implements_example =
    assign-Implements empty_memory one_table user_map nothing 0x400123 0x7000 3 empty_memory-IsTree
      empty_memory-Implements (omega arith) (omega arith)

unassign-Implements_example :
    (m' : Memory) × (unassign empty_memory user_map 0x400123 ≡ some (m', 0))
    × Now empty_memory one_table user_map (put_entry nothing 0x400 0) 3 m'
    × (m'.freed ≡ [])
unassign-Implements_example =
    unassign-Implements empty_memory one_table user_map nothing 0x400123 empty_memory-IsTree
      empty_memory-Implements (omega arith) (omega arith) (omega arith)

spare-below : (k n c : ℕ) → n + k ≤ c → All (λ x. x ≢ c * 4096) (spare k n)
spare-below zero n c h = tt
spare-below (suc k) n c h = ((λ e. omega (arith, h, e)), spare-below k (n + 1) c (omega (arith, h)))

-- The page at 0x400000 has the frame 0x20000, and no other page has one.
abbrev one_page : AddressSpace
one_page = put_entry nothing 0x400 0x20003

abbrev page_mapped : Memory
page_mapped = elim (assign empty_memory user_map 0x400123 0x20000 3) [
  | none ↦ empty_memory
  | some m ↦ m
]

page_mapped-Now : Now empty_memory one_table user_map one_page 3 page_mapped
page_mapped-Now =
    let (m', e, now) =
      assign-Implements empty_memory one_table user_map nothing 0x400123 0x20000 3
        empty_memory-IsTree empty_memory-Implements (omega arith) (omega arith) in
    rw (e, page_mapped) now

page_mapped-AreOwn : AreOwn page_mapped page_mapped-Now.owner' one_page
page_mapped-AreOwn n = elim (ℕ_discrete n 0x400) [
  | yes e ↦
      rw (e, ==_refl 0x400)
        (λ h. (page_mapped-Now.apart 0x20000 (refl, spare-below 16 2 32 (omega arith))).0)
  | no d ↦ rw (==_ne n 0x400 d) (λ h. absurd (clash h))
]
  where
    clash : false ≡ true → ⊥
    clash q = cc

free-Freed_example :
    (m' : Memory) × (owner' : Owner) × (free page_mapped user_map 0x400000 5000 ≡ some m')
    × IsTree m' owner' 4096
    × Implements m' user_map (clear_run one_page 0x400000 2)
    × (m'.freed ≡ page_mapped.freed ++ frames_run one_page 0x400000 2)
free-Freed_example =
    free-Freed page_mapped page_mapped-Now.owner' user_map one_page 0x400000 5000
      page_mapped-Now.tree page_mapped-Now.implements page_mapped-AreOwn
      (omega (arith, page_mapped-Now.used)) (omega arith) (omega arith) (omega arith)

freed_frame : frames_run one_page 0x400000 2 ≡ 0x20000 ∷ []
unfolding frames_run
freed_frame = refl

-- `map` of a page that does not start with one writes over an entry that is in use.
abbrev after_map : Option ℕ
after_map = elim (assign empty_memory user_map 0x401000 0x7000 3) [
  | none ↦ none
  | some m ↦ elim (map_area 8 m user_map 4096 0x9010 3 0) [
    | none ↦ none
    | some (m', at) ↦ some (rawof m' user_map 0x401000)
  ]
]

after_map_test : after_map ≡ some 0xA203
unfolding assign map_area rawof find_table_ensure ensure_loop ensure_step place find_contiguous
    find_table search map_loop lor
after_map_test = refl

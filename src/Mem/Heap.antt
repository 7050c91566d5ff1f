-- ===== src/Mem/Heap.antt =====
-- mem/heap.cpp: slabs of pieces of 16 bytes, with a bit for each that says whether it is taken, and a
-- header before what each call gives. Memory is a byte for each address. A slab's own fields and its
-- bitmap are a record; what is in memory behind the bitmap, which a search that fails goes on to read,
-- is an argument. `none` is a panic, or a search that has not ended.
-- `heap_allocated` and `heap_free`, which are only printed, have no part in the state.
pub mod Bytes
pub mod Scans
pub mod Search
pub mod Marks
pub mod Blocks
pub mod NewBlock
pub mod Alloc
pub mod Free
pub mod Runs
pub mod Again
pub mod Create
pub mod Calls
pub mod Payload
pub mod Root
pub mod Realloc
mod Tests
use aexkernel.Base.{
  ℕ, zero, suc, ◌+◌, ◌-◌, ◌*◌, ◌/◌, ◌%◌, ◌^◌, Bool, true, false, ◌&&◌, ◌||◌, not, Option, none,
  some, List, [], ◌∷◌, ◌++◌, ltb, leb, ◌==◌, if◌then◌else◌, length, min, max, get_or, get_elem?,
  replicate,
}
use Prim.Native.Nat.{bit_xor}
use aexkernel.Mem.Bitmap.{Word, word_bits, write_bit, next_word, next_bit}
use aexkernel.Mem.FramePiece.{start_at}

abbrev pub Memory : Type 0
Memory = ℕ → ℕ

abbrev pub alloc_size : ℕ
alloc_size = 16

abbrev pub sanity_xor : ℕ
sanity_xor = 0x28AC829B1F5231EC

-- `memset`
abbrev pub fill : Memory → ℕ → ℕ → ℕ → Memory
fill mem at len c a = if leb at a && ltb a (at + len) then c else mem a

-- `memcpy` between regions that do not overlap.
abbrev pub copy : Memory → ℕ → ℕ → ℕ → Memory
copy mem dst src len a = if leb dst a && ltb a (dst + len) then mem (src + (a - dst)) else mem a

-- A number in `n` bytes, the least significant first.
unfoldable pub load : ℕ → Memory → ℕ → ℕ
load zero mem a = 0
load (suc n) mem a = mem a + 256 * load n mem (a + 1)

unfoldable pub store : ℕ → Memory → ℕ → ℕ → Memory
store zero mem a v = mem
store (suc n) mem a v = store n (λ b. if b == a then v % 256 else mem b) (a + 1) (v / 256)

-- `sanity` and `len` of the header at an address.
abbrev pub header_sanity : Memory → ℕ → ℕ
header_sanity mem block = load 8 mem block

abbrev pub header_len : Memory → ℕ → ℕ
header_len mem block = load 4 mem (block + 8)

pub record Slab : Type 0 where
  pub pieces : ℕ
  pub free_pieces : ℕ
  pub data_at : ℕ
  pub bitmap : List Word

-- `ceilToPiece`
abbrev pub ceil_to_piece : ℕ → ℕ
ceil_to_piece val = (val + alloc_size - 1) / alloc_size * alloc_size / alloc_size

-- The loop of `mark` (`v` is true) and of `unmark` (`v` is false).
unfoldable pub mark_bits : Bool → ℕ → List Word → ℕ → ℕ → List Word
mark_bits v zero bitmap ii ib = bitmap
mark_bits v (suc amount) bitmap ii ib =
    mark_bits v amount (write_bit bitmap ii ib v) (next_word ii ib) (next_bit ib)

abbrev pub mark : Slab → Bool → ℕ → ℕ → Slab
mark s v start amount = record s {
  bitmap = mark_bits v amount s.bitmap (start / word_bits) (start % word_bits);
}

abbrev pub all_ones : Word → Bool
all_ones [] = true
all_ones (b ∷ bs) = let rest = all_ones bs in if b then rest else false

-- What the loop over the bits of a word comes to: the start of a run, or the count and the start of
-- the clear bits at its end.
pub data Scan : Type 0 where
  found : ℕ → Scan
  scanned : ℕ → Option ℕ → Scan

unfoldable pub scan : ℕ → Word → ℕ → ℕ → ℕ → ℕ → Option ℕ → Scan
scan zero word i amount index combo start = scanned combo start
scan (suc left) word i amount index combo start =
    let s = start_at start index in
    let longer = scan left word (i + 1) amount (index + 1) (combo + 1) (some s) in
    let again = scan left word (i + 1) amount (index + 1) 0 none in
    if get_or word i false then again else if combo + 1 == amount then found s else longer

abbrev pub word_at : List Word → (ℕ → Word) → ℕ → Word
word_at bitmap past ii = elim (get_elem? bitmap ii) [ none ↦ past ii | some w ↦ w ]

-- `findFree` returns with the start of a run, or goes on to the next word.
abbrev pub after_scan : (ℕ → Option ℕ → Option (Option ℕ)) → Scan → Option (Option ℕ)
after_scan next (found r) = some (some r)
after_scan next (scanned combo start) = next combo start

-- The loop of `findFree`, on fuel. `ii` is not wrapped, which it is after 2 ^ 32 words.
unfoldable pub find_free_loop : ℕ → Slab → (ℕ → Word) → ℕ → ℕ → ℕ → ℕ → Option ℕ → Option (Option ℕ)
find_free_loop zero s past amount index ii combo start = none
find_free_loop (suc fuel) s past amount index ii combo start =
    let word = word_at s.bitmap past ii in
    let left = min (s.pieces - index) word_bits in
    let skip = find_free_loop fuel s past amount (index + word_bits) (ii + 1) 0 none in
    let scanned_word =
      after_scan (λ c st. find_free_loop fuel s past amount (index + left) (ii + 1) c st)
        (scan left word 0 amount index combo start) in
    if ltb s.pieces index then some none else if all_ones word then skip else scanned_word

-- `findFree`; `amount` is a `uint32_t`.
unfoldable pub find_free : ℕ → Slab → (ℕ → Word) → ℕ → Option (Option ℕ)
find_free fuel s past amount =
    if ltb s.free_pieces amount || amount == 0
    then some none
    else find_free_loop fuel s past amount 0 0 0 none

-- The header of a new block of `pieces` pieces, all else in it being 0.
abbrev pub new_block : Memory → ℕ → ℕ → Memory
new_block mem block pieces =
    store 8 (store 4 (fill mem block (pieces * alloc_size) 0) (block + 8) pieces) block
      (bit_xor (block + alloc_size) sanity_xor)

-- `Slab::alloc`; the address 0 is the null pointer.
unfoldable pub slab_alloc : ℕ → Slab → (ℕ → Word) → Memory → ℕ → Option (ℕ × Slab × Memory)
slab_alloc fuel s past mem size =
    let pieces = ceil_to_piece (size + alloc_size) in
    if size == 0 then some (0, s, mem) else elim (find_free fuel s past (pieces % 2 ^ 32)) [
      | none ↦ none
      | some none ↦ some (0, s, mem)
      | some (some start) ↦
          let block = s.data_at + start * alloc_size in
          some (block + alloc_size, mark s true start (pieces % 2 ^ 32), new_block mem block pieces)
    ]

-- The check of a header, by `free` and `size`.
abbrev pub is_sane : Memory → ℕ → Bool
is_sane mem ptr = header_sanity mem (ptr - alloc_size) == bit_xor ptr sanity_xor

-- `Slab::free`
unfoldable pub slab_free : Slab → Memory → ℕ → Option (Slab × Memory)
slab_free s mem ptr =
    let block = ptr - alloc_size in
    let len = header_len mem block in
    if not (is_sane mem ptr)
    then none
    else some (
      mark s false ((block - s.data_at) % 2 ^ 32 / alloc_size) len,
      fill mem block (len * alloc_size) 0x5A,
    )

abbrev pub owns : Slab → ℕ → Bool
owns s ptr = leb s.data_at ptr && leb ptr (s.data_at + s.pieces * alloc_size)

-- `Slab::size`
abbrev pub slab_size : Memory → ℕ → Option ℕ
slab_size mem ptr =
    if not (is_sane mem ptr)
    then none
    else some ((header_len mem (ptr - alloc_size) - 1) * alloc_size)

-- `createFromVMem`, with the address that the pagemap gives and the size of the slab's fields.
abbrev pub create_slab : ℕ → ℕ → ℕ → Slab
create_slab slab_fields at size =
    let pieces = size / alloc_size / word_bits * word_bits in
    record {
      pieces = pieces;
      free_pieces = pieces;
      data_at =
          at + ceil_to_piece (slab_fields + ceil_to_piece (pieces / 8) * alloc_size) * alloc_size;
      bitmap = replicate (pieces / word_bits) (replicate 32 false);
    }

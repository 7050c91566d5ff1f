-- ===== src/Mem/Heap/NewBlock.antt =====
-- A new block: its header, its zeroes, and the bytes outside of it.
use aexkernel.Base.{ℕ, ◌+◌, ◌*◌, ◌^◌, ◌≤◌, ◌<◌, ◌≡◌, ◌∙◌, arith, inl, inr}
use Prim.Native.Nat.{bit_xor}
use aexkernel.Mem.Heap.{
  Memory, alloc_size, sanity_xor, fill, store, header_len, header_sanity, new_block,
}
use aexkernel.Mem.Heap.Bytes.{
  load-Same, store_below, store_above, load-store, Fits-4, Fits-8, fill_inside, fill_below,
  fill_above,
}
use aexkernel.Mem.Heap.Marks.{xor_below}
use aexkernel.Mem.Heap.Blocks.{Outside}

module _ (mem : Memory) (block n : ℕ) where
  abbrev pub headed : Memory
  headed = store 4 (fill mem block (n * alloc_size) 0) (block + 8) n

  pub new_block-Outside : 0 < n → Outside block (n * alloc_size) mem (new_block mem block n)
  new_block-Outside h b (inl before) =
      store_below 8 headed block (bit_xor (block + alloc_size) sanity_xor) b before
      ∙ store_below 4 (fill mem block (n * alloc_size) 0) (block + 8) n b (omega (arith, before))
      ∙ fill_below mem block (n * alloc_size) 0 b before
  new_block-Outside h b (inr after) =
      store_above 8 headed block (bit_xor (block + alloc_size) sanity_xor) b
        (omega (arith, after, h))
      ∙ store_above 4 (fill mem block (n * alloc_size) 0) (block + 8) n b (omega (arith, after, h))
      ∙ fill_above mem block (n * alloc_size) 0 b after

  pub new_block_zeroed :
      (b : ℕ) → block + alloc_size ≤ b → b < block + n * alloc_size → new_block mem block n b ≡ 0
  new_block_zeroed b low high =
      store_above 8 headed block (bit_xor (block + alloc_size) sanity_xor) b (omega (arith, low))
      ∙ store_above 4 (fill mem block (n * alloc_size) 0) (block + 8) n b (omega (arith, low))
      ∙ fill_inside mem block (n * alloc_size) 0 b (omega (arith, low)) high

  pub new_block-len : n < 2 ^ 32 → header_len (new_block mem block n) block ≡ n
  new_block-len h =
      load-Same 4 headed (new_block mem block n) (block + 8)
        (λ b low _. store_above 8 headed block (bit_xor (block + alloc_size) sanity_xor) b low)
      ∙ load-store 4 (fill mem block (n * alloc_size) 0) (block + 8) n (Fits-4 n h)

  pub new_block_sane :
      block + alloc_size < 2 ^ 64
      → header_sanity (new_block mem block n) block ≡ bit_xor (block + alloc_size) sanity_xor
  new_block_sane h = load-store 8 headed block (bit_xor (block + alloc_size) sanity_xor) (
      Fits-8 (bit_xor (block + alloc_size) sanity_xor)
        (xor_below (block + alloc_size) sanity_xor h (omega arith)))

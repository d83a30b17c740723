-- ===== src/Stripe.antt =====
-- custom-test/test2-rdma-fin.c, `block_ptr` and `populate_chunk_stripe`: the chunk-stripe layout. A
-- chunk holds one block of each of `chunk_slots` requests; the chunks of one block number follow one
-- another. Pointers are offsets from the start of the store, in 64-bit arithmetic.
pub mod Layout
pub mod Populate
pub mod Tests
use mio_xcena.Base.{
  ℕ, ◌^◌, ◌+◌, ◌*◌, ◌/◌, ◌%◌, ◌-◌, leb, ltb, Option, none, some, ◌>>=◌, size_max, if◌then◌else◌,
  u64, Memory, memset, for_range,
}
use mio_xcena.Block.{fill_block}
use mio_xcena.Args.{Cfg, checked_mul_u64}

-- What `main` computes before it allocates the store.
pub record StoreSizes : Type 0 where
  pub chunks : ℕ
  pub chunk_bytes : ℕ
  pub store_bytes : ℕ

-- `none` is the message "configured memory size overflows".
unfoldable pub store_sizes : Cfg → Option StoreSizes
store_sizes c = do
  let chunks = u64 (u64 (c.requests + c.chunk_slots) + 2 ^ 64 - 1) / c.chunk_slots
  let chunk_count = u64 (c.req_per_blocks * chunks)
  chunk_bytes ← checked_mul_u64 c.chunk_slots c.block_bytes
  store_bytes ← checked_mul_u64 chunk_count chunk_bytes
  if ltb size_max store_bytes
      then none
      else some (record { chunks = chunks; chunk_bytes = chunk_bytes; store_bytes = store_bytes })

unfoldable pub block_ptr : Cfg → (chunks req blk : ℕ) → ℕ
block_ptr c chunks req blk =
    let chunk = u64 (u64 (blk * chunks) + req / c.chunk_slots) in
    let slot = req % c.chunk_slots in
    u64 (u64 (u64 (chunk * c.chunk_slots) * c.block_bytes) + u64 (slot * c.block_bytes))

-- The body of the loop over the slots of the chunk at `chunk`.
unfoldable pub fill_slot : Cfg → (chunk blk group slot : ℕ) → Memory → Memory
fill_slot c chunk blk group slot m =
    let req = u64 (u64 (group * c.chunk_slots) + slot) in
    if leb c.requests req
    then m
    else fill_block m (u64 (chunk + u64 (slot * c.block_bytes))) c.block_bytes req blk

-- `chunk_id` and the store.
pub record Populating : Type 0 where
  pub chunk_id : ℕ
  pub store : Memory

-- The body of the loop over the groups.
unfoldable pub fill_group : Cfg → (chunk_bytes blk group : ℕ) → Populating → Populating
unfolding fill_slot
fill_group c chunk_bytes blk group p =
    let chunk = u64 (p.chunk_id * chunk_bytes) in
    record {
      chunk_id = u64 (p.chunk_id + 1);
      store =
          for_range c.chunk_slots 0 (fill_slot c chunk blk group)
            (memset p.store chunk 0 chunk_bytes);
    }

-- It returns 0 always.
unfoldable pub populate_chunk_stripe : Cfg → (chunks chunk_bytes : ℕ) → Memory → Memory
unfolding fill_group
populate_chunk_stripe c chunks chunk_bytes m =
    (for_range c.req_per_blocks 0 (λ blk. for_range chunks 0 (fill_group c chunk_bytes blk))
      (record { chunk_id = 0; store = m })).store

-- ===== src/Sweep/Readers.antt =====
-- A reader of custom-test/test2-rdma-fin.c on a store in which the blocks carry their stamps: it counts
-- every block once, finds no fault, and sums the first and the last byte of each, whether it copies the
-- blocks to its scratch buffer or not.
use mio_xcena.Block.{block_magic}
use mio_xcena.Base.{u8, ℕ, ◌+◌, ◌<◌, ◌^◌, ◌≡◌, arith, Memory, for_range_zero, add-zero}
use mio_xcena.Block.Stamp.{stamp_byte, Stamped, verify_block-Stamped, last_byte-Stamped}
use mio_xcena.Args.{Cfg}
use mio_xcena.Args.Valid.{IsValid}
use mio_xcena.Stripe.{StoreSizes, block_ptr, populate_chunk_stripe}
use mio_xcena.Stripe.Layout.{IsSized}
use mio_xcena.Stripe.Populate.{populate-Stamped}
use mio_xcena.Sweep.Count.{
  checksum_of, checksum_of-le, copy_out-Carries, Counted, zero-Counted, if-both, next-Counted,
}
use mio_xcena.Sweep.{Local, Source, count_block, read_block, read_request}

first_byte-Stamped :
    (m : Memory) (src block_bytes req blk : ℕ)
    → 0 < block_bytes
    → Stamped m src block_bytes req blk
    → m src ≡ u8 block_magic
first_byte-Stamped m src block_bytes req blk pos s = rw add-zero at (s 0 pos)

module _ (c : Cfg) (v : IsValid c) where
  count_block-Counted :
      (req blk : ℕ) (scratch : Memory) (check : Source) (l : Local)
      → req < 2 ^ 64
      → blk < c.req_per_blocks
      → Stamped check.mem check.at c.block_bytes req blk
      → Counted (u8 block_magic) req blk l
      → Counted (u8 block_magic) req (blk + 1) (count_block c req blk scratch check l)
  count_block-Counted req blk scratch check l req_lt lt s d =
      next-Counted (u8 block_magic) req blk _ _ c.verify _ scratch l (omega arith) (omega arith)
        (first_byte-Stamped check.mem check.at c.block_bytes req blk (omega arith) s)
        (last_byte-Stamped check.mem check.at c.block_bytes req blk (omega arith) (omega arith) s)
        (verify_block-Stamped check.mem check.at c.block_bytes req blk (omega arith) (omega arith)
          req_lt (omega arith) s)
        d

module _ (c : Cfg) (s : StoreSizes) (v : IsValid c) (z : IsSized c s) (m₀ : Memory) where
  read_block-Counted :
      (req blk : ℕ) (l : Local)
      → req < c.requests
      → blk < c.req_per_blocks
      → Counted (u8 block_magic) req blk l
      → Counted
          (u8 block_magic)
          req
          (blk + 1)
          (read_block c s.chunks req (populate_chunk_stripe c s.chunks s.chunk_bytes m₀) blk l)
  unfolding read_block
  read_block-Counted req blk l lt b_lt d =
      let stamped = populate-Stamped c s v z m₀ req blk lt b_lt in
      if-both (Counted (u8 block_magic) req (blk + 1)) c.copy_to_dst _ _
        (count_block-Counted c v req blk _ _ l (omega arith) b_lt
          (copy_out-Carries l.scratch (populate_chunk_stripe c s.chunks s.chunk_bytes m₀)
            (block_ptr c s.chunks req blk) c.block_bytes (stamp_byte req blk) stamped)
          d)
        (count_block-Counted c v req blk _ _ l (omega arith) b_lt stamped d)

  -- A reader of any request, on the store that `populate_chunk_stripe` leaves, counts each of the
  -- request's blocks once, finds no fault, and sums the first and the last byte of each block, with and
  -- without verification, and with and without copying to its scratch buffer.
  pub read_request_lem :
      (req : ℕ) (scratch : Memory)
      → req < c.requests
      → let l =
          read_request c s.chunks req (populate_chunk_stripe c s.chunks s.chunk_bytes m₀) scratch in
        (l.blocks ≡ c.req_per_blocks)
        × (l.fail ≡ 0)
        × (l.sum ≡ checksum_of (u8 block_magic) req c.req_per_blocks)
  unfolding read_request
  read_request_lem req scratch lt =
      let d =
        for_range_zero (Counted (u8 block_magic) req)
          (read_block c s.chunks req (populate_chunk_stripe c s.chunks s.chunk_bytes m₀))
          c.req_per_blocks (λ blk l b_lt e. read_block-Counted req blk l lt b_lt e)
          (record { scratch = scratch; blocks = 0; fail = 0; sum = 0 })
          (zero-Counted (u8 block_magic) req scratch) in
      (
        d.blocks,
        d.fail,
        omega (arith, d.sum, checksum_of-le (u8 block_magic) req c.req_per_blocks (omega arith)),
      )

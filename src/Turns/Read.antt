-- ===== src/Turns/Read.antt =====
-- The cumulative reads of custom-test/test3-mt.c: after any turn, all blocks of the turns so far are
-- found and verified.
use mio_xcena.Base.{
  u8, ℕ, ◌+◌, ◌*◌, ◌/◌, ◌<◌, ◌≤◌, ◌^◌, ◌≡◌, List, arith, u64, add-zero, Memory, length,
  for_range_zero,
}
use mio_xcena.Block.Tagged.{Carries}
use mio_xcena.Sweep.{Local, Source}
use mio_xcena.Sweep.Count.{
  checksum_of, copy_out-Carries, Counted, zero-Counted, if-both, next-Counted,
}
use mio_xcena.Sweep.Totals.{AllBelow, sum_of, Found, publish_all-totals}
use mio_xcena.Grid.{index_of, index_of-lt}
use mio_xcena.Turns.{
  block_magic, Cfg, StoreSizes, block_ptr, count_block, read_block, reader_thread, read_cumulative,
  after_turns,
}
use mio_xcena.Turns.Sizes.{IsValid, IsSized, block_ptr-store}
use mio_xcena.Turns.Stamp.{stamp_byte, last_byte-Carries, verify_block-Carries}
use mio_xcena.Turns.Write.{Done, after_turns-Done}

div-le : (b n : ℕ) → b / n ≤ b
div-le b n = grind arith

product-le : (a b n : ℕ) → a ≤ b → a * n ≤ b * n
product-le a b n le = grind arith

module _ (c : Cfg) (v : IsValid c) where
  first_byte-Carries :
      (m : Memory) (src req blk : ℕ)
      → Carries m src c.block_bytes (stamp_byte c req blk)
      → m src ≡ u8 block_magic
  first_byte-Carries m src req blk s = rw add-zero at (s 0 (omega (arith, v.tag_fits)))

  count_block-Counted :
      (req blk : ℕ) (scratch : Memory) (check : Source) (l : Local)
      → req < 2 ^ 64
      → blk + 1 < 2 ^ 64
      → Carries check.mem check.at c.block_bytes (stamp_byte c req blk)
      → Counted (u8 block_magic) req blk l
      → Counted (u8 block_magic) req (blk + 1) (count_block c req blk scratch check l)
  count_block-Counted req blk scratch check l req_lt lt s d =
      next-Counted (u8 block_magic) req blk _ _ c.verify _ scratch l lt (omega arith)
        (first_byte-Carries check.mem check.at req blk s)
        (last_byte-Carries c v check.mem check.at req blk s)
        (verify_block-Carries c v check.mem check.at req blk req_lt (omega arith)
          (omega (arith, div-le blk c.req_per_blocks)) s)
        d

module _ (c : Cfg) (s : StoreSizes) (v : IsValid c) (z : IsSized c s) where
  small : c.rounds * c.req_per_blocks < 2 ^ 64
  small = grind (arith, v.rounds, v.req_per_blocks)

  -- What `const_block_ptr` finds in a store whose turns up to `turns` are written.
  found :
      (turns req blk : ℕ) (m : Memory)
      → turns ≤ c.rounds
      → req < c.requests
      → blk < turns * c.req_per_blocks
      → Done c s v z (index_of c.requests (turns * c.req_per_blocks) 0) m
      → Carries m (block_ptr c 0 s.chunk_bytes req blk) c.block_bytes (stamp_byte c req blk)
  found turns req blk m le lt b_lt d =
      rw
        (block_ptr-store c s z req blk lt
          (omega (arith, product-le turns c.rounds c.req_per_blocks le)))
        (d.written blk req lt
          (omega (arith, index_of-lt c.requests blk req (turns * c.req_per_blocks) lt b_lt)))

  read_block-Counted :
      (turns req blk : ℕ) (m : Memory) (l : Local)
      → turns ≤ c.rounds
      → req < c.requests
      → blk < turns * c.req_per_blocks
      → Done c s v z (index_of c.requests (turns * c.req_per_blocks) 0) m
      → Counted (u8 block_magic) req blk l
      → Counted (u8 block_magic) req (blk + 1) (read_block c s.chunk_bytes req m blk l)
  unfolding read_block
  read_block-Counted turns req blk m l le lt b_lt done d =
      let there = found turns req blk m le lt b_lt done in
      let bound : blk + 1 < 2 ^ 64 =
        omega (arith, product-le turns c.rounds c.req_per_blocks le, small) in
      let req_lt : req < 2 ^ 64 = omega (arith, v.requests) in
      if-both (Counted (u8 block_magic) req (blk + 1)) c.copy_to_dst _ _
        (count_block-Counted c v req blk _ _ l req_lt bound
          (copy_out-Carries l.scratch m (block_ptr c 0 s.chunk_bytes req blk) c.block_bytes
            (stamp_byte c req blk) there)
          d)
        (count_block-Counted c v req blk _ _ l req_lt bound there d)

  reader_thread-Found :
      (turns req : ℕ) (m scratch : Memory)
      → turns ≤ c.rounds
      → req < c.requests
      → Done c s v z (index_of c.requests (turns * c.req_per_blocks) 0) m
      → Found
          (turns * c.req_per_blocks)
          (checksum_of (u8 block_magic) req (turns * c.req_per_blocks))
          (reader_thread c s.chunk_bytes (turns * c.req_per_blocks) req m scratch)
  unfolding reader_thread
  reader_thread-Found turns req m scratch le lt done =
      let d =
        for_range_zero (Counted (u8 block_magic) req) (read_block c s.chunk_bytes req m)
          (turns * c.req_per_blocks)
          (λ blk l b_lt e. read_block-Counted turns req blk m l le lt b_lt done e)
          (record { scratch = scratch; blocks = 0; fail = 0; sum = 0 })
          (zero-Counted (u8 block_magic) req scratch) in
      record { blocks = d.blocks; fail = d.fail; total = d.sum }

  -- For a valid configuration and its store sizes, the cumulative read after any turn of the test, by
  -- readers of the requests of a list that publish in the list's order, finds
  -- `turns * req_per_blocks` blocks for each reader, no verification fault, and the sum of the first and
  -- last bytes of these blocks (the two sums modulo 2^64), whatever the store held at first.
  pub read_cumulative_lem :
      (turns : ℕ) (order : List ℕ) (m₀ : Memory) (scratch : ℕ → Memory)
      → turns ≤ c.rounds
      → AllBelow c.requests order
      → let t =
          read_cumulative c s.chunk_bytes turns order
            (after_turns c s.chunk_bytes turns m₀)
            scratch in
        (t.blocks_read ≡ u64 (length order * (turns * c.req_per_blocks)))
        × (t.verify_fail ≡ 0)
        × (t.checksum
            ≡ u64
                (sum_of (λ req. checksum_of (u8 block_magic) req (turns * c.req_per_blocks)) order))
  unfolding read_cumulative
  read_cumulative_lem turns order m₀ scratch le below =
      let exact : u64 (turns * c.req_per_blocks) ≡ turns * c.req_per_blocks =
        omega (arith, product-le turns c.rounds c.req_per_blocks le, small) in
      rw exact (
        publish_all-totals c.requests (turns * c.req_per_blocks)
          (λ req. checksum_of (u8 block_magic) req (turns * c.req_per_blocks)) _
          (λ req lt.
            reader_thread-Found turns req (after_turns c s.chunk_bytes turns m₀) (scratch req) le lt
              (after_turns-Done c s v z turns m₀ le))
          order below)

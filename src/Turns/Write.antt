-- ===== src/Turns/Write.antt =====
-- The turns of custom-test/test3-mt.c: after turn `t` the blocks of the turns up to `t` carry their
-- stamps.
use mathlib.Core.Path.{subst}
use mio_xcena.Base.{
  ℕ, ◌+◌, ◌-◌, ◌*◌, ◌/◌, ◌<◌, ◌≤◌, ◌^◌, ◌≡◌, ap, sym, arith, u32, u64, Memory, for_range_zero,
  for_range-from,
}
use mio_xcena.Grid.{index_of, index_of-lt, Written, Written-fill}
use mio_xcena.Turns.{Cfg, StoreSizes, block_ptr, fill_block, write_row, write_turn, after_turns}
use mio_xcena.Turns.Sizes.{IsValid, IsSized, block_ptr-row}
use mio_xcena.Turns.Stamp.{stamps, turn_of}

div_unique : (a n i : ℕ) → i < n → (a * n + i) / n ≡ a
div_unique a n i lt = grind arith

module _ (c : Cfg) (s : StoreSizes) (v : IsValid c) (z : IsSized c s) where
  -- The blocks below number `k` carry their stamps.
  pub record Done (k : ℕ) (m : Memory) : Type 0 where
    pub written : Written (stamps c v) c.requests c.requests (omega arith) k m

  Done-at : {k k' : ℕ} (m : Memory) → k ≡ k' → Done k m → Done k' m
  Done-at m e d = subst (λ k. Done k m) e d

  write_row-Done :
      (blk turn : ℕ) (m : Memory)
      → blk < c.rounds * c.req_per_blocks
      → turn ≡ turn_of c blk
      → Done (index_of c.requests blk 0) m
      → Done (index_of c.requests (blk + 1) 0) (write_row c s.chunk_bytes turn blk m)
  unfolding write_row
  write_row-Done blk turn m lt e d = Done-at _ (omega arith) (
      for_range_zero (λ req m. Done (index_of c.requests blk req) m)
        (λ req m.
          fill_block m (block_ptr c (u64 (blk * s.chunk_bytes)) s.chunk_bytes req 0) c.block_bytes
            req blk turn)
        c.requests
        (λ req m req_lt f.
          rw (block_ptr-row c s z req blk req_lt lt, e)
            (Done-at _ (omega arith) (record {
              written =
                  Written-fill (stamps c v) c.requests c.requests (omega arith) blk req m req_lt
                    f.written;
            })))
        m d)

  -- Block `i` of turn `turn`, exactly.
  record Block (turn i : ℕ) : Type 0 where
    exact :
        u64 (u64 (u32 (turn + 2 ^ 32 - 1) * c.req_per_blocks) + i)
        ≡ (turn - 1) * c.req_per_blocks + i
    below : (turn - 1) * c.req_per_blocks + i < c.rounds * c.req_per_blocks
    of_turn : turn ≡ turn_of c ((turn - 1) * c.req_per_blocks + i)

  block : (turn i : ℕ) → 1 ≤ turn → turn ≤ c.rounds → i < c.req_per_blocks → Block turn i
  block turn i pos le lt = record {
    exact =
        let back : u32 (turn + 2 ^ 32 - 1) ≡ turn - 1 = omega (arith, v.rounds) in
        rw back (omega (arith, below, small, product));
    below = below;
    of_turn = omega (arith, div_unique (turn - 1) c.req_per_blocks i lt);
  }
    where
      below : (turn - 1) * c.req_per_blocks + i < c.rounds * c.req_per_blocks
      below = index_of-lt c.req_per_blocks (turn - 1) i c.rounds lt (omega arith)

      product : (turn - 1) * c.req_per_blocks ≤ (turn - 1) * c.req_per_blocks + i
      product = omega arith

      small : c.rounds * c.req_per_blocks < 2 ^ 64
      small = grind (arith, v.rounds, v.req_per_blocks)

  write_turn-Done :
      (turn : ℕ) (m : Memory)
      → 1 ≤ turn
      → turn ≤ c.rounds
      → Done (index_of c.requests ((turn - 1) * c.req_per_blocks) 0) m
      → Done (index_of c.requests (turn * c.req_per_blocks) 0) (write_turn c s.chunk_bytes turn m)
  unfolding write_turn
  write_turn-Done turn m pos le d =
      let whole : (turn - 1) * c.req_per_blocks + c.req_per_blocks ≡ turn * c.req_per_blocks =
        let e : turn ≡ turn - 1 + 1 = omega arith in
        omega (arith, ap (λ (n : ℕ). n * c.req_per_blocks) e) in
      Done-at _ (ap (λ (b : ℕ). index_of c.requests b 0) whole) (
        for_range_zero (λ i m. Done (index_of c.requests ((turn - 1) * c.req_per_blocks + i) 0) m)
          (λ i.
            write_row c s.chunk_bytes turn
              (u64 (u64 (u32 (turn + 2 ^ 32 - 1) * c.req_per_blocks) + i)))
          c.req_per_blocks
          (λ i m lt f.
            let b = block turn i pos le lt in
            rw b.exact (Done-at _ (omega arith) (write_row-Done _ turn m b.below b.of_turn f)))
          m (Done-at _ (omega arith) d))

  turns_back :
      (turn : ℕ)
      → index_of c.requests (turn * c.req_per_blocks) 0
        ≡ index_of c.requests ((turn + 1 - 1) * c.req_per_blocks) 0
  turns_back turn =
      let e : turn ≡ turn + 1 - 1 = omega arith in
      ap (λ (t : ℕ). index_of c.requests (t * c.req_per_blocks) 0) e

  -- After the turns up to `turns`, the blocks of these turns carry their stamps.
  pub after_turns-Done :
      (turns : ℕ) (m : Memory)
      → turns ≤ c.rounds
      → Done
          (index_of c.requests (turns * c.req_per_blocks) 0)
          (after_turns c s.chunk_bytes turns m)
  unfolding after_turns
  after_turns-Done turns m le =
      Done-at _ (sym (turns_back turns))
        (for_range-from
          (λ turn m. (1 ≤ turn) × Done (index_of c.requests ((turn - 1) * c.req_per_blocks) 0) m)
          (write_turn c s.chunk_bytes) (turns + 1)
          (λ turn m lt (pos, f).
            (omega arith, Done-at _ (turns_back turn) (write_turn-Done turn m pos (omega arith) f)))
          turns 1 (omega arith) m
          (omega arith, record { written = λ blk req lt below. absurd (omega arith) })).1

-- ===== src/Sweep.antt =====
-- custom-test/test2-rdma-fin.c, `rdma_reader_thread` from its gate on, `run_one_sweep` and the loops of
-- `main`: the concurrent reads and their counters.
pub mod Count
pub mod Readers
pub mod Totals
pub mod Schedule
mod Tests
use mio_xcena.Base.{
  ℕ, zero, suc, ◌+◌, ◌*◌, ◌/◌, ◌<◌, ◌^◌, Bool, true, false, ◌&&◌, not, ltb, leb, if◌then◌else◌,
  Option, none, some, List, [], ◌∷◌, u32, u64, uint32_max, Memory, for_range,
}
use mio_xcena.Block.{last_byte, verify_block}
use mio_xcena.Args.{Cfg}
use mio_xcena.Stripe.{block_ptr}

-- `memcpy(scratch, src, n)`, with `scratch` at offset 0 of a memory of its own.
unfoldable pub copy_out : Memory → Memory → (src n : ℕ) → Memory
copy_out scratch m src n a = if ltb a n then m (src + a) else scratch a

-- The local counters of a reader, and its scratch buffer.
pub record Local : Type 0 where
  pub scratch : Memory
  pub blocks : ℕ
  pub fail : ℕ
  pub sum : ℕ

-- What `check` points to: a memory and an offset in it.
pub record Source : Type 0 where
  pub mem : Memory
  pub at : ℕ

-- Count the block at `check`.
abbrev pub count_block : Cfg → (req blk : ℕ) → Memory → Source → Local → Local
count_block c req blk scratch check l = record {
  scratch = scratch;
  sum = u64 (l.sum + u64 (check.mem check.at + check.mem (check.at + last_byte c.block_bytes)));
  fail =
      if c.verify && not (verify_block check.mem check.at c.block_bytes req blk)
      then u64 (l.fail + 1)
      else l.fail;
  blocks = u64 (l.blocks + 1);
}

-- The body of the loop over the blocks of a request.
unfoldable pub read_block : Cfg → (chunks req : ℕ) → Memory → (blk : ℕ) → Local → Local
unfolding copy_out
read_block c chunks req store blk l =
    let src = block_ptr c chunks req blk in
    let copied = copy_out l.scratch store src c.block_bytes in
    if c.copy_to_dst
    then count_block c req blk copied (record { mem = copied; at = 0 }) l
    else count_block c req blk l.scratch (record { mem = store; at = src }) l

-- The loop, from the scratch buffer that the thread was given.
unfoldable pub read_request : Cfg → (chunks req : ℕ) → (store scratch : Memory) → Local
unfolding read_block
read_request c chunks req store scratch =
    for_range c.req_per_blocks 0 (read_block c chunks req store)
      (record { scratch = scratch; blocks = 0; fail = 0; sum = 0 })

-- The shared counters of `struct sweep_ctx`.
pub record Counters : Type 0 where
  pub blocks_read : ℕ
  pub verify_fail : ℕ
  pub checksum : ℕ

abbrev pub counters_zero : Counters
counters_zero = record { blocks_read = 0; verify_fail = 0; checksum = 0 }

-- The three `atomic_fetch_add` at the end of a reader.
unfoldable pub publish : Local → Counters → Counters
publish l t = record {
  blocks_read = u64 (t.blocks_read + l.blocks);
  verify_fail = u64 (t.verify_fail + l.fail);
  checksum = u64 (t.checksum + l.sum);
}

-- The readers in the order in which they publish.
unfoldable pub publish_all : (ℕ → Local) → List ℕ → Counters → Counters
unfolding publish
publish_all result [] t = t
publish_all result (i ∷ order) t = publish_all result order (publish (result i) t)

abbrev pub run_at : Bool → ℕ → Option (List ℕ) → Option (List ℕ)
run_at b c none = none
run_at true c (some rest) = some (c ∷ rest)
run_at false c (some rest) = some rest

-- `for (c = 1; c <= sweep_max; ) { if (c >= sweep_min) run; if (c > UINT32_MAX / 2) break; c <<= 1; }`:
-- the values of `c` that are run, or `none` if the fuel runs out.
unfoldable pub active_counts : (fuel lo hi c : ℕ) → Option (List ℕ)
active_counts zero lo hi c = none
active_counts (suc fuel) lo hi c = elim (leb c hi) [
  | false ↦ some []
  | true ↦ run_at (leb lo c) c (elim (ltb (uint32_max / 2) c) [
    | true ↦ some []
    | false ↦ active_counts fuel lo hi (u32 (c * 2))
  ])
]

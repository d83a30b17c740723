-- ===== src/Turns.antt =====
-- custom-test/test3-mt.c: the multi-turn test. Each turn appends `req_per_blocks` blocks for every
-- request, and then all readers read the blocks of all turns so far.
--
-- `fill_for`, `parse_size`, `parse_u32_arg`, `checked_mul_u64` and the gate are those of
-- test2-rdma-fin.c; the magic number is another one. Pointers are offsets from the start of the store, in 64-bit arithmetic.
pub mod Stamp
pub mod Sizes
pub mod Write
pub mod Read
pub mod Options
mod Tests
use mio_xcena.Base.{
  ℕ, zero, suc, ◌+◌, ◌-◌, ◌*◌, ◌/◌, ◌^◌, Bool, ◌&&◌, not, ◌==◌, ltb, if◌then◌else◌, Option, none,
  some, ◌>>=◌, List, [], ◌∷◌, u32, u64, size_max, Memory, memset, copy_struct, load_field,
  for_range,
}
use mio_xcena.Block.{fill_for, last_byte}
use mio_xcena.Args.{checked_mul_u64}
use mio_xcena.Sweep.{Local, Source, copy_out, Counters, counters_zero, publish_all}

pub record Cfg : Type 0 where
  pub requests : ℕ
  pub req_per_blocks : ℕ
  pub block_bytes : ℕ
  pub rounds : ℕ
  pub verify : Bool
  pub copy_to_dst : Bool
  pub csv_path : List ℕ

pub record BlockTag : Type 0 where
  pub magic : ℕ
  pub request_id : ℕ
  pub block_id : ℕ
  pub turn_id : ℕ
  pub fill_byte : ℕ

-- MTURNBLK
abbrev pub block_magic : ℕ
block_magic = 0x4d5455524e424c4b

abbrev pub sizeof_block_tag : ℕ
sizeof_block_tag = 40

abbrev pub tag_fields : BlockTag → List ℕ
tag_fields t = t.magic ∷ t.request_id ∷ t.block_id ∷ t.turn_id ∷ t.fill_byte ∷ []

abbrev pub tag_for : (req blk turn : ℕ) → BlockTag
tag_for req blk turn = record {
  magic = block_magic;
  request_id = req;
  block_id = blk;
  turn_id = turn;
  fill_byte = fill_for req blk;
}

unfoldable pub fill_block : Memory → (dst block_bytes req blk turn : ℕ) → Memory
unfolding memset copy_struct
fill_block m dst block_bytes req blk turn =
    copy_struct (memset m dst (fill_for req blk) block_bytes) dst
      (tag_fields (tag_for req blk turn))

-- `memcpy(&tag, src, sizeof(tag))`
unfoldable pub load_tag : Memory → (src : ℕ) → BlockTag
load_tag m src = record {
  magic = load_field m src 0;
  request_id = load_field m src 1;
  block_id = load_field m src 2;
  turn_id = load_field m src 3;
  fill_byte = load_field m src 4;
}

unfoldable pub verify_block : Cfg → Memory → (src req blk : ℕ) → Bool
verify_block c m src req blk =
    let tag = load_tag m src in
    let fill = fill_for req blk in
    let turn = u64 (blk / c.req_per_blocks + 1) in
    tag.magic == block_magic
    && tag.request_id == req
    && tag.block_id == blk
    && tag.turn_id == turn
    && tag.fill_byte == fill
    && m (src + last_byte c.block_bytes) == fill

-- What `main` computes before it allocates the store.
pub record StoreSizes : Type 0 where
  pub chunk_bytes : ℕ
  pub store_bytes : ℕ

-- `none` is the message "configured memory size overflows".
unfoldable pub store_sizes : Cfg → Option StoreSizes
store_sizes c = do
  chunk_bytes ← checked_mul_u64 c.requests c.block_bytes
  total_chunks ← checked_mul_u64 c.rounds c.req_per_blocks
  store_bytes ← checked_mul_u64 total_chunks chunk_bytes
  if ltb size_max store_bytes
      then none
      else some (record { chunk_bytes = chunk_bytes; store_bytes = store_bytes })

-- `block_ptr` and `const_block_ptr`
unfoldable pub block_ptr : Cfg → (store chunk_bytes req blk : ℕ) → ℕ
block_ptr c store chunk_bytes req blk =
    u64 (u64 (store + u64 (blk * chunk_bytes)) + u64 (req * c.block_bytes))

-- The body of the outer loop of `write_turn`.
unfoldable pub write_row : Cfg → (chunk_bytes turn blk : ℕ) → Memory → Memory
unfolding fill_block
write_row c chunk_bytes turn blk m =
    let chunk = u64 (blk * chunk_bytes) in
    for_range c.requests 0
      (λ req m. fill_block m (block_ptr c chunk chunk_bytes req 0) c.block_bytes req blk turn) m

-- It returns 0 always.
unfoldable pub write_turn : Cfg → (chunk_bytes turn : ℕ) → Memory → Memory
unfolding write_row
write_turn c chunk_bytes turn m =
    let first_blk = u64 (u32 (turn + 2 ^ 32 - 1) * c.req_per_blocks) in
    for_range c.req_per_blocks 0 (λ i. write_row c chunk_bytes turn (u64 (first_blk + i))) m

-- Count the block at `check`.
abbrev pub count_block : Cfg → (req blk : ℕ) → Memory → Source → Local → Local
count_block c req blk scratch check l = record {
  scratch = scratch;
  sum = u64 (l.sum + u64 (check.mem check.at + check.mem (check.at + last_byte c.block_bytes)));
  fail =
      if c.verify && not (verify_block c check.mem check.at req blk)
      then u64 (l.fail + 1)
      else l.fail;
  blocks = u64 (l.blocks + 1);
}

-- The body of the loop of `reader_thread`.
unfoldable pub read_block : Cfg → (chunk_bytes req : ℕ) → Memory → (blk : ℕ) → Local → Local
unfolding copy_out
read_block c chunk_bytes req store blk l =
    let src = block_ptr c 0 chunk_bytes req blk in
    let copied = copy_out l.scratch store src c.block_bytes in
    if c.copy_to_dst
    then count_block c req blk copied (record { mem = copied; at = 0 }) l
    else count_block c req blk l.scratch (record { mem = store; at = src }) l

-- `reader_thread` from its gate on.
unfoldable pub reader_thread :
    Cfg → (chunk_bytes read_blocks_per_req req : ℕ) → (store scratch : Memory) → Local
unfolding read_block
reader_thread c chunk_bytes read_blocks_per_req req store scratch =
    for_range read_blocks_per_req 0 (read_block c chunk_bytes req store)
      (record { scratch = scratch; blocks = 0; fail = 0; sum = 0 })

-- The counters that `read_cumulative` gives when every thread was created; `order` is the order in
-- which they publish, and `scratch` their buffers.
unfoldable pub read_cumulative :
    Cfg → (chunk_bytes turn : ℕ) → List ℕ → (store : Memory) → (scratch : ℕ → Memory) → Counters
unfolding reader_thread
read_cumulative c chunk_bytes turn order store scratch =
    publish_all
      (λ req. reader_thread c chunk_bytes (u64 (turn * c.req_per_blocks)) req store (scratch req))
      order counters_zero

-- The store after the turns `1, ..., turns` of `main`.
unfoldable pub after_turns : Cfg → (chunk_bytes turns : ℕ) → Memory → Memory
unfolding write_turn
after_turns c chunk_bytes turns m = for_range turns 1 (write_turn c chunk_bytes) m

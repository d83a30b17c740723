-- ===== src/Block.antt =====
-- custom-test/test2-rdma-fin.c, `fill_for`, `fill_block` and `verify_block`: the stamp that the writer
-- leaves in a block and the reader checks. A pointer is an offset from the start of the store, and
-- `struct block_tag` is four 64-bit fields, 32 bytes.
pub mod Tagged
pub mod Stamp
mod Tests
use Prim.Native.Nat.{bit_xor}
use mio_xcena.Base.{
  ℕ, ◌+◌, ◌-◌, ◌*◌, ◌<◌, ◌^◌, Bool, ◌&&◌, ◌==◌, List, [], ◌∷◌, u8, u32, u64, Memory, memset,
  copy_struct, load_field,
}

pub record BlockTag : Type 0 where
  pub magic : ℕ
  pub request_id : ℕ
  pub block_id : ℕ
  pub fill_byte : ℕ

-- MEM_CHK1
abbrev pub block_magic : ℕ
block_magic = 0x4d454d5f43484b31

abbrev pub sizeof_block_tag : ℕ
sizeof_block_tag = 32

abbrev pub tag_fields : BlockTag → List ℕ
tag_fields t = t.magic ∷ t.request_id ∷ t.block_id ∷ t.fill_byte ∷ []

unfoldable pub fill_for : (req blk : ℕ) → ℕ
fill_for req blk = u8 (bit_xor (bit_xor 0xa5 (u8 (u64 (req * 31)))) (u8 (u64 (blk * 17))))

abbrev pub tag_for : (req blk : ℕ) → BlockTag
tag_for req blk = record {
  magic = block_magic;
  request_id = req;
  block_id = blk;
  fill_byte = fill_for req blk;
}

unfoldable pub fill_block : Memory → (dst block_bytes req blk : ℕ) → Memory
unfolding memset copy_struct
fill_block m dst block_bytes req blk =
    copy_struct (memset m dst (fill_for req blk) block_bytes) dst (tag_fields (tag_for req blk))

-- `memcpy(&tag, src, sizeof(tag))`
unfoldable pub load_tag : Memory → (src : ℕ) → BlockTag
load_tag m src = record {
  magic = load_field m src 0;
  request_id = load_field m src 1;
  block_id = load_field m src 2;
  fill_byte = load_field m src 3;
}

-- `block_bytes - 1` wraps at 0.
abbrev pub last_byte : ℕ → ℕ
last_byte block_bytes = u32 (block_bytes + 2 ^ 32 - 1)

unfoldable pub verify_block : Memory → (src block_bytes req blk : ℕ) → Bool
verify_block m src block_bytes req blk =
    let tag = load_tag m src in
    let fill = fill_for req blk in
    tag.magic == block_magic
    && tag.request_id == req
    && tag.block_id == blk
    && tag.fill_byte == fill
    && m (src + last_byte block_bytes) == fill

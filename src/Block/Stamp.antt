-- ===== src/Block/Stamp.antt =====
-- A block holds the stamp of a request and a block number when every byte is the one that
-- `fill_block` (custom-test/test2-rdma-fin.c) writes there.
use mio_xcena.Base.{
  ℕ, ◌+◌, ◌-◌, ◌<◌, ◌≤◌, ◌^◌, ◌≡◌, ◌∙◌, ◌↔◌, true, ◌⊎◌, le→ltb, field_at, arith, Memory, load_field,
}
use mio_xcena.Block.Tagged.{Carries, tagged_byte, tagged-Carries, tagged-outside, field-Carries}
use mio_xcena.Block.{
  BlockTag, sizeof_block_tag, tag_fields, tag_for, fill_for, fill_block, load_tag, last_byte,
  verify_block,
}

-- Byte `j` of a stamped block: the tag, then the fill byte up to the end.
abbrev pub stamp_byte : (req blk j : ℕ) → ℕ
stamp_byte req blk j = tagged_byte (tag_fields (tag_for req blk)) (fill_for req blk) j

-- The block of `block_bytes` bytes at `off` holds the stamp.
abbrev pub Stamped : Memory → (off block_bytes req blk : ℕ) → Type 0
Stamped m off block_bytes req blk = Carries m off block_bytes (stamp_byte req blk)

pub fill_for-lt : (req blk : ℕ) → fill_for req blk < 256
unfolding fill_for
fill_for-lt req blk = omega arith

pub fill_block-Stamped :
    (m : Memory) (dst block_bytes req blk : ℕ)
    → sizeof_block_tag ≤ block_bytes
    → Stamped (fill_block m dst block_bytes req blk) dst block_bytes req blk
unfolding fill_block
fill_block-Stamped m dst block_bytes req blk big =
    tagged-Carries m dst block_bytes (fill_for req blk) (tag_fields (tag_for req blk)) big

-- `fill_block` writes nothing outside its block.
pub fill_block-outside :
    (m : Memory) (dst block_bytes req blk a : ℕ)
    → sizeof_block_tag ≤ block_bytes
    → (a < dst) ⊎ (dst + block_bytes ≤ a)
    → fill_block m dst block_bytes req blk a ≡ m a
unfolding fill_block
fill_block-outside m dst block_bytes req blk a big out =
    tagged-outside m dst block_bytes (fill_for req blk) (tag_fields (tag_for req blk)) a big out

-- What `verify_block` copies out of a stamped block is the tag that `fill_block` made.
pub load_tag-Stamped :
    (m : Memory) (src block_bytes req blk : ℕ)
    → sizeof_block_tag ≤ block_bytes
    → req < 2 ^ 64
    → blk < 2 ^ 64
    → Stamped m src block_bytes req blk
    → load_tag m src ≡ tag_for req blk
unfolding load_tag
load_tag-Stamped m src block_bytes req blk big req_lt blk_lt s = ground (
  arith,
  field 0 (omega arith) (omega arith),
  field 1 (omega arith) req_lt,
  field 2 (omega arith) blk_lt,
  field 3 (omega arith) (omega (arith, fill_for-lt req blk)),
)
  where
    field :
        (i : ℕ)
        → i < 4
        → field_at (tag_fields (tag_for req blk)) i < 2 ^ 64
        → load_field m src i ≡ field_at (tag_fields (tag_for req blk)) i
    field i lt small =
        field-Carries m src block_bytes (fill_for req blk) (tag_fields (tag_for req blk)) i big lt
          small s

pub last_byte-Stamped :
    (m : Memory) (src block_bytes req blk : ℕ)
    → sizeof_block_tag < block_bytes
    → block_bytes < 2 ^ 32
    → Stamped m src block_bytes req blk
    → m (src + last_byte block_bytes) ≡ fill_for req blk
last_byte-Stamped m src block_bytes req blk big small s =
    let last : last_byte block_bytes ≡ block_bytes - 1 = omega arith in
    rw last (
      s (block_bytes - 1) (omega arith)
      ∙ rw (le→ltb (block_bytes - 1) sizeof_block_tag (omega arith)))

-- `verify_block` accepts a stamped block.
pub verify_block-Stamped :
    (m : Memory) (src block_bytes req blk : ℕ)
    → sizeof_block_tag < block_bytes
    → block_bytes < 2 ^ 32
    → req < 2 ^ 64
    → blk < 2 ^ 64
    → Stamped m src block_bytes req blk
    → verify_block m src block_bytes req blk ≡ true
unfolding verify_block
verify_block-Stamped m src block_bytes req blk big small req_lt blk_lt s =
    rw (load_tag-Stamped m src block_bytes req blk (omega arith) req_lt blk_lt s)
      (ground (arith, last_byte-Stamped m src block_bytes req blk big small s))

-- What an accepted block's tag says.
verify_block-tag :
    (m : Memory) (src block_bytes req blk : ℕ) (t : BlockTag)
    → load_tag m src ≡ t
    → verify_block m src block_bytes req blk ≡ true
    → (t.request_id ≡ req) × (t.block_id ≡ blk)
unfolding verify_block
verify_block-tag m src block_bytes req blk t e h = ground arith

-- A block that `fill_block` has written for one request and block number is accepted for a request
-- and block number exactly when they are the same.
pub verify_block-fill_block :
    (m : Memory) (dst block_bytes req blk req' blk' : ℕ)
    → sizeof_block_tag < block_bytes
    → block_bytes < 2 ^ 32
    → req < 2 ^ 64
    → blk < 2 ^ 64
    → (verify_block (fill_block m dst block_bytes req blk) dst block_bytes req' blk' ≡ true)
      ↔ ((req ≡ req') × (blk ≡ blk'))
verify_block-fill_block m dst block_bytes req blk req' blk' big small req_lt blk_lt =
    (rejects, accepts)
  where
    m' : Memory
    m' = fill_block m dst block_bytes req blk

    stamped : Stamped m' dst block_bytes req blk
    stamped = fill_block-Stamped m dst block_bytes req blk (omega arith)

    rejects : verify_block m' dst block_bytes req' blk' ≡ true → (req ≡ req') × (blk ≡ blk')
    rejects e =
        verify_block-tag m' dst block_bytes req' blk' (tag_for req blk)
          (load_tag-Stamped m' dst block_bytes req blk (omega arith) req_lt blk_lt stamped) e

    accepts : (req ≡ req') × (blk ≡ blk') → verify_block m' dst block_bytes req' blk' ≡ true
    accepts (e, f) =
        rw (← e, ← f)
          (verify_block-Stamped m' dst block_bytes req blk big small req_lt blk_lt stamped)

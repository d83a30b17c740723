-- ===== src/Turns/Stamp.antt =====
-- The stamp of a block of custom-test/test3-mt.c, whose tag also names the turn.
use mio_xcena.Base.{
  ℕ, ◌+◌, ◌-◌, ◌/◌, ◌<◌, ◌≤◌, ◌^◌, ◌≡◌, ◌∙◌, ◌⊎◌, true, le→ltb, arith, Memory, field_at, load_field,
  u64,
}
use mio_xcena.Block.{fill_for, last_byte}
use mio_xcena.Block.Tagged.{Carries, tagged_byte, tagged-Carries, tagged-outside, field-Carries}
use mio_xcena.Block.Stamp.{fill_for-lt}
use mio_xcena.Grid.{Blocks}
use mio_xcena.Turns.{Cfg, sizeof_block_tag, tag_fields, tag_for, fill_block, load_tag, verify_block}
use mio_xcena.Turns.Sizes.{IsValid}

-- The turn that writes a block.
abbrev pub turn_of : Cfg → (blk : ℕ) → ℕ
turn_of c blk = blk / c.req_per_blocks + 1

abbrev pub stamp_byte : Cfg → (req blk j : ℕ) → ℕ
stamp_byte c req blk j =
    tagged_byte (tag_fields (tag_for req blk (turn_of c blk))) (fill_for req blk) j

module _ (c : Cfg) (v : IsValid c) where
  pub write-Carries :
      (m : Memory) (dst req blk : ℕ)
      → Carries
          (fill_block m dst c.block_bytes req blk (turn_of c blk))
          dst
          c.block_bytes
          (stamp_byte c req blk)
  unfolding fill_block
  write-Carries m dst req blk =
      tagged-Carries m dst c.block_bytes (fill_for req blk)
        (tag_fields (tag_for req blk (turn_of c blk))) (omega (arith, v.tag_fits))

  pub write-outside :
      (m : Memory) (dst req blk a : ℕ)
      → (a < dst) ⊎ (dst + c.block_bytes ≤ a)
      → fill_block m dst c.block_bytes req blk (turn_of c blk) a ≡ m a
  unfolding fill_block
  write-outside m dst req blk a out =
      tagged-outside m dst c.block_bytes (fill_for req blk)
        (tag_fields (tag_for req blk (turn_of c blk))) a (omega (arith, v.tag_fits)) out

  -- The blocks that `write_turn` writes.
  abbrev pub stamps : Blocks
  stamps = record {
    bytes = c.block_bytes;
    byte = stamp_byte c;
    write = λ m dst req blk. fill_block m dst c.block_bytes req blk (turn_of c blk);
    write-Carries = write-Carries;
    write-outside = write-outside;
  }

  load_tag-Carries :
      (m : Memory) (src req blk : ℕ)
      → req < 2 ^ 64
      → blk < 2 ^ 64
      → turn_of c blk < 2 ^ 64
      → Carries m src c.block_bytes (stamp_byte c req blk)
      → load_tag m src ≡ tag_for req blk (turn_of c blk)
  unfolding load_tag
  load_tag-Carries m src req blk req_lt blk_lt turn_lt s = ground (
    arith,
    field 0 (omega arith) (omega arith),
    field 1 (omega arith) req_lt,
    field 2 (omega arith) blk_lt,
    field 3 (omega arith) turn_lt,
    field 4 (omega arith) (omega (arith, fill_for-lt req blk)),
  )
    where
      field :
          (i : ℕ)
          → i < 5
          → field_at (tag_fields (tag_for req blk (turn_of c blk))) i < 2 ^ 64
          → load_field m src i ≡ field_at (tag_fields (tag_for req blk (turn_of c blk))) i
      field i lt small =
          field-Carries m src c.block_bytes (fill_for req blk)
            (tag_fields (tag_for req blk (turn_of c blk))) i (omega (arith, v.tag_fits)) lt small s

  pub last_byte-Carries :
      (m : Memory) (src req blk : ℕ)
      → Carries m src c.block_bytes (stamp_byte c req blk)
      → m (src + last_byte c.block_bytes) ≡ fill_for req blk
  last_byte-Carries m src req blk s =
      let last : last_byte c.block_bytes ≡ c.block_bytes - 1 =
        omega (arith, v.block_bytes, v.tag_fits) in
      rw last (
        s (c.block_bytes - 1) (omega (arith, v.tag_fits))
        ∙ rw (le→ltb (c.block_bytes - 1) sizeof_block_tag (omega (arith, v.tag_fits))))

  -- `verify_block` accepts a block with its stamp.
  pub verify_block-Carries :
      (m : Memory) (src req blk : ℕ)
      → req < 2 ^ 64
      → blk < 2 ^ 64
      → turn_of c blk < 2 ^ 64
      → Carries m src c.block_bytes (stamp_byte c req blk)
      → verify_block c m src req blk ≡ true
  unfolding verify_block
  verify_block-Carries m src req blk req_lt blk_lt turn_lt s =
      let turn : u64 (turn_of c blk) ≡ turn_of c blk = omega arith in
      rw (load_tag-Carries m src req blk req_lt blk_lt turn_lt s, turn)
        (ground (arith, last_byte-Carries m src req blk s))

-- ===== src/Sweep/Count.antt =====
-- What a reader's counters say after some blocks, for the programs of custom-test: both
-- test2-rdma-fin.c and test3-mt.c count, verify and sum each block in the same way.
use mio_xcena.Base.{
  ℕ, zero, suc, ◌+◌, ◌*◌, ◌<◌, ◌≤◌, ◌^◌, ◌≡◌, refl, Bool, true, false, ◌&&◌, not, if◌then◌else◌,
  arith, u64, Memory, lt→ltb,
}
use mio_xcena.Block.{fill_for}
use mio_xcena.Block.Tagged.{Carries}
use mio_xcena.Block.Stamp.{fill_for-lt}
use mio_xcena.Sweep.{Local, copy_out}

-- What the first `n` blocks of a request add to the checksum, where `magic` is the first byte of the
-- magic number.
pub checksum_of : (magic req n : ℕ) → ℕ
checksum_of magic req zero = 0
checksum_of magic req (suc n) = checksum_of magic req n + (magic + fill_for req n)

pub checksum_of-le : (magic req n : ℕ) → magic < 256 → checksum_of magic req n ≤ 511 * n
unfolding checksum_of
checksum_of-le magic req zero small = omega arith
checksum_of-le magic req (suc n) small =
    omega (arith, checksum_of-le magic req n small, fill_for-lt req n)

-- A copy of a block carries what the block carries.
pub copy_out-Carries :
    (scratch m : Memory) (src n : ℕ) (byte : ℕ → ℕ)
    → Carries m src n byte
    → Carries (copy_out scratch m src n) 0 n byte
unfolding copy_out
copy_out-Carries scratch m src n byte s j lt =
    let e : 0 + j ≡ j = omega arith in rw (e, lt→ltb j n lt) (s j lt)

-- The counters after `n` blocks.
pub record Counted (magic req n : ℕ) (l : Local) : Type 0 where
  pub blocks : l.blocks ≡ n
  pub fail : l.fail ≡ 0
  pub sum : l.sum ≡ u64 (checksum_of magic req n)

pub zero-Counted :
    (magic req : ℕ) (scratch : Memory)
    → Counted magic req 0 (record { scratch = scratch; blocks = 0; fail = 0; sum = 0 })
unfolding checksum_of
zero-Counted magic req scratch = record { blocks = refl; fail = refl; sum = refl }

pub if-both :
    {A : Type 0} (P : A → Type 0) (b : Bool) (x y : A) → P x → P y → P (if b then x else y)
if-both P true x y p q = p
if-both P false x y p q = q

-- One more block, whose first and last byte are `first` and `last`, and which is `accepted`.
pub next-Counted :
    (magic req blk first last : ℕ) (verify accepted : Bool) (scratch : Memory) (l : Local)
    → blk + 1 < 2 ^ 64
    → magic < 256
    → first ≡ magic
    → last ≡ fill_for req blk
    → accepted ≡ true
    → Counted magic req blk l
    → Counted magic req (blk + 1) (record {
      scratch = scratch;
      sum = u64 (l.sum + u64 (first + last));
      fail = if verify && not accepted then u64 (l.fail + 1) else l.fail;
      blocks = u64 (l.blocks + 1);
    })
unfolding checksum_of
next-Counted magic req blk first last verify accepted scratch l small byte e f g d =
    let next : blk + 1 ≡ suc blk = omega arith in
    rw next (record {
      blocks = omega (arith, d.blocks);
      fail = ground (arith, d.fail);
      sum = omega (arith, d.sum, fill_for-lt req blk);
    })

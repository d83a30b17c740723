-- ===== src/Grid.antt =====
-- A store that is cut into blocks of `block_bytes` bytes, in rows of `width` blocks: row `blk`, place
-- `req`. Both layouts of custom-test (the chunk stripes of test2-rdma-fin.c and the turns of
-- test3-mt.c) put the block of a request there.
use mathlib.Core.Path.{subst₂}
use native.Mathlib.Decide.{dec_lt}
use mio_xcena.Base.{ℕ, ◌+◌, ◌*◌, ◌<◌, ◌≤◌, ◌≡◌, ◌⊎◌, inl, arith, Memory, ap, ◌∙◌}
use mio_xcena.Block.Tagged.{Carries}

-- The number of a block, and the offset of its first byte.
abbrev pub index_of : (width blk req : ℕ) → ℕ
index_of width blk req = blk * width + req

abbrev pub offset_of : (width block_bytes blk req : ℕ) → ℕ
offset_of width block_bytes blk req = index_of width blk req * block_bytes

-- Blocks with different numbers lie apart.
pub before : (i j b : ℕ) → i < j → i * b + b ≤ j * b
before i j b lt = grind arith

pub index_of-injective :
    (width blk req blk' req' : ℕ)
    → req < width
    → req' < width
    → index_of width blk req ≡ index_of width blk' req'
    → (blk ≡ blk') × (req ≡ req')
index_of-injective width blk req blk' req' lt lt' e = elim (dec_lt blk blk') [
  | yes p ↦ absurd (omega (arith, before blk blk' width p))
  | no p ↦ elim (dec_lt blk' blk) [
    | yes q ↦ absurd (omega (arith, before blk' blk width q))
    | no q ↦
        let rows : blk ≡ blk' = omega arith in (rows, omega (arith, ap (λ (r : ℕ). r * width) rows))
  ]
]

pub index_of-lt : (width blk req n : ℕ) → req < width → blk < n → index_of width blk req < n * width
index_of-lt width blk req n lt lt' = grind arith

-- A way to write blocks of `bytes` bytes whose contents depend on the request and the block number.
pub record Blocks : Type 0 where
  pub bytes : ℕ
  pub byte : (req blk j : ℕ) → ℕ
  pub write : Memory → (dst req blk : ℕ) → Memory
  pub write-Carries :
      (m : Memory) (dst req blk : ℕ) → Carries (write m dst req blk) dst bytes (byte req blk)
  pub write-outside :
      (m : Memory) (dst req blk a : ℕ) → (a < dst) ⊎ (dst + bytes ≤ a) → write m dst req blk a ≡ m a

module _ (B : Blocks) (width requests : ℕ) (narrow : requests ≤ width) where
  -- Every block of a request below `requests` whose number is below `k` has its contents.
  abbrev pub Written : ℕ → Memory → Type 0
  Written k m =
      (blk req : ℕ)
      → req < requests
      → index_of width blk req < k
      → Carries m (offset_of width B.bytes blk req) B.bytes (B.byte req blk)

  -- A change from block `k` on leaves the blocks before it alone.
  pub Written-above :
      (k : ℕ) (m m' : Memory)
      → ((a : ℕ) → a < k * B.bytes → m' a ≡ m a)
      → Written k m
      → Written k m'
  Written-above k m m' same w blk req lt below j j_lt =
      let there : offset_of width B.bytes blk req + j < k * B.bytes =
        omega (arith, before (index_of width blk req) k B.bytes below) in
      same (offset_of width B.bytes blk req + j) there ∙ w blk req lt below j j_lt

  -- Writing block number `k` extends what is written by that block.
  pub Written-fill :
      (blk req : ℕ) (m : Memory)
      → req < requests
      → Written (index_of width blk req) m
      → Written (index_of width blk req + 1) (B.write m (offset_of width B.bytes blk req) req blk)
  Written-fill blk req m lt w blk' req' lt' below =
      elim (dec_lt (index_of width blk' req') (index_of width blk req)) [
        | yes p ↦ λ j j_lt.
            B.write-outside m (offset_of width B.bytes blk req) req blk
              (offset_of width B.bytes blk' req' + j) (inl (omega (arith, before _ _ B.bytes p)))
            ∙ w blk' req' lt' p j j_lt
        | no p ↦
            let (rows, places) =
              index_of-injective width blk req blk' req' (omega arith) (omega arith)
                (omega arith) in
            subst₂
              (λ b r.
                Carries (B.write m (offset_of width B.bytes blk req) req blk)
                  (offset_of width B.bytes b r) B.bytes (B.byte r b))
              rows places (B.write-Carries m (offset_of width B.bytes blk req) req blk)
      ]

  -- A place at or beyond `requests` needs no contents.
  pub Written-skip :
      (blk req : ℕ) (m : Memory)
      → requests ≤ req
      → req < width
      → Written (index_of width blk req) m
      → Written (index_of width blk req + 1) m
  Written-skip blk req m ge lt w blk' req' lt' below =
      elim (dec_lt (index_of width blk' req') (index_of width blk req)) [
        | yes p ↦ w blk' req' lt' p
        | no p ↦
            let (rows, places) =
              index_of-injective width blk req blk' req' lt (omega arith) (omega arith) in
            absurd (omega arith)
      ]

-- ===== src/Turns/Sizes.antt =====
-- The store of custom-test/test3-mt.c: its sizes, and where `block_ptr` finds a block.
use mio_xcena.Base.{ℕ, ◌+◌, ◌*◌, ◌<◌, ◌≤◌, ◌^◌, ◌≡◌, refl, ◌∙◌, some, arith, u64, >>=-some}
use mio_xcena.Args.{checked_mul_u64}
use mio_xcena.Args.Sizes.{checked_mul_u64-some}
use mio_xcena.Args.Valid.{IsCount}
use mio_xcena.Grid.{offset_of, index_of-lt, before}
use mio_xcena.Turns.{Cfg, sizeof_block_tag, StoreSizes, store_sizes, block_ptr}

-- A configuration that `main` goes on with.
pub record IsValid (c : Cfg) : Type 0 where
  pub requests : IsCount c.requests
  pub req_per_blocks : IsCount c.req_per_blocks
  pub block_bytes : IsCount c.block_bytes
  pub rounds : IsCount c.rounds
  pub tag_fits : sizeof_block_tag < c.block_bytes

-- The sizes in exact arithmetic.
pub record IsSized (c : Cfg) (s : StoreSizes) : Type 0 where
  pub chunk : s.chunk_bytes ≡ c.requests * c.block_bytes
  pub total : s.store_bytes ≡ c.rounds * c.req_per_blocks * (c.requests * c.block_bytes)
  pub fits : s.store_bytes < 2 ^ 64

sized :
    (c : Cfg) (s : StoreSizes) (chunk_bytes total_chunks store_bytes : ℕ)
    → (chunk_bytes ≡ c.requests * c.block_bytes) × (chunk_bytes < 2 ^ 64)
    → (total_chunks ≡ c.rounds * c.req_per_blocks) × (total_chunks < 2 ^ 64)
    → (store_bytes ≡ total_chunks * chunk_bytes) × (store_bytes < 2 ^ 64)
    → (s.chunk_bytes ≡ chunk_bytes) × (s.store_bytes ≡ store_bytes)
    → IsSized c s
sized c s chunk_bytes total_chunks store_bytes e₁ e₂ e₃ (f, g) = record {
  chunk = f ∙ e₁.0;
  total = rw (g, e₃.0, e₂.0, e₁.0) refl;
  fits = rw g e₃.1;
}

-- If `main` of test3-mt.c accepts the sizes of a configuration, they are those of exact arithmetic, and
-- the store has fewer than 2^64 bytes.
pub turns_sizes-IsSized : (c : Cfg) (s : StoreSizes) → store_sizes c ≡ some s → IsSized c s
unfolding store_sizes
turns_sizes-IsSized c s e =
    let (chunk_bytes, e₁, r₁) = >>=-some (checked_mul_u64 c.requests c.block_bytes) _ e in
    let (total_chunks, e₂, r₂) = >>=-some (checked_mul_u64 c.rounds c.req_per_blocks) _ r₁ in
    let (store_bytes, e₃, r₃) = >>=-some (checked_mul_u64 total_chunks chunk_bytes) _ r₂ in
    sized c s chunk_bytes total_chunks store_bytes (checked_mul_u64-some _ _ e₁)
      (checked_mul_u64-some _ _ e₂) (checked_mul_u64-some _ _ e₃) (ground arith)

module _ (c : Cfg) (s : StoreSizes) (z : IsSized c s) where
  -- A block of the configuration lies inside the store.
  pub inside :
      (req blk : ℕ)
      → req < c.requests
      → blk < c.rounds * c.req_per_blocks
      → offset_of c.requests c.block_bytes blk req + c.block_bytes ≤ s.store_bytes
  inside req blk lt b_lt =
      let row = index_of-lt c.requests blk req (c.rounds * c.req_per_blocks) lt b_lt in
      omega (arith, z.total, before _ _ c.block_bytes row)

  -- `block_ptr` does not wrap, from the start of the store and from the start of a row.
  pub block_ptr-store :
      (req blk : ℕ)
      → req < c.requests
      → blk < c.rounds * c.req_per_blocks
      → block_ptr c 0 s.chunk_bytes req blk ≡ offset_of c.requests c.block_bytes blk req
  unfolding block_ptr
  block_ptr-store req blk lt b_lt = rw z.chunk (omega (arith, inside req blk lt b_lt, z.fits))

  pub block_ptr-row :
      (req blk : ℕ)
      → req < c.requests
      → blk < c.rounds * c.req_per_blocks
      → block_ptr c (u64 (blk * s.chunk_bytes)) s.chunk_bytes req 0
        ≡ offset_of c.requests c.block_bytes blk req
  unfolding block_ptr
  block_ptr-row req blk lt b_lt = rw z.chunk (omega (arith, inside req blk lt b_lt, z.fits))

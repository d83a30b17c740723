-- ===== src/Stripe/Layout.antt =====
-- Where the chunk-stripe layout of custom-test/test2-rdma-fin.c puts the blocks: no computation wraps,
-- every block lies inside the store, and no two overlap.
use native.Mathlib.Nat.{div-lt_iff_lt-mul}
use native.Mathlib.Decide.{dec_lt}
use mio_xcena.Base.{
  ℕ, ◌+◌, ◌-◌, ◌*◌, ◌/◌, ◌%◌, ◌<◌, ◌≤◌, ◌^◌, ◌≡◌, ◌⊎◌, inl, inr, ◌≢◌, ◌∙◌, ap, some, arith, u64,
  u64_small, >>=-some,
}
use mio_xcena.Args.{Cfg, checked_mul_u64}
use mio_xcena.Args.Sizes.{checked_mul_u64-some}
use mio_xcena.Args.Valid.{IsValid}
use mio_xcena.Grid.{index_of, offset_of, index_of-injective, index_of-lt, before}
use mio_xcena.Stripe.{StoreSizes, store_sizes, block_ptr}

-- The blocks in a row of the store: the slots of all chunks of one block number.
abbrev pub width : Cfg → StoreSizes → ℕ
width c s = s.chunks * c.chunk_slots

-- The sizes in exact arithmetic.
pub record IsSized (c : Cfg) (s : StoreSizes) : Type 0 where
  pub rounded_up : c.requests ≤ width c s
  pub chunk : s.chunk_bytes ≡ c.chunk_slots * c.block_bytes
  pub total : s.store_bytes ≡ c.req_per_blocks * width c s * c.block_bytes
  pub fits : s.store_bytes < 2 ^ 64

ceil-lt : (r s : ℕ) → 1 ≤ s → r ≤ (r + s - 1) / s * s
ceil-lt r s pos = grind arith

ceil-le : (r s : ℕ) → 1 ≤ s → 1 ≤ r → (r + s - 1) / s ≤ r
ceil-le r s pos pos' = grind arith

abbrev ceil : Cfg → ℕ
ceil c = (c.requests + c.chunk_slots - 1) / c.chunk_slots

count-fits : (n r s : ℕ) → 1 ≤ s → 1 ≤ r → n < 2 ^ 32 → r < 2 ^ 32 → n * ((r + s - 1) / s) < 2 ^ 64
count-fits n r s pos pos' n_lt r_lt = grind (arith, ceil-le)

sized :
    (c : Cfg) (s : StoreSizes) (chunk_bytes store_bytes : ℕ)
    → IsValid c
    → (chunk_bytes ≡ c.chunk_slots * c.block_bytes) × (chunk_bytes < 2 ^ 64)
    → (store_bytes ≡ u64 (c.req_per_blocks * ceil c) * chunk_bytes) × (store_bytes < 2 ^ 64)
    → s ≡ record { chunks = ceil c; chunk_bytes = chunk_bytes; store_bytes = store_bytes }
    → IsSized c s
sized c s chunk_bytes store_bytes v e₁ e₂ e₃ = record {
  rounded_up = rw chunks (ceil-lt c.requests c.chunk_slots (omega arith));
  chunk = bytes ∙ e₁.0;
  total = total;
  fits = rw store e₂.1;
}
  where
    chunks : s.chunks ≡ ceil c
    chunks = ap (λ (t : StoreSizes). t.chunks) e₃

    bytes : s.chunk_bytes ≡ chunk_bytes
    bytes = ap (λ (t : StoreSizes). t.chunk_bytes) e₃

    store : s.store_bytes ≡ store_bytes
    store = ap (λ (t : StoreSizes). t.store_bytes) e₃

    count : u64 (c.req_per_blocks * ceil c) ≡ c.req_per_blocks * ceil c
    count = u64_small _ (
        count-fits c.req_per_blocks c.requests c.chunk_slots (omega arith) (omega arith)
          (omega arith) (omega arith))

    total : s.store_bytes ≡ c.req_per_blocks * width c s * c.block_bytes
    total = rw (store, e₂.0, count, e₁.0, chunks) (omega arith)

-- A store that `main` accepts has these sizes.
pub store_sizes-IsSized :
    (c : Cfg) (s : StoreSizes) → IsValid c → store_sizes c ≡ some s → IsSized c s
unfolding store_sizes
store_sizes-IsSized c s v e =
    let exact : u64 (u64 (c.requests + c.chunk_slots) + 2 ^ 64 - 1)
        ≡ c.requests + c.chunk_slots - 1 =
      omega arith in
    let e₀ = rw exact at e in
    let (chunk_bytes, e₁, e') = >>=-some (checked_mul_u64 c.chunk_slots c.block_bytes) _ e₀ in
    let (store_bytes, e₂, e₃) =
      >>=-some (checked_mul_u64 (u64 (c.req_per_blocks * ceil c)) chunk_bytes) _ e' in
    sized c s chunk_bytes store_bytes v (checked_mul_u64-some _ _ e₁) (checked_mul_u64-some _ _ e₂)
      (ground arith)

-- The offset of slot `slot` of chunk `chunk`, with every product reduced to 64 bits.
pub slot_offset :
    (chunks slots block_bytes blk group slot n : ℕ)
    → 1 ≤ slots
    → group < chunks
    → slot < slots
    → blk < n
    → n * (chunks * slots) * block_bytes < 2 ^ 64
    → ((blk * chunks + group) * slots * block_bytes + slot * block_bytes
        ≡ offset_of (chunks * slots) block_bytes blk (group * slots + slot))
      × (index_of (chunks * slots) blk (group * slots + slot) < n * (chunks * slots))
      × (offset_of (chunks * slots) block_bytes blk (group * slots + slot) + block_bytes < 2 ^ 64)
slot_offset chunks slots block_bytes blk group slot n pos g_lt s_lt b_lt fits =
    (omega arith, below, omega (arith, before _ _ block_bytes below))
  where
    place : group * slots + slot < chunks * slots
    place = index_of-lt slots group slot chunks s_lt g_lt

    below : index_of (chunks * slots) blk (group * slots + slot) < n * (chunks * slots)
    below = index_of-lt (chunks * slots) blk (group * slots + slot) n place b_lt

div-mul-add-mod : (n d : ℕ) → n / d * d + n % d ≡ n
div-mul-add-mod n d = grind arith

pub mul_ge : (a b : ℕ) → 1 ≤ b → a ≤ a * b
mul_ge a b pos = grind arith

-- The arithmetic of `block_ptr` does not wrap when its result fits.
no_wrap :
    (blk chunks group slots block_bytes slot : ℕ)
    → 1 ≤ slots
    → 1 ≤ block_bytes
    → (blk * chunks + group) * slots * block_bytes + slot * block_bytes < 2 ^ 64
    → u64 (
        u64 (u64 (u64 (u64 (blk * chunks) + group) * slots) * block_bytes)
        + u64 (slot * block_bytes))
      ≡ (blk * chunks + group) * slots * block_bytes + slot * block_bytes
no_wrap blk chunks group slots block_bytes slot pos pos' fits =
    let chunk = blk * chunks + group in
    let a : chunk ≤ chunk * slots = mul_ge chunk slots pos in
    let b : chunk * slots ≤ chunk * slots * block_bytes = mul_ge (chunk * slots) block_bytes pos' in
    rw
      (
        u64_small (blk * chunks) (omega arith),
        u64_small chunk (omega arith),
        u64_small (chunk * slots) (omega arith),
        u64_small (chunk * slots * block_bytes) (omega arith),
        u64_small (slot * block_bytes) (omega arith),
      )
      (u64_small (chunk * slots * block_bytes + slot * block_bytes) (omega arith))

apart : (i j b : ℕ) → i ≢ j → (i * b + b ≤ j * b) ⊎ (j * b + b ≤ i * b)
apart i j b ne = elim (dec_lt i j) [
  | yes p ↦ inl (before i j b p)
  | no p ↦ inr (before j i b (omega arith))
]

module _ (c : Cfg) (s : StoreSizes) (v : IsValid c) (z : IsSized c s) where
  group-lt : (req : ℕ) → req < c.requests → req / c.chunk_slots < s.chunks
  group-lt req lt = (div-lt_iff_lt-mul (omega arith)).1 (omega (arith, z.rounded_up))

  -- For a request and a block number of the configuration, `block_ptr` computes the offset of place
  -- `req` in row `blk`, and the whole block lies inside the store.
  pub block_ptr_lem :
      (req blk : ℕ)
      → req < c.requests
      → blk < c.req_per_blocks
      → (block_ptr c s.chunks req blk ≡ offset_of (width c s) c.block_bytes blk req)
        × (block_ptr c s.chunks req blk + c.block_bytes ≤ s.store_bytes)
  unfolding block_ptr
  block_ptr_lem req blk lt lt' =
      let (at, below, fit) =
        slot_offset s.chunks c.chunk_slots c.block_bytes blk (req / c.chunk_slots)
          (req % c.chunk_slots) c.req_per_blocks (omega arith) (group-lt req lt) (omega arith) lt'
          (rw z.total at z.fits) in
      let place : req / c.chunk_slots * c.chunk_slots + req % c.chunk_slots ≡ req =
        div-mul-add-mod req c.chunk_slots in
      let exact =
        no_wrap blk s.chunks (req / c.chunk_slots) c.chunk_slots c.block_bytes (req % c.chunk_slots)
          (omega arith) (omega arith) (omega arith)
        ∙ at
        ∙ ap (offset_of (width c s) c.block_bytes blk) place in
      (
        exact,
        rw exact (
            omega (
              arith,
              z.total,
              before (index_of (width c s) blk req) (c.req_per_blocks * width c s) c.block_bytes
                  (rw place at below),
            )),
      )

  -- Blocks of different requests or different numbers do not overlap.
  pub block_ptr-disjoint :
      (req blk req' blk' : ℕ)
      → req < c.requests
      → blk < c.req_per_blocks
      → req' < c.requests
      → blk' < c.req_per_blocks
      → ¬ ((req ≡ req') × (blk ≡ blk'))
      → (block_ptr c s.chunks req blk + c.block_bytes ≤ block_ptr c s.chunks req' blk')
        ⊎ (block_ptr c s.chunks req' blk' + c.block_bytes ≤ block_ptr c s.chunks req blk)
  block_ptr-disjoint req blk req' blk' lt b_lt lt' b_lt' ne =
      rw ((block_ptr_lem req blk lt b_lt).0, (block_ptr_lem req' blk' lt' b_lt').0)
        (apart (index_of (width c s) blk req) (index_of (width c s) blk' req') c.block_bytes λ e.
          let (b, r) =
            index_of-injective (width c s) blk req blk' req' (omega (arith, z.rounded_up))
              (omega (arith, z.rounded_up)) e in
          ne (r, b))

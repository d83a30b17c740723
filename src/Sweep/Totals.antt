-- ===== src/Sweep/Totals.antt =====
-- The shared counters of `struct sweep_ctx` (custom-test/test2-rdma-fin.c) when all readers have
-- published, in whatever order they do.
use mio_xcena.Block.{block_magic}
use mio_xcena.Base.{u8, ℕ, ◌+◌, ◌*◌, ◌<◌, ◌≡◌, refl, List, [], ◌∷◌, arith, u64, Memory, length}
use mio_xcena.Args.{Cfg}
use mio_xcena.Args.Valid.{IsValid}
use mio_xcena.Stripe.{StoreSizes, populate_chunk_stripe}
use mio_xcena.Stripe.Layout.{IsSized}
use mio_xcena.Sweep.{Local, read_request, Counters, counters_zero, publish, publish_all}
use mio_xcena.Sweep.Count.{checksum_of, checksum_of-le}
use mio_xcena.Sweep.Readers.{read_request_lem}

-- Every request of a list is below `n`.
abbrev pub AllBelow : (n : ℕ) → List ℕ → Type 0
AllBelow n [] = Unit
AllBelow n (i ∷ is) = (i < n) × AllBelow n is

-- The sum of a number for each request of a list.
unfoldable pub sum_of : (ℕ → ℕ) → List ℕ → ℕ
sum_of f [] = 0
sum_of f (i ∷ is) = f i + sum_of f is

-- The counters stand for the numbers `blocks` and `sum`, modulo 2^64, and no fault.
record Count (blocks sum : ℕ) (t : Counters) : Type 0 where
  blocks_read : t.blocks_read ≡ u64 blocks
  verify_fail : t.verify_fail ≡ 0
  checksum : t.checksum ≡ u64 sum

-- What every reader of a request below `requests` finds: `n` blocks, no fault, and a sum.
pub record Found (n : ℕ) (sum : ℕ) (l : Local) : Type 0 where
  pub blocks : l.blocks ≡ n
  pub fail : l.fail ≡ 0
  pub total : l.sum ≡ u64 sum

module _ (requests n : ℕ) (sum : ℕ → ℕ) (reader : ℕ → Local)
    (found : (req : ℕ) → req < requests → Found n (sum req) (reader req)) where
  publish-Count :
      (req b k : ℕ) (t : Counters)
      → req < requests
      → Count b k t
      → Count (b + n) (k + sum req) (publish (reader req) t)
  unfolding publish
  publish-Count req b k t lt d =
      let f = found req lt in
      rw (f.blocks, f.fail, f.total)
        (record {
          blocks_read = omega (arith, d.blocks_read);
          verify_fail = omega (arith, d.verify_fail);
          checksum = omega (arith, d.checksum);
        })

  publish_all-Count :
      (order : List ℕ) (b k : ℕ) (t : Counters)
      → AllBelow requests order
      → Count b k t
      → Count (b + length order * n) (k + sum_of sum order) (publish_all reader order t)
  unfolding publish_all sum_of
  publish_all-Count [] b k t lt d = record {
    blocks_read = omega (arith, d.blocks_read);
    verify_fail = d.verify_fail;
    checksum = omega (arith, d.checksum);
  }
  publish_all-Count (i ∷ is) b k t (lt, rest) d =
      let e =
        publish_all-Count is (b + n) (k + sum i) (publish (reader i) t) rest
          (publish-Count i b k t lt d) in
      record {
        blocks_read = omega (arith, e.blocks_read);
        verify_fail = e.verify_fail;
        checksum = omega (arith, e.checksum);
      }

  -- The counters when the readers of a list have published.
  pub publish_all-totals :
      (order : List ℕ)
      → AllBelow requests order
      → let t = publish_all reader order counters_zero in
        (t.blocks_read ≡ u64 (length order * n))
        × (t.verify_fail ≡ 0)
        × (t.checksum ≡ u64 (sum_of sum order))
  publish_all-totals order below =
      let d =
        publish_all-Count order 0 0 counters_zero below
          (record { blocks_read = refl; verify_fail = refl; checksum = refl }) in
      (omega (arith, d.blocks_read), d.verify_fail, omega (arith, d.checksum))

module _ (c : Cfg) (s : StoreSizes) (v : IsValid c) (z : IsSized c s) (m₀ : Memory) where
  -- What the reader of a request finds, with a scratch buffer of its own.
  abbrev reader : (scratch : ℕ → Memory) → ℕ → Local
  reader scratch req =
      read_request c s.chunks req (populate_chunk_stripe c s.chunks s.chunk_bytes m₀) (scratch req)

  reader-Found :
      (scratch : ℕ → Memory) (req : ℕ)
      → req < c.requests
      → Found c.req_per_blocks
          (checksum_of (u8 block_magic) req c.req_per_blocks)
          (reader scratch req)
  reader-Found scratch req lt =
      let (blocks, fail, sum) = read_request_lem c s v z m₀ req (scratch req) lt in
      record {
        blocks = blocks;
        fail = fail;
        total =
            omega (arith, sum, checksum_of-le (u8 block_magic) req c.req_per_blocks (omega arith));
      }

  -- When readers of the requests of a list have published, one after the other in the list's order,
  -- the sweep has read `req_per_blocks` blocks for each, has no verification fault, and its checksum
  -- is the sum of the readers' checksums (the two sums modulo 2^64).
  pub sweep_totals :
      (scratch : ℕ → Memory) (order : List ℕ)
      → AllBelow c.requests order
      → let t = publish_all (reader scratch) order counters_zero in
        (t.blocks_read ≡ u64 (length order * c.req_per_blocks))
        × (t.verify_fail ≡ 0)
        × (t.checksum
            ≡ u64 (sum_of (λ req. checksum_of (u8 block_magic) req c.req_per_blocks) order))
  sweep_totals scratch order below =
      publish_all-totals c.requests c.req_per_blocks
        (λ req. checksum_of (u8 block_magic) req c.req_per_blocks) (reader scratch)
        (reader-Found scratch) order below

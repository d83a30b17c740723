-- ===== src/Sweep/Tests.antt =====
-- The readers and the sweep loop of custom-test/test2-rdma-fin.c on a small store.
use mio_xcena.Block.{block_magic}
use mio_xcena.Base.{u8, ◌≡◌, refl, some, [], ◌∷◌, arith, u64, Memory}
use mio_xcena.Args.Tests.{small_cfg, small_cfg-IsValid}
use mio_xcena.Stripe.{populate_chunk_stripe}
use mio_xcena.Stripe.Tests.{small_sizes, small_sizes-IsSized, blank}
use mio_xcena.Sweep.{read_request, counters_zero, publish_all, active_counts}
use mio_xcena.Sweep.Readers.{read_request_lem}
use mio_xcena.Sweep.Count.{checksum_of}
use mio_xcena.Sweep.Schedule.{between, doublings, active_counts_lem}
use mio_xcena.Sweep.Totals.{sum_of, sweep_totals}

abbrev small_store : Memory
small_store = populate_chunk_stripe small_cfg 2 80 blank

request_2_read :
    let l = read_request small_cfg 2 2 small_store blank in
    (l.blocks ≡ 2) × (l.fail ≡ 0) × (l.sum ≡ checksum_of (u8 block_magic) 2 2)
request_2_read =
    read_request_lem small_cfg small_sizes small_cfg-IsValid small_sizes-IsSized blank 2 blank
      (omega arith)

sweep_totals_example :
    let t =
      publish_all
        (λ req. read_request small_cfg 2 req small_store blank)
        (2 ∷ 0 ∷ 1 ∷ [])
        counters_zero in
    (t.blocks_read ≡ 6)
    × (t.verify_fail ≡ 0)
    × (t.checksum ≡ u64 (sum_of (λ req. checksum_of (u8 block_magic) req 2) (2 ∷ 0 ∷ 1 ∷ [])))
sweep_totals_example =
    sweep_totals small_cfg small_sizes small_cfg-IsValid small_sizes-IsSized blank (λ _. blank)
      (2 ∷ 0 ∷ 1 ∷ []) (omega arith, (omega arith, (omega arith, tt)))

counts_from_2_to_12 : active_counts 32 2 12 1 ≡ some (between 2 12 (doublings 32 1))
counts_from_2_to_12 = active_counts_lem 32 2 12 (omega arith)

two_to_twelve : between 2 12 (doublings 32 1) ≡ 2 ∷ 4 ∷ 8 ∷ []
two_to_twelve = refl

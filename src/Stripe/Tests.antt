-- ===== src/Stripe/Tests.antt =====
-- A small store of custom-test/test2-rdma-fin.c: three requests of two blocks, in chunks of two.
use mio_xcena.Base.{◌≡◌, refl, true, some, arith, Memory}
use mio_xcena.Block.{verify_block}
use mio_xcena.Args.{checked_mul_u64}
use mio_xcena.Args.Tests.{small_cfg, small_cfg-IsValid}
use mio_xcena.Stripe.{StoreSizes, store_sizes, block_ptr, populate_chunk_stripe}
use mio_xcena.Stripe.Layout.{IsSized}
use mio_xcena.Stripe.Populate.{populate-verify_block}

abbrev pub small_sizes : StoreSizes
small_sizes = record { chunks = 2; chunk_bytes = 80; store_bytes = 320 }

pub small_accepted : store_sizes small_cfg ≡ some small_sizes
unfolding store_sizes checked_mul_u64
small_accepted = refl

pub small_sizes-IsSized : IsSized small_cfg small_sizes
small_sizes-IsSized = omega arith

abbrev pub blank : Memory
blank a = 0

populate-verify_block_example :
    let store = populate_chunk_stripe small_cfg 2 80 blank in
    verify_block store (block_ptr small_cfg 2 2 1) 40 2 1 ≡ true
populate-verify_block_example =
    populate-verify_block small_cfg small_sizes small_cfg-IsValid small_sizes-IsSized blank 2 1
      (omega arith) (omega arith)

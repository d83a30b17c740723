-- ===== src/Block/Tests.antt =====
-- A stamped block of custom-test/test2-rdma-fin.c.
use mio_xcena.Base.{ℕ, ◌≡◌, ◌↔◌, true, arith, Memory}
use mio_xcena.Block.{fill_block, verify_block}
use mio_xcena.Block.Stamp.{verify_block-fill_block}

abbrev blank : Memory
blank a = 0

abbrev three : ℕ
three = 3

abbrev one : ℕ
one = 1

verify_block-fill_block_example :
    (verify_block (fill_block blank 80 40 three one) 80 40 three one ≡ true)
    ↔ ((three ≡ three) × (one ≡ one))
verify_block-fill_block_example =
    verify_block-fill_block blank 80 40 three one three one (omega arith) (omega arith)
      (omega arith) (omega arith)

-- ===== src/Turns/Tests.antt =====
-- A small run of custom-test/test3-mt.c: three requests, two turns of two blocks of 48 bytes.
use mio_xcena.Base.{u8, ◌≡◌, refl, true, some, List, [], ◌∷◌, arith, u64, Memory}
use mio_xcena.Args.{checked_mul_u64, parse_u32_arg, parse_size, parse_suffix, scale}
use mio_xcena.Args.Tests.{decimal}
use mio_xcena.Sweep.Count.{checksum_of}
use mio_xcena.Sweep.Totals.{sum_of}
use mio_xcena.Turns.{block_magic, Cfg, StoreSizes, store_sizes, read_cumulative, after_turns}
use mio_xcena.Turns.Sizes.{IsValid, IsSized}
use mio_xcena.Turns.Read.{read_cumulative_lem}
use mio_xcena.Turns.Options.{
  Opt, requests, req_per_blocks, block_bytes, rounds, ok, parse_args, parse_opts, parse_opt,
  finish_args,
}

abbrev turns_options : List Opt
turns_options =
    requests (b'3' ∷ [])
    ∷ req_per_blocks (b'2' ∷ [])
    ∷ block_bytes (b'4' ∷ b'8' ∷ [])
    ∷ rounds (b'2' ∷ [])
    ∷ []

abbrev turns_cfg : Cfg
turns_cfg = record {
  requests = 3;
  req_per_blocks = 2;
  block_bytes = 48;
  rounds = 2;
  verify = true;
  copy_to_dst = true;
  csv_path = [];
}

parsed : parse_args decimal turns_options ≡ ok turns_cfg
unfolding parse_args parse_opts parse_opt parse_u32_arg parse_size parse_suffix scale finish_args
parsed = refl

turns_cfg-IsValid : IsValid turns_cfg
turns_cfg-IsValid = omega arith

abbrev turns_sizes : StoreSizes
turns_sizes = record { chunk_bytes = 144; store_bytes = 576 }

sizes_accepted : store_sizes turns_cfg ≡ some turns_sizes
unfolding store_sizes checked_mul_u64
sizes_accepted = refl

turns_cfg-IsSized : IsSized turns_cfg turns_sizes
turns_cfg-IsSized = omega arith

abbrev zeros : Memory
zeros a = 0

read_cumulative_lem_example :
    let t =
      read_cumulative turns_cfg 144 2
        (1 ∷ 0 ∷ 2 ∷ [])
        (after_turns turns_cfg 144 2 zeros)
        (λ _. zeros) in
    (t.blocks_read ≡ 12)
    × (t.verify_fail ≡ 0)
    × (t.checksum ≡ u64 (sum_of (λ req. checksum_of (u8 block_magic) req 4) (1 ∷ 0 ∷ 2 ∷ [])))
read_cumulative_lem_example =
    read_cumulative_lem turns_cfg turns_sizes turns_cfg-IsValid turns_cfg-IsSized 2 (1 ∷ 0 ∷ 2 ∷ [])
      zeros (λ _. zeros) (omega arith) (omega arith, (omega arith, (omega arith, tt)))

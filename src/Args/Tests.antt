-- ===== src/Args/Tests.antt =====
-- The command line of custom-test/test2-rdma-fin.c on concrete inputs.
use mio_xcena.Base.{
  ℕ, ◌+◌, ◌-◌, ◌*◌, ◌<◌, ◌^◌, ◌≡◌, refl, true, false, ◌&&◌, leb, if◌then◌else◌, some, List, [], ◌∷◌,
  u64, arith,
}
use mio_xcena.Args.{
  Cfg, Opt, Converted, Strtoull, parse_size, parse_u32_arg, parse_suffix, scale, parse_opt,
  finish_args, parse_opts, parse_args, ok, bad, requests, req_per_blocks, chunk_slots, block_bytes,
  no_verify,
}
use mio_xcena.Args.Sizes.{ReturnsU64, unit_of, in_unit, parse_size_lem}
use mio_xcena.Args.Valid.{IsValid, parse_args-IsValid}

-- Decimal digits from the front of a text, modulo 2^64.
abbrev digits : (value used : ℕ) → List ℕ → Converted
digits value used [] = record { failed = false; value = u64 value; used = used }
digits value used (c ∷ cs) =
    let rest = digits (value * 10 + (c - b'0')) (used + 1) cs in
    if leb b'0' c && leb c b'9'
    then rest
    else record { failed = false; value = u64 value; used = used }

abbrev pub decimal : Strtoull
decimal = digits 0 0

digits-u64 : (value used : ℕ) (s : List ℕ) → (digits value used s).value < 2 ^ 64
digits-u64 value used [] = omega arith
digits-u64 value used (c ∷ cs) = ground (arith, digits-u64 (value * 10 + (c - b'0')) (used + 1) cs)

pub decimal-ReturnsU64 : ReturnsU64 decimal
decimal-ReturnsU64 s = digits-u64 0 0 s

-- 4k
abbrev four_k : List ℕ
four_k = b'4' ∷ b'k' ∷ []

parse_size_lem_example : parse_size decimal four_k ≡ in_unit 4 (unit_of (b'k' ∷ []))
parse_size_lem_example = parse_size_lem decimal decimal-ReturnsU64 four_k

parse_four_k : parse_u32_arg decimal four_k ≡ some 4096
unfolding parse_u32_arg parse_size parse_suffix scale
parse_four_k = refl

-- -r 3 -b 2 -c 2 --block-bytes 40 --no-verify
abbrev pub options : List Opt
options =
    requests (b'3' ∷ [])
    ∷ req_per_blocks (b'2' ∷ [])
    ∷ chunk_slots (b'2' ∷ [])
    ∷ block_bytes (b'4' ∷ b'0' ∷ [])
    ∷ no_verify
    ∷ []

-- Three requests of two blocks each, in chunks of two blocks of 40 bytes.
abbrev pub small_cfg : Cfg
small_cfg = record {
  requests = 3;
  req_per_blocks = 2;
  chunk_slots = 2;
  block_bytes = 40;
  rounds = 1;
  sweep_min = 1;
  sweep_max = 3;
  verify = false;
  copy_to_dst = true;
  csv_path = [];
}

pub options-small : parse_args decimal options ≡ ok small_cfg
unfolding parse_args parse_opts parse_opt parse_u32_arg parse_size parse_suffix scale finish_args
options-small = refl

parse_args-IsValid_example : IsValid small_cfg
parse_args-IsValid_example = parse_args-IsValid decimal options small_cfg options-small

pub small_cfg-IsValid : IsValid small_cfg
small_cfg-IsValid = omega arith

-- A block that cannot hold the tag is refused.
too_small : parse_args decimal (block_bytes (b'3' ∷ b'2' ∷ []) ∷ []) ≡ bad
unfolding parse_args parse_opts parse_opt parse_u32_arg parse_size parse_suffix scale finish_args
too_small = refl

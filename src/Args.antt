-- ===== src/Args.antt =====
-- custom-test/test2-rdma-fin.c, `struct cfg`, `parse_size`, `parse_u32_arg`, `parse_args` and
-- `checked_mul_u64`: the command line of the chunk-stripe sweep.
--
-- A text is the list of its bytes without the final NUL. `strtoull` is a parameter, and the options
-- that `getopt_long` recognises come as a list. Messages on stderr are left out.
pub mod Sizes
pub mod Valid
pub mod Tests
use mio_xcena.Base.{
  ℕ, zero, suc, ◌+◌, ◌*◌, ◌/◌, ◌<◌, ◌^◌, Bool, true, false, ◌&&◌, ◌||◌, not, ◌==◌, ltb,
  if◌then◌else◌, Option, none, some, List, [], ◌∷◌, u32, u64, uint32_max, uint64_max, take, drop,
}
use mio_xcena.Block.{sizeof_block_tag}

pub record Cfg : Type 0 where
  pub requests : ℕ
  pub req_per_blocks : ℕ
  pub chunk_slots : ℕ
  pub block_bytes : ℕ
  pub rounds : ℕ
  pub sweep_min : ℕ
  pub sweep_max : ℕ
  pub verify : Bool
  pub copy_to_dst : Bool
  pub csv_path : List ℕ

-- What `strtoull(s, &end, 10)` gives: whether `errno` is set, the value, and `end - s`.
pub record Converted : Type 0 where
  pub failed : Bool
  pub value : ℕ
  pub used : ℕ

abbrev pub Strtoull : Type 0
Strtoull = List ℕ → Converted

-- `v > UINT64_MAX / mul`, and the product.
unfoldable pub scale : (v mul : ℕ) → Option ℕ
scale v mul = if ltb (uint64_max / mul) v then none else some (u64 (v * mul))

abbrev pub kib : ℕ
kib = 1024

-- What stands behind the digits: nothing, or one of the letters k, m, g.
unfoldable pub parse_suffix : ℕ → List ℕ → Option ℕ
unfolding scale
parse_suffix v [] = some v
parse_suffix v (c ∷ []) =
    if c == b'k' || c == b'K'
    then scale v kib
    else if c == b'm' || c == b'M'
    then scale v (kib * kib)
    else if c == b'g' || c == b'G'
    then scale v (kib * kib * kib)
    else none
parse_suffix v (c ∷ d ∷ cs) = none

-- The options of the table `opts`, with `optarg`; `other` is any other answer of `getopt_long`.
pub data Opt : Type 0 where
  requests req_per_blocks blocks req_blocks chunk_slots block_mb block_bytes : List ℕ → Opt
  rounds sweep_min sweep_max csv : List ℕ → Opt
  no_verify no_copy help other : Opt

-- The return value 0 with the configuration, the return value -1, and `exit(0)`.
pub data Parsed : Type 0 where
  ok : Cfg → Parsed
  bad : Parsed
  exits : Parsed

abbrev pub and_then : Parsed → (Cfg → Parsed) → Parsed
and_then (ok c) k = k c
and_then bad k = bad
and_then exits k = exits

abbrev pub store_arg : Option ℕ → (ℕ → Cfg) → Parsed
store_arg none set = bad
store_arg (some v) set = ok (set v)

abbrev pub default_cfg : Cfg
default_cfg = record {
  requests = 32;
  req_per_blocks = 64;
  chunk_slots = 32;
  block_bytes = 16 * 1024 * 1024;
  rounds = 1;
  sweep_min = 1;
  sweep_max = 0;
  verify = true;
  copy_to_dst = true;
  csv_path = [];
}

-- The checks after the loop over the options.
unfoldable pub finish_args : Cfg → Parsed
finish_args c =
    let hi = if c.sweep_max == 0 then c.requests else c.sweep_max in
    let lo = if c.sweep_min == 0 then 1 else c.sweep_min in
    if ltb hi lo || ltb c.requests hi
    then bad
    else if ltb c.block_bytes (sizeof_block_tag + 1)
    then bad
    else ok (record c { sweep_min = lo; sweep_max = hi })

module _ (strtoull : Strtoull) where
  unfoldable pub parse_size : List ℕ → Option ℕ
  unfolding parse_suffix
  parse_size s =
      let c = strtoull s in
      if c.failed || c.used == 0 then none else parse_suffix c.value (drop c.used s)

  abbrev pub check_u32 : Option ℕ → Option ℕ
  check_u32 none = none
  check_u32 (some v) = if v == 0 || ltb uint32_max v then none else some (u32 v)

  unfoldable pub parse_u32_arg : List ℕ → Option ℕ
  parse_u32_arg s = check_u32 (parse_size s)

  abbrev pub check_mb : Option ℕ → Option ℕ
  check_mb none = none
  check_mb (some mb) =
      if ltb (uint32_max / (1024 * 1024)) mb then none else some (u32 (mb * 1024 * 1024))

  -- One round of the loop over the options.
  unfoldable pub parse_opt : Opt → Cfg → Parsed
  parse_opt (requests s) c = store_arg (parse_u32_arg s) (λ v. record c { requests = v })
  parse_opt (req_per_blocks s) c =
      store_arg (parse_u32_arg s) (λ v. record c { req_per_blocks = v })
  parse_opt (blocks s) c = store_arg (parse_u32_arg s) (λ v. record c { req_per_blocks = v })
  parse_opt (req_blocks s) c = store_arg (parse_u32_arg s) (λ v. record c { req_per_blocks = v })
  parse_opt (chunk_slots s) c = store_arg (parse_u32_arg s) (λ v. record c { chunk_slots = v })
  parse_opt (block_mb s) c =
      store_arg (check_mb (parse_u32_arg s)) (λ v. record c { block_bytes = v })
  parse_opt (block_bytes s) c = store_arg (parse_u32_arg s) (λ v. record c { block_bytes = v })
  parse_opt (rounds s) c = store_arg (parse_u32_arg s) (λ v. record c { rounds = v })
  parse_opt (sweep_min s) c = store_arg (parse_u32_arg s) (λ v. record c { sweep_min = v })
  parse_opt (sweep_max s) c = store_arg (parse_u32_arg s) (λ v. record c { sweep_max = v })
  parse_opt (csv s) c = ok (record c { csv_path = take 255 s })
  parse_opt no_verify c = ok (record c { verify = false })
  parse_opt no_copy c = ok (record c { copy_to_dst = false })
  parse_opt help c = exits
  parse_opt other c = bad

  unfoldable pub parse_opts : List Opt → Cfg → Parsed
  parse_opts [] c = ok c
  parse_opts (o ∷ os) c = and_then (parse_opt o c) (parse_opts os)

  unfoldable pub parse_args : List Opt → Parsed
  parse_args os = and_then (parse_opts os default_cfg) finish_args

-- `false` is `none`; the product otherwise.
unfoldable pub checked_mul_u64 : ℕ → ℕ → Option ℕ
checked_mul_u64 a b = if not (a == 0) && ltb (uint64_max / a) b then none else some (u64 (a * b))

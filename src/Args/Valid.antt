-- ===== src/Args/Valid.antt =====
-- What `parse_args` (custom-test/test2-rdma-fin.c) promises of the configuration that it returns.
use mathlib.Core.Path.{subst}
use mio_xcena.Base.{
  ℕ, ◌<◌, ◌≤◌, ◌^◌, ◌≡◌, refl, Option, none, some, List, [], ◌∷◌, arith, length, length-take,
}
use mio_xcena.Block.{sizeof_block_tag}
use mio_xcena.Args.{
  Cfg, Strtoull, Opt, Parsed, ok, bad, exits, requests, req_per_blocks, blocks, req_blocks,
  chunk_slots, block_mb, block_bytes, rounds, sweep_min, sweep_max, csv, no_verify, no_copy, help,
  other, store_arg, and_then, default_cfg, finish_args, parse_u32_arg, check_mb, parse_opt,
  parse_opts, parse_args,
}

abbrev pub IsCount : ℕ → Type 0
IsCount v = (1 ≤ v) × (v < 2 ^ 32)

-- The part that holds while the options are read. `sweep_max` may still be 0.
pub record InRange (c : Cfg) : Type 0 where
  pub requests : IsCount c.requests
  pub req_per_blocks : IsCount c.req_per_blocks
  pub chunk_slots : IsCount c.chunk_slots
  pub block_bytes : IsCount c.block_bytes
  pub rounds : IsCount c.rounds
  pub sweep_min : IsCount c.sweep_min
  pub csv_path : length c.csv_path ≤ 255

-- A configuration that `main` goes on with.
pub record IsValid (c : Cfg) : Type 0 where
  pub in_range : InRange c
  pub sweep_le : c.sweep_min ≤ c.sweep_max
  pub sweep_max_le : c.sweep_max ≤ c.requests
  pub tag_fits : sizeof_block_tag < c.block_bytes

abbrev pub Ensures : (Cfg → Type 0) → Parsed → Type 0
Ensures P (ok c) = P c
Ensures P bad = Unit {0}
Ensures P exits = Unit {0}

default_cfg-InRange : InRange default_cfg
default_cfg-InRange = omega arith

and_then-Ensures :
    (P Q : Cfg → Type 0) (r : Parsed) (k : Cfg → Parsed)
    → Ensures P r
    → ((c : Cfg) → P c → Ensures Q (k c))
    → Ensures Q (and_then r k)
and_then-Ensures P Q (ok c) k h next = next c h
and_then-Ensures P Q bad k h next = tt
and_then-Ensures P Q exits k h next = tt

finish_args-Parsed : (c : Cfg) → InRange c → (d : Cfg) → finish_args c ≡ ok d → IsValid d
unfolding finish_args
finish_args-Parsed c h d e = ground arith

Ensures-intro : (P : Cfg → Type 0) (r : Parsed) → ((d : Cfg) → r ≡ ok d → P d) → Ensures P r
Ensures-intro P (ok d) h = h d refl
Ensures-intro P bad h = tt
Ensures-intro P exits h = tt

finish_args-IsValid : (c : Cfg) → InRange c → Ensures IsValid (finish_args c)
finish_args-IsValid c h = Ensures-intro IsValid (finish_args c) (finish_args-Parsed c h)

module _ (strtoull : Strtoull) where
  pub arg-IsCount : (s : List ℕ) (v : ℕ) → parse_u32_arg strtoull s ≡ some v → IsCount v
  unfolding parse_u32_arg
  arg-IsCount s v e = ground arith

  check_mb-IsCount :
      (o : Option ℕ) (v : ℕ)
      → ((mb : ℕ) → o ≡ some mb → IsCount mb)
      → check_mb strtoull o ≡ some v
      → IsCount v
  check_mb-IsCount none v mbs e = cc
  check_mb-IsCount (some mb) v mbs e = ground (arith, mbs mb refl)

  pub mb-IsCount :
      (s : List ℕ) (v : ℕ) → check_mb strtoull (parse_u32_arg strtoull s) ≡ some v → IsCount v
  mb-IsCount s v e = check_mb-IsCount (parse_u32_arg strtoull s) v (arg-IsCount s) e

  store_arg-Ensures :
      (r : Option ℕ) (set : ℕ → Cfg)
      → ((v : ℕ) → r ≡ some v → InRange (set v))
      → Ensures InRange (store_arg r set)
  store_arg-Ensures none set h = tt
  store_arg-Ensures (some v) set h = h v refl

  parse_opt-InRange : (o : Opt) (c : Cfg) → InRange c → Ensures InRange (parse_opt strtoull o c)
  unfolding parse_opt
  parse_opt-InRange (csv s) c h = omega (arith, length-take 255 s)
  parse_opt-InRange no_verify c h = omega arith
  parse_opt-InRange no_copy c h = omega arith
  parse_opt-InRange help c h = tt
  parse_opt-InRange other c h = tt
  parse_opt-InRange (block_mb s) c h =
      store_arg-Ensures (check_mb strtoull (parse_u32_arg strtoull s)) _
        (λ v e. omega (arith, mb-IsCount s v e))
  parse_opt-InRange (requests s) c h =
      store_arg-Ensures (parse_u32_arg strtoull s) _ (λ v e. omega (arith, arg-IsCount s v e))
  parse_opt-InRange (req_per_blocks s) c h =
      store_arg-Ensures (parse_u32_arg strtoull s) _ (λ v e. omega (arith, arg-IsCount s v e))
  parse_opt-InRange (blocks s) c h =
      store_arg-Ensures (parse_u32_arg strtoull s) _ (λ v e. omega (arith, arg-IsCount s v e))
  parse_opt-InRange (req_blocks s) c h =
      store_arg-Ensures (parse_u32_arg strtoull s) _ (λ v e. omega (arith, arg-IsCount s v e))
  parse_opt-InRange (chunk_slots s) c h =
      store_arg-Ensures (parse_u32_arg strtoull s) _ (λ v e. omega (arith, arg-IsCount s v e))
  parse_opt-InRange (block_bytes s) c h =
      store_arg-Ensures (parse_u32_arg strtoull s) _ (λ v e. omega (arith, arg-IsCount s v e))
  parse_opt-InRange (rounds s) c h =
      store_arg-Ensures (parse_u32_arg strtoull s) _ (λ v e. omega (arith, arg-IsCount s v e))
  parse_opt-InRange (sweep_min s) c h =
      store_arg-Ensures (parse_u32_arg strtoull s) _ (λ v e. omega (arith, arg-IsCount s v e))
  parse_opt-InRange (sweep_max s) c h =
      store_arg-Ensures (parse_u32_arg strtoull s) _ (λ v e. omega (arith, arg-IsCount s v e))

  parse_opts-InRange :
      (os : List Opt) (c : Cfg) → InRange c → Ensures InRange (parse_opts strtoull os c)
  unfolding parse_opts
  parse_opts-InRange [] c h = h
  parse_opts-InRange (o ∷ os) c h =
      and_then-Ensures InRange InRange (parse_opt strtoull o c) (parse_opts strtoull os)
        (parse_opt-InRange o c h) (parse_opts-InRange os)

  -- Whatever the options, a configuration that `parse_args` returns is valid.
  pub parse_args-IsValid : (os : List Opt) (c : Cfg) → parse_args strtoull os ≡ ok c → IsValid c
  unfolding parse_args
  parse_args-IsValid os c e = subst (Ensures IsValid) e (
      and_then-Ensures InRange IsValid (parse_opts strtoull os default_cfg) finish_args
        (parse_opts-InRange os default_cfg default_cfg-InRange) finish_args-IsValid)

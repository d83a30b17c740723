-- ===== src/Turns/Options.antt =====
-- The command line of custom-test/test3-mt.c, `parse_args`: a configuration that it returns is valid.
use mathlib.Core.Path.{subst}
use mio_xcena.Base.{
  ℕ, ◌+◌, ◌*◌, ◌≡◌, refl, true, false, ltb, Option, none, some, List, [], ◌∷◌, take, arith,
  if◌then◌else◌,
}
use mio_xcena.Args.{Strtoull, parse_u32_arg, check_mb}
use mio_xcena.Args.Valid.{IsCount, arg-IsCount, mb-IsCount}
use mio_xcena.Turns.{Cfg, sizeof_block_tag}
use mio_xcena.Turns.Sizes.{IsValid}

-- The options of the table `opts`, with `optarg`; `other` is any other answer of `getopt_long`.
pub data Opt : Type 0 where
  requests req_per_blocks blocks block_mb block_bytes rounds csv : List ℕ → Opt
  no_verify no_copy help other : Opt

-- The return value 0 with the configuration, the return value -1, and `exit(0)`.
pub data Parsed : Type 0 where
  ok : Cfg → Parsed
  bad : Parsed
  exits : Parsed

abbrev pub and_then : Parsed → (Cfg → Parsed) → Parsed
and_then (ok c) k = k c
and_then bad k = bad
and_then exits k = exits

abbrev pub store_arg : Option ℕ → (ℕ → Cfg) → Parsed
store_arg none set = bad
store_arg (some v) set = ok (set v)

abbrev pub default_cfg : Cfg
default_cfg = record {
  requests = 32;
  req_per_blocks = 64;
  block_bytes = 16 * 1024 * 1024;
  rounds = 1;
  verify = true;
  copy_to_dst = true;
  csv_path = [];
}

-- The check after the loop over the options.
unfoldable pub finish_args : Cfg → Parsed
finish_args c = if ltb c.block_bytes (sizeof_block_tag + 1) then bad else ok c

module _ (strtoull : Strtoull) where
  -- One round of the loop over the options.
  unfoldable pub parse_opt : Opt → Cfg → Parsed
  parse_opt (requests s) c = store_arg (parse_u32_arg strtoull s) (λ v. record c { requests = v })
  parse_opt (req_per_blocks s) c =
      store_arg (parse_u32_arg strtoull s) (λ v. record c { req_per_blocks = v })
  parse_opt (blocks s) c =
      store_arg (parse_u32_arg strtoull s) (λ v. record c { req_per_blocks = v })
  parse_opt (block_mb s) c =
      store_arg (check_mb strtoull (parse_u32_arg strtoull s)) (λ v. record c { block_bytes = v })
  parse_opt (block_bytes s) c =
      store_arg (parse_u32_arg strtoull s) (λ v. record c { block_bytes = v })
  parse_opt (rounds s) c = store_arg (parse_u32_arg strtoull s) (λ v. record c { rounds = v })
  parse_opt (csv s) c = ok (record c { csv_path = take 255 s })
  parse_opt no_verify c = ok (record c { verify = false })
  parse_opt no_copy c = ok (record c { copy_to_dst = false })
  parse_opt help c = exits
  parse_opt other c = bad

  unfoldable pub parse_opts : List Opt → Cfg → Parsed
  parse_opts [] c = ok c
  parse_opts (o ∷ os) c = and_then (parse_opt o c) (parse_opts os)

  unfoldable pub parse_args : List Opt → Parsed
  parse_args os = and_then (parse_opts os default_cfg) finish_args

-- What holds while the options are read.
record InRange (c : Cfg) : Type 0 where
  requests : IsCount c.requests
  req_per_blocks : IsCount c.req_per_blocks
  block_bytes : IsCount c.block_bytes
  rounds : IsCount c.rounds

abbrev Ensures : (Cfg → Type 0) → Parsed → Type 0
Ensures P (ok c) = P c
Ensures P bad = Unit {0}
Ensures P exits = Unit {0}

and_then-Ensures :
    (P Q : Cfg → Type 0) (r : Parsed) (k : Cfg → Parsed)
    → Ensures P r
    → ((c : Cfg) → P c → Ensures Q (k c))
    → Ensures Q (and_then r k)
and_then-Ensures P Q (ok c) k h next = next c h
and_then-Ensures P Q bad k h next = tt
and_then-Ensures P Q exits k h next = tt

Ensures-intro : (P : Cfg → Type 0) (r : Parsed) → ((d : Cfg) → r ≡ ok d → P d) → Ensures P r
Ensures-intro P (ok d) h = h d refl
Ensures-intro P bad h = tt
Ensures-intro P exits h = tt

finish_args-Parsed : (c : Cfg) → InRange c → (d : Cfg) → finish_args c ≡ ok d → IsValid d
unfolding finish_args
finish_args-Parsed c h d e = ground arith

store_arg-Ensures :
    (r : Option ℕ) (set : ℕ → Cfg)
    → ((v : ℕ) → r ≡ some v → InRange (set v))
    → Ensures InRange (store_arg r set)
store_arg-Ensures none set h = tt
store_arg-Ensures (some v) set h = h v refl

module _ (strtoull : Strtoull) where
  parse_opt-InRange : (o : Opt) (c : Cfg) → InRange c → Ensures InRange (parse_opt strtoull o c)
  unfolding parse_opt
  parse_opt-InRange (csv s) c h = omega arith
  parse_opt-InRange no_verify c h = omega arith
  parse_opt-InRange no_copy c h = omega arith
  parse_opt-InRange help c h = tt
  parse_opt-InRange other c h = tt
  parse_opt-InRange (block_mb s) c h =
      store_arg-Ensures (check_mb strtoull (parse_u32_arg strtoull s)) _
        (λ v e. omega (arith, mb-IsCount strtoull s v e))
  parse_opt-InRange (requests s) c h =
      store_arg-Ensures (parse_u32_arg strtoull s) _
        (λ v e. omega (arith, arg-IsCount strtoull s v e))
  parse_opt-InRange (req_per_blocks s) c h =
      store_arg-Ensures (parse_u32_arg strtoull s) _
        (λ v e. omega (arith, arg-IsCount strtoull s v e))
  parse_opt-InRange (blocks s) c h =
      store_arg-Ensures (parse_u32_arg strtoull s) _
        (λ v e. omega (arith, arg-IsCount strtoull s v e))
  parse_opt-InRange (block_bytes s) c h =
      store_arg-Ensures (parse_u32_arg strtoull s) _
        (λ v e. omega (arith, arg-IsCount strtoull s v e))
  parse_opt-InRange (rounds s) c h =
      store_arg-Ensures (parse_u32_arg strtoull s) _
        (λ v e. omega (arith, arg-IsCount strtoull s v e))

  parse_opts-InRange :
      (os : List Opt) (c : Cfg) → InRange c → Ensures InRange (parse_opts strtoull os c)
  unfolding parse_opts
  parse_opts-InRange [] c h = h
  parse_opts-InRange (o ∷ os) c h =
      and_then-Ensures InRange InRange (parse_opt strtoull o c) (parse_opts strtoull os)
        (parse_opt-InRange o c h) (parse_opts-InRange os)

  -- Whatever the options, a configuration that `parse_args` of test3-mt.c returns has all counts between
  -- 1 and 2^32 - 1 and blocks larger than the tag.
  pub turns_args-IsValid : (os : List Opt) (c : Cfg) → parse_args strtoull os ≡ ok c → IsValid c
  unfolding parse_args
  turns_args-IsValid os c e = subst (Ensures IsValid) e (
      and_then-Ensures InRange IsValid (parse_opts strtoull os default_cfg) finish_args
        (parse_opts-InRange os default_cfg (omega arith))
        (λ d h. Ensures-intro IsValid (finish_args d) (finish_args-Parsed d h)))

-- ===== src/Driver/Sized.antt =====
-- What `main` (src/main.cpp) goes on with, from its arguments to its checks.
use mio_xcena.Base.{
  ℕ, ◌≤◌, ◌≡◌, ◌==◌, if◌then◌else◌, if_both, is_text, to_size, eq_or_ne, ==_ne, inl, inr, arith,
  Option, none, some, List, [], ◌∷◌,
}
use mathlib.Core.Path.{subst}
use mio_xcena.Driver.{
  Cfg, Libc, Flag, Turn, Parsed, ok, stop, one, two, returns, memory_per_thread, threads,
  result_dir, devdax, membind, prefetch, cpu_affinity, inject_delay, hugepage, offset, help,
  unknown, parse_arg, parse_args, flag_of, with_value, default_cfg,
}
use mio_xcena.Driver.Launch.{Plan, System, check_options}
use mio_xcena.Driver.Ready.{IsReady, check_options-IsReady}

module _ {Double : Type 0} where
  -- The sizes that the tests divide by and count up with.
  abbrev Sized : Cfg Double → Type 0
  Sized c = (1 ≤ c.block_size) × (1 ≤ c.stride_size)

  abbrev SizedTurn : Turn Double → Type 0
  SizedTurn (one d) = Sized d
  SizedTurn (two d) = Sized d
  SizedTurn (returns n) = Unit {0}

  abbrev SizedResult : Parsed Double → Type 0
  SizedResult (ok d) = Sized d
  SizedResult (stop n) = Unit {0}

  with_value-Sized :
      (next : Option (List ℕ)) (set : List ℕ → Turn Double)
      → ((v : List ℕ) → SizedTurn (set v))
      → SizedTurn (with_value next set)
  with_value-Sized none set h = tt
  with_value-Sized (some v) set h = h v

  nonzero :
      (n : ℕ) (a b : Turn Double)
      → SizedTurn a
      → (1 ≤ n → SizedTurn b)
      → SizedTurn (if n == 0 then a else b)
  nonzero n a b ha hb = elim (eq_or_ne n 0) [
    | inl same ↦ rw same ha
    | inr other ↦ rw (==_ne n 0 other) (hb (omega arith))
  ]

module _ {Double : Type 0} (libc : Libc Double) where
  parse_arg-Sized :
      (f : Flag) (next : Option (List ℕ)) (c : Cfg Double)
      → Sized c
      → SizedTurn (parse_arg libc f next c)
  unfolding parse_arg
  parse_arg-Sized memory_per_thread next c h = with_value-Sized next _ (λ v. h)
  parse_arg-Sized Flag.mode next c h = with_value-Sized next _ (λ v. h)
  parse_arg-Sized threads next c h = with_value-Sized next _ (λ v. h)
  parse_arg-Sized result_dir next c h = with_value-Sized next _ (λ v. h)
  parse_arg-Sized devdax next c h = with_value-Sized next _ (λ v. h)
  parse_arg-Sized membind next c h = with_value-Sized next _ (λ v. h)
  parse_arg-Sized cpu_affinity next c h = with_value-Sized next _ (λ v. h)
  parse_arg-Sized inject_delay next c h = with_value-Sized next _ (λ v. h)
  parse_arg-Sized offset next c h = with_value-Sized next _ (λ v. h)
  parse_arg-Sized prefetch next c h =
      with_value-Sized next _ (λ v.
        if_both SizedTurn (is_text v "ON") _ _ h (if_both SizedTurn (is_text v "OFF") _ _ h tt))
  parse_arg-Sized Flag.block_size next c h =
      with_value-Sized next _ (λ v. nonzero (to_size (libc.atoi v)) _ _ tt (λ some. (some, h.1)))
  parse_arg-Sized Flag.stride_size next c h =
      with_value-Sized next _ (λ v. nonzero (to_size (libc.atoi v)) _ _ tt (λ some. (h.0, some)))
  parse_arg-Sized Flag.bypass_cache next c h = h
  parse_arg-Sized hugepage next c h = h
  parse_arg-Sized Flag.zipfian_alpha next c h =
      with_value-Sized next _ (λ v. if_both SizedTurn (libc.le_zero (libc.atof v)) _ _ tt h)
  parse_arg-Sized help next c h = tt
  parse_arg-Sized unknown next c h = tt

  last-Sized :
      (t : Turn Double)
      → SizedTurn t
      → SizedResult (elim t [ one d ↦ ok d | two d ↦ ok d | returns n ↦ stop n ])
  last-Sized (one d) h = h
  last-Sized (two d) h = h
  last-Sized (returns n) h = tt

  next-Sized :
      (t : Turn Double) (after_one after_two : Cfg Double → Parsed Double)
      → SizedTurn t
      → ((d : Cfg Double) → Sized d → SizedResult (after_one d))
      → ((d : Cfg Double) → Sized d → SizedResult (after_two d))
      → SizedResult (elim t [ one d ↦ after_one d | two d ↦ after_two d | returns n ↦ stop n ])
  next-Sized (one d) a b h k l = k d h
  next-Sized (two d) a b h k l = l d h
  next-Sized (returns n) a b h k l = tt

  parse_args-Sized :
      (args : List (List ℕ)) (c : Cfg Double) → Sized c → SizedResult (parse_args libc args c)
  unfolding parse_args
  parse_args-Sized [] c h = h
  parse_args-Sized (a ∷ []) c h =
      last-Sized (parse_arg libc (flag_of a) none c) (parse_arg-Sized (flag_of a) none c h)
  parse_args-Sized (a ∷ (v ∷ rest)) c h =
      next-Sized (parse_arg libc (flag_of a) (some v) c) (parse_args libc (v ∷ rest))
        (parse_args libc rest) (parse_arg-Sized (flag_of a) (some v) c h)
        (parse_args-Sized (v ∷ rest)) (parse_args-Sized rest)

  -- With arguments that `main` accepts, and that its checks accept too, the block and the stride size
  -- are at least 1, one place is named for the memory, a device or a node, there are at least one thread,
  -- one MiB for each thread and one test, and if `--cpu-affinity` is given at least one CPU.
  pub parse_args-IsReady :
      (args : List (List ℕ)) (c : Cfg Double)
      → parse_args libc args (default_cfg libc) ≡ ok c
      → {Register : Type 0} (s : System Register) (p : Plan) → check_options s c ≡ some p
      → (1 ≤ c.block_size) × (1 ≤ c.stride_size) × IsReady c p
  parse_args-IsReady args c parsed s p checked =
      let sizes =
        subst SizedResult parsed
          (parse_args-Sized args (default_cfg libc) (omega arith, omega arith)) in
      (sizes.0, sizes.1, check_options-IsReady s c p checked)

-- ===== src/Driver.antt =====
-- src/main.cpp of the bandwidth benchmark, `main`: the loop over its arguments.
--
-- An argument is the list of its bytes. What the C library makes of a number is a parameter, as is the
-- type of a `double`. Messages and the usage text are left out.
pub mod Modes
pub mod Selected
pub mod Lines
pub mod Prefetch
pub mod Launch
pub mod Released
pub mod Ready
pub mod Sized
pub mod Tests
use mio_xcena.Base.{
  ℕ, ℤ, pos, negsuc, to_size, Bool, true, false, ◌==◌, if◌then◌else◌, Option, none, some, List, [],
  ◌∷◌, is_text, bytes_of,
}

-- The C library's readings of a number, and of `double` the test `d <= 0` and the literal 0.99.
pub record Libc (Double : Type 0) : Type 0 where
  pub atoi : List ℕ → ℤ
  pub atoll : List ℕ → ℤ
  pub strtoull : List ℕ → ℕ
  pub atof : List ℕ → Double
  pub le_zero : Double → Bool
  pub default_alpha : Double

-- The variables that the options set; `none` is the null pointer, and the empty `prefetch_option`.
pub record Cfg (Double : Type 0) : Type 0 where
  pub memory_per_thread_mib : ℤ
  pub mode : List ℕ
  pub num_threads : ℤ
  pub result_dir_path : Option (List ℕ)
  pub devdax_path : Option (List ℕ)
  pub membind_node : ℤ
  pub prefetch_option : Option Bool
  pub block_size : ℕ
  pub stride_size : ℕ
  pub bypass_cache : Bool
  pub cpu_affinity_str : Option (List ℕ)
  pub inject_delay_cycles : ℕ
  pub use_hugepage : Bool
  pub devdax_offset : ℕ
  pub zipfian_alpha : Double

-- The arguments that the loop compares with.
pub data Flag : Type 0 where
  memory_per_thread mode threads result_dir devdax membind prefetch block_size : Flag
  stride_size bypass_cache cpu_affinity inject_delay hugepage offset zipfian_alpha : Flag
  help unknown : Flag

unfoldable pub flag_of : List ℕ → Flag
flag_of a =
    if is_text a "--memory-per-thread"
    then memory_per_thread
    else if is_text a "--mode"
    then Flag.mode
    else if is_text a "--threads"
    then threads
    else if is_text a "--result-dir"
    then result_dir
    else if is_text a "--devdax"
    then devdax
    else if is_text a "--membind"
    then membind
    else if is_text a "--prefetch"
    then prefetch
    else if is_text a "--block-size"
    then Flag.block_size
    else if is_text a "--stride-size"
    then Flag.stride_size
    else if is_text a "--bypass-cache"
    then Flag.bypass_cache
    else if is_text a "--cpu-affinity"
    then cpu_affinity
    else if is_text a "--inject-delay"
    then inject_delay
    else if is_text a "--hugepage"
    then hugepage
    else if is_text a "--offset"
    then offset
    else if is_text a "--zipfian-alpha"
    then Flag.zipfian_alpha
    else if is_text a "--help"
    then help
    else if is_text a "-h"
    then help
    else unknown

-- What a turn of the loop does: it goes on past the argument, or past the argument and its value, or
-- `main` returns.
pub data Turn (Double : Type 0) : Type 0 where
  one two : Cfg Double → Turn Double
  returns : ℕ → Turn Double

pub data Parsed (Double : Type 0) : Type 0 where
  ok : Cfg Double → Parsed Double
  stop : ℕ → Parsed Double

-- An option without a value makes `main` return 1.
abbrev pub with_value : {Double : Type 0} → Option (List ℕ) → (List ℕ → Turn Double) → Turn Double
with_value none set = returns 1
with_value (some v) set = set v

module _ {Double : Type 0} (libc : Libc Double) where
  abbrev pub default_cfg : Cfg Double
  default_cfg = record {
    memory_per_thread_mib = negsuc 0;
    mode = bytes_of "seq,random";
    num_threads = pos 1;
    result_dir_path = none;
    devdax_path = none;
    membind_node = negsuc 0;
    prefetch_option = none;
    block_size = 64;
    stride_size = 64;
    bypass_cache = false;
    cpu_affinity_str = none;
    inject_delay_cycles = 0;
    use_hugepage = false;
    devdax_offset = 0;
    zipfian_alpha = libc.default_alpha;
  }

  abbrev pub set_prefetch : List ℕ → Cfg Double → Turn Double
  set_prefetch v c =
      if is_text v "ON"
      then two (record c { prefetch_option = some true })
      else if is_text v "OFF"
      then two (record c { prefetch_option = some false })
      else returns 1

  abbrev pub set_block_size : ℕ → Cfg Double → Turn Double
  set_block_size n c = if n == 0 then returns 1 else two (record c { block_size = n })

  abbrev pub set_stride_size : ℕ → Cfg Double → Turn Double
  set_stride_size n c = if n == 0 then returns 1 else two (record c { stride_size = n })

  abbrev pub set_alpha : Double → Cfg Double → Turn Double
  set_alpha d c = if libc.le_zero d then returns 1 else two (record c { zipfian_alpha = d })

  -- One turn, with the argument after this one if there is one.
  unfoldable pub parse_arg : Flag → Option (List ℕ) → Cfg Double → Turn Double
  parse_arg memory_per_thread next c =
      with_value next (λ v. two (record c { memory_per_thread_mib = libc.atoi v }))
  parse_arg Flag.mode next c = with_value next (λ v. two (record c { mode = v }))
  parse_arg threads next c = with_value next (λ v. two (record c { num_threads = libc.atoi v }))
  parse_arg result_dir next c = with_value next (λ v. two (record c { result_dir_path = some v }))
  parse_arg devdax next c = with_value next (λ v. two (record c { devdax_path = some v }))
  parse_arg membind next c = with_value next (λ v. two (record c { membind_node = libc.atoi v }))
  parse_arg prefetch next c = with_value next (λ v. set_prefetch v c)
  parse_arg Flag.block_size next c = with_value next (λ v. set_block_size (to_size (libc.atoi v)) c)
  parse_arg Flag.stride_size next c =
      with_value next (λ v. set_stride_size (to_size (libc.atoi v)) c)
  parse_arg Flag.bypass_cache next c = one (record c { bypass_cache = true })
  parse_arg cpu_affinity next c =
      with_value next (λ v. two (record c { cpu_affinity_str = some v }))
  parse_arg inject_delay next c =
      with_value next (λ v. two (record c { inject_delay_cycles = to_size (libc.atoll v) }))
  parse_arg hugepage next c = one (record c { use_hugepage = true })
  parse_arg offset next c =
      with_value next (λ v. two (record c { devdax_offset = libc.strtoull v }))
  parse_arg Flag.zipfian_alpha next c = with_value next (λ v. set_alpha (libc.atof v) c)
  parse_arg help next c = returns 0
  parse_arg unknown next c = returns 1

  unfoldable pub parse_args : List (List ℕ) → Cfg Double → Parsed Double
  parse_args [] c = ok c
  parse_args (a ∷ []) c = elim (parse_arg (flag_of a) none c) [
    | one d ↦ ok d
    | two d ↦ ok d
    | returns n ↦ stop n
  ]
  parse_args (a ∷ v ∷ rest) c = elim (parse_arg (flag_of a) (some v) c) [
    | one d ↦ parse_args (v ∷ rest) d
    | two d ↦ parse_args rest d
    | returns n ↦ stop n
  ]

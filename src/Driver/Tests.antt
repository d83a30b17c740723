-- ===== src/Driver/Tests.antt =====
-- Runs of the benchmark's `main` on a machine with a prefetcher that is on or off.
use mio_xcena.Base.{
  ◌≤◌, ℕ, ◌+◌, ◌*◌, ◌-◌, pos, negsuc, ◌≡◌, refl, ◌==◌, Bool, true, false, Option, none, some, List,
  [], ◌∷◌, ◌++◌, bytes_of, is_text, if◌then◌else◌, inr, ltb, leb,
}
use mio_xcena.Numa.{
  parse_numa_nodes, parse_loop, parse_node, strtok, trim, insert, validate_numa_nodes,
  validate_loop, has_cpus, get_cpus_from_numa_nodes, collect_cpus, set_cpus,
}
use mio_xcena.Driver.{Libc, Cfg, ok, stop, parse_args, parse_arg, flag_of, default_cfg}
use mio_xcena.Driver.Modes.{
  Test, seq, random, stride, detailed, pointer_chase, seq_read, seq_write, random_read,
  random_write, stride_read, stride_write, zipfian_read, parse_modes, expand_modes, expand_mode,
  select_runs, no_runs, on_runs, Runs, header_line, result_line, run_tests, getlines, parse_tokens,
  token_of,
}
use mio_xcena.Driver.Selected.{parse_modes-join, parse_modes-runs, any_covers}
use mio_xcena.Driver.Lines.{columns-agree}
use mio_xcena.Driver.Prefetch.{save_prefetcher_state, set_prefetcher_state, Shell, erase_trailing}
use mio_xcena.Driver.Launch.{
  check_node, allocate, with_memory, Plan, World, System, nothing, misused, check_options, launch,
  affinity,
}
use mio_xcena.Driver.Released.{IsClean, launch-releases, launch-misuses}
use mio_xcena.Driver.Ready.{IsReady}
use mio_xcena.Driver.Sized.{parse_args-IsReady}

-- A reader of numbers with decimal digits, up to the first other byte.
abbrev digits : ℕ → List ℕ → ℕ
digits n [] = n
digits n (c ∷ cs) = let rest = digits (n * 10 + (c - b'0')) cs in if leb b'0' c then rest else n

abbrev libc : Libc ℕ
libc = record {
  atoi = λ t. pos (digits 0 t);
  atoll = λ t. pos (digits 0 t);
  strtoull = digits 0;
  atof = digits 0;
  le_zero = λ d. d == 0;
  default_alpha = 99;
}

abbrev plain_args : List (List ℕ)
plain_args =
    bytes_of "--mode"
    ∷ bytes_of "seq,pointer_chase"
    ∷ bytes_of "--membind"
    ∷ bytes_of "1"
    ∷ bytes_of "--threads"
    ∷ bytes_of "4"
    ∷ []

abbrev args : List (List ℕ)
args =
    bytes_of "--mode"
    ∷ bytes_of "seq,pointer_chase"
    ∷ bytes_of "--hugepage"
    ∷ bytes_of "--membind"
    ∷ bytes_of "1"
    ∷ bytes_of "--threads"
    ∷ bytes_of "4"
    ∷ []

abbrev on_node : Cfg ℕ
on_node = record (default_cfg libc) {
  mode = bytes_of "seq,pointer_chase";
  membind_node = pos 1;
  num_threads = pos 4;
}

-- Whether a command succeeds, and the register after it.
abbrev answer : (on off r : Bool) → Bool × Bool
answer true off r = (true, true)
answer false true r = (true, false)
answer false false r = (false, r)

-- The two values that `main` sets.
abbrev shell : Shell Bool
shell = record {
  rdmsr = λ r. some (if r then bytes_of "0" ++ (b'\n' ∷ []) else bytes_of "f" ++ (b'\n' ∷ []));
  wrmsr = λ t r. answer (is_text t "0x0") (is_text t "0xf") r;
}

answer-kept : (on off r : Bool) → (answer on off r).0 ≡ false → (answer on off r).1 ≡ r
answer-kept true off r failed = cc
answer-kept false true r failed = cc
answer-kept false false r failed = refl

abbrev mask_of : ℕ → Option (ℕ → Bool)
mask_of n = if ltb n 2 then some (λ c. c == n) else none

abbrev system : Bool → System Bool
system file = record {
  strtol = λ t. record { value = pos (digits 0 t); used = 1 };
  machine = record {
    numa_available = true;
    max_node = pos 1;
    mask_size = 2;
    node_to_cpus = λ n. elim n [ pos k ↦ mask_of k | negsuc k ↦ none ];
  };
  shell = shell;
  open_ok = λ path. true;
  mmap_ok = λ size offset. true;
  mmap_huge_ok = λ size. true;
  numa_alloc_ok = λ size node. true;
  memalign_ok = λ block size. true;
  fopen_ok = file;
}

abbrev world : World Bool
world = record {
  prefetcher = record {
    register = true;
    saved_prefetcher_state = [];
    prefetcher_state_saved = false;
  };
  devdax_open = false;
  memory = nothing;
}

-- With the prefetcher off and bound to a node.
abbrev quiet : Cfg ℕ
quiet = record on_node { prefetch_option = some false; cpu_affinity_str = some (bytes_of "0") }

abbrev plan : List ℕ → Plan
plan cpus = record {
  memory_per_thread_mib = 500;
  num_threads = 4;
  expanded_modes = seq_read ∷ seq_write ∷ pointer_chase ∷ [];
  cpu_list = cpus;
}

parsed : parse_args libc args (default_cfg libc) ≡ ok (record on_node { use_hugepage = true })
unfolding parse_args parse_arg flag_of is_text
parsed = refl

no_value : parse_args libc (bytes_of "--mode" ∷ []) (default_cfg libc) ≡ stop 1
unfolding parse_args parse_arg flag_of is_text
no_value = refl

no_block : parse_args libc (bytes_of "--block-size" ∷ bytes_of "0" ∷ []) (default_cfg libc) ≡ stop 1
unfolding parse_args parse_arg flag_of is_text
no_block = refl

checked : check_options (system true) quiet ≡ some (plan (0 ∷ []))
unfolding check_options parse_modes parse_tokens token_of getlines expand_modes expand_mode is_text
    affinity parse_numa_nodes parse_loop parse_node strtok trim insert validate_numa_nodes
    validate_loop has_cpus get_cpus_from_numa_nodes collect_cpus set_cpus
checked = refl

checked_plain : check_options (system false) on_node ≡ some (plan [])
unfolding check_options parse_modes parse_tokens token_of getlines expand_modes expand_mode is_text
    affinity
checked_plain = refl

all_modes : parse_modes (bytes_of "all") ≡ some (seq ∷ random ∷ stride ∷ [])
unfolding parse_modes is_text
all_modes = refl

bad_mode : parse_modes (bytes_of "seq,,random") ≡ none
unfolding parse_modes parse_tokens token_of getlines is_text
bad_mode = refl

abbrev seq_modes : Runs
seq_modes = record no_runs { seq_read = true; zipfian_read = true; stride_read = true }

parse_modes-join_example :
    (parse_modes (bytes_of "seq,zipfian_read") ≡ some (seq ∷ detailed zipfian_read ∷ []))
    × ((x : Test)
        → on_runs x (select_runs (expand_modes (seq ∷ detailed zipfian_read ∷ [])) no_runs)
          ≡ any_covers (seq ∷ detailed zipfian_read ∷ []) x)
parse_modes-join_example = parse_modes-join seq (detailed zipfian_read ∷ [])

parse_modes-runs_example :
    (x : Test) × (on_runs x (select_runs (expand_modes (seq ∷ random ∷ stride ∷ [])) no_runs)
      ≡ true)
parse_modes-runs_example = parse_modes-runs (bytes_of "all") (seq ∷ random ∷ stride ∷ []) all_modes

abbrev measure : Test → ℕ
measure seq_read = 1
measure seq_write = 2
measure random_read = 3
measure random_write = 4
measure stride_read = 5
measure stride_write = 6
measure zipfian_read = 7
measure pointer_chase = 8

abbrev print : ℕ → List ℕ
print n = b' ' ∷ (b'0' + n) ∷ []

seq_columns :
    (header_line seq_modes
      ≡ bytes_of "# Threads SeqRead(GB/s) StrideRead(GB/s) ZipfianRead(GB/s)" ++ (b'\n' ∷ []))
    × (result_line (λ n. (b'0' + n) ∷ []) print 4 seq_modes (run_tests measure 0 seq_modes)
        ≡ bytes_of "4 1 5 7" ++ (b'\n' ∷ []))
seq_columns = columns-agree measure 0 (λ n. (b'0' + n) ∷ []) print 4 seq_modes

-- The prefetcher is switched off, and on again when the result file cannot be opened.
switched : (launch (system false) quiet world).code ≡ 1
unfolding launch check_options parse_modes parse_tokens token_of getlines is_text affinity
    parse_numa_nodes parse_loop parse_node strtok trim insert validate_numa_nodes validate_loop
    has_cpus get_cpus_from_numa_nodes collect_cpus set_cpus save_prefetcher_state
    set_prefetcher_state erase_trailing check_node allocate with_memory
switched = refl

launch-releases_example : IsClean (launch (system true) quiet world).world
launch-releases_example = launch-releases (system true) quiet world (inr (refl, refl)) (refl, refl)

unusable_file :
    ((launch (system false) on_node world).code ≡ 1)
    × ((launch (system false) on_node world).world.memory ≡ misused)
unusable_file =
    launch-misuses (system false) on_node world (plan []) 1 checked_plain refl refl refl refl refl
      refl refl

parsed_affine :
    parse_args libc
      (bytes_of "--prefetch"
        ∷ bytes_of "OFF"
        ∷ bytes_of "--cpu-affinity"
        ∷ bytes_of "0"
        ∷ plain_args)
      (default_cfg libc)
    ≡ ok quiet
unfolding parse_args parse_arg flag_of is_text
parsed_affine = refl

parse_args-IsReady_example : (1 ≤ 64) × (1 ≤ 64) × IsReady quiet (plan (0 ∷ []))
parse_args-IsReady_example =
    parse_args-IsReady libc
      (bytes_of "--prefetch"
        ∷ bytes_of "OFF"
        ∷ bytes_of "--cpu-affinity"
        ∷ bytes_of "0"
        ∷ plain_args)
      quiet parsed_affine (system true) (plan (0 ∷ [])) checked

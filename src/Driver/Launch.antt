-- ===== src/Driver/Launch.antt =====
-- src/main.cpp, `main`, after its arguments: the checks of the options, the CPUs, the prefetcher, the
-- memory, the result file, and what is given back at each return.
--
-- What the system answers is a parameter. The result directory, its files' contents and the symbolic
-- link are left out here; the tests work in the memory and change nothing of the state.
use mio_xcena.Base.{
  ℕ, zero, suc, ◌*◌, ℤ, pos, negsuc, is_negative, to_size, to_int, lt_int, u64, Bool, true, false,
  not, ◌&&◌, if◌then◌else◌, Option, none, some, List, [], ◌∷◌,
}
use mio_xcena.Numa.{
  Strtol, Machine, parse_numa_nodes, validate_numa_nodes, get_cpus_from_numa_nodes,
}
use mio_xcena.Driver.{Cfg, Libc, Parsed, ok, stop, parse_args, default_cfg}
use mio_xcena.Driver.Modes.{Test, Token, parse_modes, expand_modes}
use mio_xcena.Driver.Prefetch.{
  Shell, Prefetcher, save_prefetcher_state, set_prefetcher_state, restore_prefetcher_state,
}

-- What `main` goes on with once the options are checked.
pub record Plan : Type 0 where
  pub memory_per_thread_mib : ℕ
  pub num_threads : ℕ
  pub expanded_modes : List Test
  pub cpu_list : List ℕ

-- The positive value of an `int`.
abbrev pub positive : ℤ → Option ℕ
positive (pos zero) = none
positive (pos (suc n)) = some (suc n)
positive (negsuc k) = none

abbrev pub or_default : Option ℕ → ℕ
or_default none = 500
or_default (some n) = n

abbrev pub is_some : Option (List ℕ) → Bool
is_some none = false
is_some (some a) = true

-- The memory that `main` holds: nothing, a mapping of the device, one of huge pages, pages of a node, or
-- a block of the heap; `misused` when it was given to a function that is not for memory of its kind.
pub data Held : Type 0 where
  nothing devdax_map huge_map numa_pages heap misused : Held

abbrev pub munmap : Held → Held
munmap nothing = misused
munmap devdax_map = nothing
munmap huge_map = nothing
munmap numa_pages = misused
munmap heap = misused
munmap misused = misused

abbrev pub numa_free : Held → Held
numa_free nothing = misused
numa_free devdax_map = misused
numa_free huge_map = misused
numa_free numa_pages = nothing
numa_free heap = misused
numa_free misused = misused

abbrev pub free : Held → Held
free nothing = misused
free devdax_map = misused
free huge_map = misused
free numa_pages = misused
free heap = nothing
free misused = misused

pub record World (Register : Type 0) : Type 0 where
  pub prefetcher : Prefetcher Register
  pub devdax_open : Bool
  pub memory : Held

-- The value that `main` returns, and what it leaves behind.
pub record Exit (Register : Type 0) : Type 0 where
  pub code : ℕ
  pub world : World Register

-- The system: the CPUs, the prefetcher's commands, and whether each call succeeds.
pub record System (Register : Type 0) : Type 0 where
  pub strtol : Strtol
  pub machine : Machine
  pub shell : Shell Register
  pub open_ok : List ℕ → Bool
  pub mmap_ok : (size offset : ℕ) → Bool
  pub mmap_huge_ok : (size : ℕ) → Bool
  pub numa_alloc_ok : (size : ℕ) → ℤ → Bool
  pub memalign_ok : (block_size size : ℕ) → Bool
  pub fopen_ok : Bool

-- `(size_t)total_memory_mib * 1024 * 1024`, where the total is an `int`.
unfoldable pub memory_size : Plan → ℕ
memory_size p = u64 (to_size (to_int (p.memory_per_thread_mib * p.num_threads)) * 1024 * 1024)

unfoldable pub memory_to_use : Plan → ℕ
memory_to_use p = u64 (p.num_threads * p.memory_per_thread_mib * 1024 * 1024)

module _ {Double Register : Type 0} (s : System Register) (c : Cfg Double) where
  -- The number of threads is checked after the modes.
  abbrev pub with_threads : Option ℕ → List Token → List ℕ → Option Plan
  with_threads none modes cpus = none
  with_threads (some n) modes cpus = some (record {
    memory_per_thread_mib = or_default (positive c.memory_per_thread_mib);
    num_threads = n;
    expanded_modes = expand_modes modes;
    cpu_list = cpus;
  })

  abbrev pub check_cpus : List ℕ → Option (List ℕ)
  check_cpus [] = none
  check_cpus (k ∷ ks) = some (k ∷ ks)

  abbrev pub check_nodes : List ℤ → Option (List ℕ)
  check_nodes [] = none
  check_nodes (n ∷ ns) =
      if validate_numa_nodes s.machine (n ∷ ns)
      then check_cpus (get_cpus_from_numa_nodes s.machine (n ∷ ns))
      else none

  -- The list of CPUs; `none` is the return value 1.
  unfoldable pub affinity : Option (List ℕ) → Option (List ℕ)
  affinity none = some []
  affinity (some a) = check_nodes (parse_numa_nodes s.strtol (some a))

  abbrev pub with_cpus : Option ℕ → List Token → Option (List ℕ) → Option Plan
  with_cpus threads modes none = none
  with_cpus threads modes (some cpus) = with_threads threads modes cpus

  abbrev pub with_modes : Option (List Token) → Option Plan
  with_modes none = none
  with_modes (some modes) = with_cpus (positive c.num_threads) modes (affinity c.cpu_affinity_str)

  -- `none` is the return value 1. Nothing has been changed yet.
  unfoldable pub check_options : Option Plan
  check_options =
      if is_some c.devdax_path && not (is_negative c.membind_node)
      then none
      else if not (is_some c.devdax_path) && is_negative c.membind_node
      then none
      else with_modes (parse_modes c.mode)

  -- A return after the prefetcher was set.
  abbrev pub leave : ℕ → World Register → Exit Register
  leave code w = record {
    code = code;
    world = record w { prefetcher = restore_prefetcher_state s.shell w.prefetcher };
  }

  abbrev pub give_back : Bool → (otherwise : Held → Held) → World Register → World Register
  give_back true otherwise w = record w { memory = munmap w.memory; devdax_open = false }
  give_back false otherwise w = record w { memory = otherwise w.memory }

  -- The release after the tests: `numa_free` goes with `--membind`.
  abbrev pub free_for : ℤ → Held → Held
  free_for (pos n) h = numa_free h
  free_for (negsuc k) h = free h

  -- The result file is opened, the tests run, and the memory is given back.
  unfoldable pub with_memory : World Register → Exit Register
  with_memory w =
      if s.fopen_ok
      then leave 0 (give_back (is_some c.devdax_path) (free_for c.membind_node) w)
      else leave 1 (give_back (is_some c.devdax_path) free w)

  abbrev pub allocated : Bool → Held → World Register → Exit Register
  allocated true h w = with_memory (record w { memory = h })
  allocated false h w = leave 1 w

  -- `mmap` of the open device; the descriptor is closed again if it fails.
  abbrev pub map_device : Plan → Bool → World Register → Exit Register
  map_device p false w = leave 1 w
  map_device p true w =
      if s.mmap_ok (memory_size p) c.devdax_offset
      then with_memory (record w { devdax_open = true; memory = devdax_map })
      else leave 1 (record w { devdax_open = false })

  abbrev pub allocate_node : Plan → Bool → ℤ → World Register → Exit Register
  allocate_node p hugepage (negsuc k) w =
      allocated (s.memalign_ok c.block_size (memory_size p)) heap w
  allocate_node p true (pos n) w = allocated (s.mmap_huge_ok (memory_size p)) huge_map w
  allocate_node p false (pos n) w = allocated (s.numa_alloc_ok (memory_size p) (pos n)) numa_pages w

  unfoldable pub allocate : Plan → Option (List ℕ) → World Register → Exit Register
  allocate p (some path) w = map_device p (s.open_ok path) w
  allocate p none w = allocate_node p c.use_hugepage c.membind_node w

  -- The node of `--membind` exists.
  abbrev pub node_exists : ℤ → Bool
  node_exists (pos n) = s.machine.numa_available && not (lt_int s.machine.max_node (pos n))
  node_exists (negsuc k) = true

  unfoldable pub check_node : Plan → World Register → Exit Register
  check_node p w = if node_exists c.membind_node then allocate p c.devdax_path w else leave 1 w

  abbrev pub after_set : Plan → Bool × Prefetcher Register → World Register → Exit Register
  after_set p (false, f) w = record { code = 1; world = record w { prefetcher = f } }
  after_set p (true, f) w = check_node p (record w { prefetcher = f })

  abbrev pub after_save : Plan → Bool → Bool × Prefetcher Register → World Register → Exit Register
  after_save p enable (false, f) w = record { code = 1; world = record w { prefetcher = f } }
  after_save p enable (true, f) w = after_set p (set_prefetcher_state s.shell enable f) w

  abbrev pub set_up : Plan → Option Bool → World Register → Exit Register
  set_up p none w = check_node p w
  set_up p (some enable) w = after_save p enable (save_prefetcher_state s.shell w.prefetcher) w

  abbrev pub launch_plan : Option Plan → World Register → Exit Register
  launch_plan none w = record { code = 1; world = w }
  launch_plan (some p) w = set_up p c.prefetch_option w

  unfoldable pub launch : World Register → Exit Register
  launch w = launch_plan check_options w

-- `main` as a whole: its arguments after the program's name, then the rest.
module _ {Double Register : Type 0} (libc : Libc Double) (s : System Register) where
  abbrev pub after_args : Parsed Double → World Register → Exit Register
  after_args (ok c) w = launch s c w
  after_args (stop n) w = record { code = n; world = w }

  unfoldable pub main : List (List ℕ) → World Register → Exit Register
  main args w = after_args (parse_args libc args (default_cfg libc)) w

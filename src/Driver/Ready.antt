-- ===== src/Driver/Ready.antt =====
-- What the checks of `main` (src/main.cpp) promise of the options that it goes on with.
use mathlib.Core.Path.{subst}
use mio_xcena.Base.{
  ℕ, zero, suc, ◌*◌, ◌^◌, ◌≤◌, ◌<◌, ℤ, pos, negsuc, is_negative, to_size, to_int, u64, ◌≡◌, refl,
  ◌≢◌, Bool, true, false, not, ◌&&◌, Option, none, some, List, [], ◌∷◌, if◌then◌else◌, inl, inr, ap,
  sym, ◌∙◌, arith, ◌⊎◌,
}
use mio_xcena.Numa.{validate_numa_nodes, parse_numa_nodes, get_cpus_from_numa_nodes}
use mio_xcena.Driver.{Cfg}
use mio_xcena.Driver.Modes.{Test, Token, parse_modes, expand_modes, select_runs, no_runs, on_runs}
use mio_xcena.Driver.Selected.{parse_modes-runs}
use mio_xcena.Driver.Launch.{
  Plan, System, positive, or_default, is_some, check_options, with_modes, with_cpus, affinity,
  check_nodes, check_cpus, memory_size, memory_to_use,
}

-- The options agree with each other: one place for the memory, at least one thread, one MiB, one test,
-- and one CPU for the threads if the threads are to be bound.
pub record IsReady {Double : Type 0} (c : Cfg Double) (p : Plan) : Type 0 where
  pub place : is_some c.devdax_path ≡ is_negative c.membind_node
  pub threads : 1 ≤ p.num_threads
  pub memory : 1 ≤ p.memory_per_thread_mib
  pub tests : (t : Test) × (on_runs t (select_runs p.expanded_modes no_runs) ≡ true)
  pub cpus : (p.cpu_list ≢ []) ⊎ (c.cpu_affinity_str ≡ none)

positive_ge : (n : ℤ) (k : ℕ) → positive n ≡ some k → 1 ≤ k
positive_ge (pos zero) k e = cc
positive_ge (pos (suc n)) k e = ground arith
positive_ge (negsuc j) k e = cc

or_default_ge : (o : Option ℕ) → ((k : ℕ) → o ≡ some k → 1 ≤ k) → 1 ≤ or_default o
or_default_ge none h = omega arith
or_default_ge (some n) h = h n refl

one_place :
    (a b : Bool) (o : Option Plan) (p : Plan)
    → (if a && not b then none else if not a && b then none else o) ≡ some p
    → (a ≡ b) × (o ≡ some p)
one_place true true o p e = (refl, e)
one_place true false o p e = cc
one_place false true o p e = cc
one_place false false o p e = (refl, e)

module _ {Double Register : Type 0} (s : System Register) (c : Cfg Double) where
  check_cpus-some :
      (valid : Bool) (found cpus : List ℕ)
      → (if valid then check_cpus s c found else none) ≡ some cpus
      → cpus ≢ []
  check_cpus-some true [] cpus e = cc
  check_cpus-some true (k ∷ ks) cpus e = λ empty. cc
  check_cpus-some false found cpus e = cc

  check_nodes-some :
      (nodes : List ℤ) (cpus : List ℕ) → check_nodes s c nodes ≡ some cpus → cpus ≢ []
  check_nodes-some [] cpus e = cc
  check_nodes-some (n ∷ ns) cpus e =
      check_cpus-some (validate_numa_nodes s.machine (n ∷ ns))
        (get_cpus_from_numa_nodes s.machine (n ∷ ns)) cpus e

  affinity-some :
      (str : Option (List ℕ)) (cpus : List ℕ)
      → affinity s c str ≡ some cpus
      → (cpus ≢ []) ⊎ (str ≡ none)
  unfolding affinity
  affinity-some none cpus e = inr refl
  affinity-some (some a) cpus e = inl (check_nodes-some (parse_numa_nodes s.strtol (some a)) cpus e)

  -- The number of threads, then the CPUs.
  with_cpus-IsReady :
      (threads : Option ℕ) (modes : List Token) (cpus : Option (List ℕ)) (p : Plan)
      → is_some c.devdax_path ≡ is_negative c.membind_node
      → positive c.num_threads ≡ threads
      → parse_modes c.mode ≡ some modes
      → affinity s c c.cpu_affinity_str ≡ cpus
      → with_cpus s c threads modes cpus ≡ some p
      → IsReady c p
  with_cpus-IsReady threads modes none p place threads_eq read bound e = cc
  with_cpus-IsReady none modes (some cpus) p place threads_eq read bound e = cc
  with_cpus-IsReady (some n) modes (some cpus) p place threads_eq read bound e =
      let plan : record {
        memory_per_thread_mib = or_default (positive c.memory_per_thread_mib);
        num_threads = n;
        expanded_modes = expand_modes modes;
        cpu_list = cpus;
      }
          ≡ p =
        cc in
      subst (IsReady c) plan (record {
        place = place;
        threads = positive_ge c.num_threads n threads_eq;
        memory =
            or_default_ge (positive c.memory_per_thread_mib) (positive_ge c.memory_per_thread_mib);
        tests = parse_modes-runs c.mode modes read;
        cpus = affinity-some c.cpu_affinity_str cpus bound;
      })

  with_modes-IsReady :
      (o : Option (List Token)) (p : Plan)
      → parse_modes c.mode ≡ o
      → is_some c.devdax_path ≡ is_negative c.membind_node
      → with_modes s c o ≡ some p
      → IsReady c p
  with_modes-IsReady none p read place e = cc
  with_modes-IsReady (some modes) p read place e =
      with_cpus-IsReady (positive c.num_threads) modes (affinity s c c.cpu_affinity_str) p place
        refl read refl e

  pub check_options-IsReady : (p : Plan) → check_options s c ≡ some p → IsReady c p
  unfolding check_options
  check_options-IsReady p e =
      let parts = one_place (is_some c.devdax_path) (is_negative c.membind_node) _ p e in
      with_modes-IsReady (parse_modes c.mode) p refl (parts.0) (parts.1)

exact : (p : ℕ) → p < 2 ^ 31 → to_size (to_int p) ≡ p
exact p small = ground arith

product_small : (p : ℕ) → p < 2 ^ 31 → u64 (p * 1024 * 1024) ≡ p * 1048576
product_small p small = omega arith

-- As long as the total number of MiB is an `int`, the tests work in just as many bytes as have been
-- allocated, and the number of bytes does not wrap.
pub memory_to_use_lem :
    (p : Plan)
    → p.memory_per_thread_mib * p.num_threads < 2 ^ 31
    → (memory_to_use p ≡ memory_size p)
      × (memory_size p ≡ p.memory_per_thread_mib * p.num_threads * 1048576)
unfolding memory_size memory_to_use
memory_to_use_lem p small =
    let size : u64 (to_size (to_int (p.memory_per_thread_mib * p.num_threads)) * 1024 * 1024)
        ≡ p.memory_per_thread_mib * p.num_threads * 1048576 =
      ap (λ n. u64 (n * 1024 * 1024)) (exact _ small) ∙ product_small _ small in
    let swap : p.num_threads * p.memory_per_thread_mib ≡ p.memory_per_thread_mib * p.num_threads =
      omega arith in
    (ap (λ n. u64 (n * 1024 * 1024)) swap ∙ product_small _ small ∙ sym size, size)

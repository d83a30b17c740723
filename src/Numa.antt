-- ===== src/Numa.antt =====
-- src/numa_affinity.cpp: the list of NUMA nodes of `--cpu-affinity`, and their CPUs.
--
-- `strtol` and what libnuma reports of the machine are parameters. Messages are left out.
pub mod Nodes
pub mod Cpus
pub mod Tests
use mio_xcena.Base.{
  ℕ, zero, suc, ◌+◌, ℤ, pos, negsuc, to_int, lt_int, Bool, true, false, not, ◌==◌, ◌||◌,
  if◌then◌else◌, Option, none, some, List, [], ◌∷◌, ◌++◌, length,
}

-- What `strtol(token, &end, 10)` gives: the value, and `end - token`.
pub record Converted : Type 0 where
  pub value : ℤ
  pub used : ℕ

abbrev pub Strtol : Type 0
Strtol = List ℕ → Converted

-- Adds a piece unless it is empty: `strtok` passes over delimiters that stand together.
abbrev pub add_piece : List ℕ → List (List ℕ) → List (List ℕ)
add_piece [] ts = ts
add_piece (c ∷ cs) ts = (c ∷ cs) ∷ ts

-- The tokens that the calls of `strtok(..., ",")` give, the first of which has begun with `piece`.
unfoldable pub strtok : (piece : List ℕ) → List ℕ → List (List ℕ)
strtok piece [] = add_piece piece []
strtok piece (c ∷ cs) = elim (c == b',') [
  | true ↦ add_piece piece (strtok [] cs)
  | false ↦ strtok (piece ++ (c ∷ [])) cs
]

unfoldable pub trim : List ℕ → List ℕ
trim [] = []
trim (c ∷ cs) = let rest = trim cs in if c == b' ' || c == b'\t' then rest else c ∷ cs

-- An ordered set without duplicates.
unfoldable pub insert : ℤ → List ℤ → List ℤ
insert n [] = n ∷ []
insert n (m ∷ ms) =
    let rest = insert n ms in
    if lt_int n m then n ∷ (m ∷ ms) else if lt_int m n then m ∷ rest else m ∷ ms

abbrev pub check_sign : ℤ → Option ℤ
check_sign (pos n) = some (to_int n)
check_sign (negsuc k) = none

-- `numa_available() >= 0`, `numa_max_node()`, the size of a CPU mask, and the CPUs of a node.
pub record Machine : Type 0 where
  pub numa_available : Bool
  pub max_node : ℤ
  pub mask_size : ℕ
  pub node_to_cpus : ℤ → Option (ℕ → Bool)

-- An error makes the function return the empty list.
abbrev pub node_or_stop : Option ℤ → (ℤ → List ℤ) → List ℤ
node_or_stop none next = []
node_or_stop (some n) next = next n

module _ (strtol : Strtol) where
  -- One round of the loop over the tokens: the node, or an error.
  unfoldable pub parse_node : List ℕ → Option ℤ
  parse_node token =
      let trimmed = trim token in
      let c = strtol trimmed in
      if c.used == 0 || not (c.used == length trimmed) then none else check_sign c.value

  unfoldable pub parse_loop : List (List ℕ) → List ℤ → List ℤ
  parse_loop [] unique_nodes = unique_nodes
  parse_loop (t ∷ ts) unique_nodes =
      node_or_stop (parse_node t) (λ n. parse_loop ts (insert n unique_nodes))

  unfoldable pub parse_numa_nodes : Option (List ℕ) → List ℤ
  parse_numa_nodes none = []
  parse_numa_nodes (some s) = parse_loop (strtok [] s) []

-- The loop over the bits of a mask from `cpu` on.
unfoldable pub set_cpus : (left cpu : ℕ) → (ℕ → Bool) → List ℕ
set_cpus zero cpu mask = []
set_cpus (suc left) cpu mask =
    let rest = set_cpus left (cpu + 1) mask in if mask cpu then cpu ∷ rest else rest

-- The loop that stops at the first bit that is set.
unfoldable pub has_cpus : (left cpu : ℕ) → (ℕ → Bool) → Bool
has_cpus zero cpu mask = false
has_cpus (suc left) cpu mask =
    let rest = has_cpus left (cpu + 1) mask in if mask cpu then true else rest

module _ (m : Machine) where
  abbrev pub cpus_of_node : Option (ℕ → Bool) → List ℕ
  cpus_of_node none = []
  cpus_of_node (some mask) = set_cpus m.mask_size 0 mask

  unfoldable pub collect_cpus : List ℤ → List ℕ
  collect_cpus [] = []
  collect_cpus (n ∷ ns) = cpus_of_node (m.node_to_cpus n) ++ collect_cpus ns

  unfoldable pub get_cpus_from_numa_nodes : List ℤ → List ℕ
  get_cpus_from_numa_nodes ns = if m.numa_available then collect_cpus ns else []

  abbrev pub validate_mask : Option (ℕ → Bool) → Bool
  validate_mask none = false
  validate_mask (some mask) = has_cpus m.mask_size 0 mask

  unfoldable pub validate_loop : List ℤ → Bool
  validate_loop [] = true
  validate_loop (n ∷ ns) =
      let rest = validate_loop ns in
      if lt_int m.max_node n
      then false
      else if validate_mask (m.node_to_cpus n)
      then rest
      else false

  unfoldable pub validate_numa_nodes : List ℤ → Bool
  validate_numa_nodes [] = false
  validate_numa_nodes (n ∷ ns) = if m.numa_available then validate_loop (n ∷ ns) else false

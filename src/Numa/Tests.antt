-- ===== src/Numa/Tests.antt =====
-- A machine with two nodes of two CPUs each and a third without, and lists of nodes for it.
use mio_xcena.Base.{
  ℕ, ℤ, pos, negsuc, ◌≡◌, refl, ◌≢◌, ◌==◌, ◌-◌, ltb, leb, Bool, true, false, ◌&&◌, if◌then◌else◌,
  Option, none, some, [], ◌∷◌, bytes_of,
}
use mio_xcena.Numa.{
  Strtol, Machine, strtok, trim, parse_numa_nodes, get_cpus_from_numa_nodes, validate_numa_nodes,
  set_cpus, collect_cpus, has_cpus, validate_loop, parse_loop, parse_node, insert,
}
use mio_xcena.Numa.Nodes.{IsNodeSet, read_all, parse_numa_nodes_lem, is_member}
use mio_xcena.Numa.Cpus.{is_listed-get_cpus, validated-get_cpus, is_listed, is_on, is_on_any}

-- A reader of one digit.
abbrev strtol : Strtol
strtol [] = record { value = pos 0; used = 0 }
strtol (c ∷ cs) =
    if leb b'0' c && leb c b'9'
    then record { value = pos (c - b'0'); used = 1 }
    else record { value = pos 0; used = 0 }

abbrev mask_of : ℕ → Option (ℕ → Bool)
mask_of n =
    if ltb n 2
    then some (λ c. ltb 0 c && leb c (2 - n))
    else if n == 2
    then some (λ c. false)
    else none

abbrev machine : Machine
machine = record {
  numa_available = true;
  max_node = pos 2;
  mask_size = 4;
  node_to_cpus = λ n. elim n [ pos k ↦ mask_of k | negsuc k ↦ none ];
}

parsed : parse_numa_nodes strtol (some (bytes_of "1, 0,,1")) ≡ pos 0 ∷ pos 1 ∷ []
unfolding parse_numa_nodes parse_loop parse_node strtok trim insert
parsed = refl

refused : parse_numa_nodes strtol (some (bytes_of "1,x")) ≡ []
unfolding parse_numa_nodes parse_loop parse_node strtok trim insert
refused = refl

cpus : get_cpus_from_numa_nodes machine (pos 0 ∷ pos 1 ∷ []) ≡ 1 ∷ 2 ∷ 1 ∷ []
unfolding get_cpus_from_numa_nodes collect_cpus set_cpus
cpus = refl

accepted : validate_numa_nodes machine (pos 0 ∷ pos 1 ∷ []) ≡ true
unfolding validate_numa_nodes validate_loop has_cpus
accepted = refl

no_cpus : validate_numa_nodes machine (pos 2 ∷ []) ≡ false
unfolding validate_numa_nodes validate_loop has_cpus
no_cpus = refl

three_nodes :
    IsNodeSet
      (read_all strtol (strtok [] (bytes_of "1, 0,,1")))
      (parse_numa_nodes strtol (some (bytes_of "1, 0,,1")))
three_nodes = parse_numa_nodes_lem strtol (bytes_of "1, 0,,1")

is_listed-get_cpus_example :
    is_listed 2 (get_cpus_from_numa_nodes machine (pos 0 ∷ pos 1 ∷ []))
    ≡ machine.numa_available && is_on_any machine (pos 0 ∷ pos 1 ∷ []) 2
is_listed-get_cpus_example = is_listed-get_cpus machine (pos 0 ∷ pos 1 ∷ []) 2

both_nodes_have_cpus :
    (pos 0 ∷ pos 1 ∷ [] ≢ [])
    × ((n : ℤ)
        → is_member n (pos 0 ∷ pos 1 ∷ []) ≡ true
        → (c : ℕ) × (is_on 4 (machine.node_to_cpus n) c ≡ true)
          × (is_listed c (get_cpus_from_numa_nodes machine (pos 0 ∷ pos 1 ∷ [])) ≡ true))
both_nodes_have_cpus = validated-get_cpus machine (pos 0 ∷ pos 1 ∷ []) accepted

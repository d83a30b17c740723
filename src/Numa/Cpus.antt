-- ===== src/Numa/Cpus.antt =====
-- The CPUs of the nodes, and what `validateNumaNodes` is good for (src/numa_affinity.cpp).
use mio_xcena.Base.{
  ℕ, zero, suc, ◌+◌, ℤ, ◌≡◌, refl, ◌==◌, Bool, true, false, ◌&&◌, ◌||◌, Option, none, some, List,
  [], ◌∷◌, ◌++◌, arith, ltb, leb, ==_refl, ==_iff, pos, negsuc, lt_int, ◌≢◌, Bool-cases,
  if◌then◌else◌, inl, inr, ◌∙◌, ap, sym,
}
use mathlib.Core.Path.{ap₂}
use mio_xcena.Numa.Nodes.{is_int, is_member}
use mio_xcena.Numa.{
  Machine, set_cpus, cpus_of_node, collect_cpus, get_cpus_from_numa_nodes, has_cpus, validate_mask,
  validate_loop, validate_numa_nodes,
}

abbrev pub is_listed : ℕ → List ℕ → Bool
is_listed c [] = false
is_listed c (d ∷ ds) = c == d || is_listed c ds

is_listed-append :
    (c : ℕ) (ds es : List ℕ) → is_listed c (ds ++ es) ≡ is_listed c ds || is_listed c es
is_listed-append c [] es = refl
is_listed-append c (d ∷ ds) es = ground (arith, is_listed-append c ds es)

is_listed-set_cpus :
    (left from c : ℕ) (mask : ℕ → Bool)
    → is_listed c (set_cpus left from mask) ≡ leb from c && (ltb c (from + left) && mask c)
unfolding set_cpus
is_listed-set_cpus zero from c mask = ground arith
is_listed-set_cpus (suc left) from c mask =
    let rest = is_listed-set_cpus left (from + 1) c mask in
    elim (Bool-cases (mask from)) [
      | inl set ↦ rw (set) (ground (arith, rest))
      | inr clear ↦ rw clear (ground (arith, rest))
    ]

-- The bit that stopped the loop.
has_cpus-some :
    (left from : ℕ) (mask : ℕ → Bool)
    → has_cpus left from mask ≡ true
    → (c : ℕ) × (is_listed c (set_cpus left from mask) ≡ true)
unfolding has_cpus set_cpus
has_cpus-some zero from mask e = cc
has_cpus-some (suc left) from mask e = elim (Bool-cases (mask from)) [
  | inl set ↦ (from, rw (set, ==_refl from) refl)
  | inr clear ↦
      let found = has_cpus-some left (from + 1) mask (rw clear at e) in
      (found.0, rw clear (found.1))
]

-- The CPU stands in the mask of a node.
abbrev pub is_on : (mask_size : ℕ) → Option (ℕ → Bool) → ℕ → Bool
is_on size none c = false
is_on size (some mask) c = ltb c size && mask c

-- The CPU stands in the mask of one of the nodes.
abbrev pub is_on_any : Machine → List ℤ → ℕ → Bool
is_on_any m [] c = false
is_on_any m (n ∷ ns) c = is_on m.mask_size (m.node_to_cpus n) c || is_on_any m ns c

is_listed-cpus_of_node :
    (m : Machine) (o : Option (ℕ → Bool)) (c : ℕ)
    → is_listed c (cpus_of_node m o) ≡ is_on m.mask_size o c
is_listed-cpus_of_node m none c = refl
is_listed-cpus_of_node m (some mask) c = ground (arith, is_listed-set_cpus m.mask_size 0 c mask)

is_listed-collect_cpus :
    (m : Machine) (ns : List ℤ) (c : ℕ) → is_listed c (collect_cpus m ns) ≡ is_on_any m ns c
unfolding collect_cpus
is_listed-collect_cpus m [] c = refl
is_listed-collect_cpus m (n ∷ ns) c =
    is_listed-append c (cpus_of_node m (m.node_to_cpus n)) (collect_cpus m ns)
    ∙ ap₂ ◌||◌ (is_listed-cpus_of_node m (m.node_to_cpus n) c) (is_listed-collect_cpus m ns c)

if_listed :
    (c : ℕ) (a b : Bool) (ds : List ℕ)
    → is_listed c ds ≡ b
    → is_listed c (if a then ds else []) ≡ a && b
if_listed c true b ds e = e
if_listed c false b ds e = refl

-- The list has just the CPUs of the nodes, and none when libnuma does not work.
pub is_listed-get_cpus :
    (m : Machine) (ns : List ℤ) (c : ℕ)
    → is_listed c (get_cpus_from_numa_nodes m ns) ≡ m.numa_available && is_on_any m ns c
unfolding get_cpus_from_numa_nodes
is_listed-get_cpus m ns c =
    if_listed c m.numa_available _ (collect_cpus m ns) (is_listed-collect_cpus m ns c)

int_eq : (j k : ℤ) → is_int j k ≡ true → j ≡ k
int_eq (pos j) (pos k) e = ap pos ((==_iff j k).0 e)
int_eq (pos j) (negsuc k) e = cc
int_eq (negsuc j) (pos k) e = cc
int_eq (negsuc j) (negsuc k) e = ap negsuc ((==_iff j k).0 e)

validate_mask-some :
    (m : Machine) (o : Option (ℕ → Bool))
    → validate_mask m o ≡ true
    → (c : ℕ) × (is_on m.mask_size o c ≡ true)
validate_mask-some m none e = cc
validate_mask-some m (some mask) e =
    let found = has_cpus-some m.mask_size 0 mask e in
    (found.0, sym (is_listed-cpus_of_node m (some mask) (found.0)) ∙ found.1)

checks_pass :
    (a b r : Bool) → (if a then false else if b then r else false) ≡ true → (b ≡ true) × (r ≡ true)
checks_pass a b r e = ground arith

if_pass : (a r : Bool) → (if a then r else false) ≡ true → (a ≡ true) × (r ≡ true)
if_pass a r e = ground arith

or_true : (a b : Bool) → b ≡ true → a || b ≡ true
or_true a b e = ground arith

validate_loop-some :
    (m : Machine) (ns : List ℤ)
    → validate_loop m ns ≡ true
    → (n : ℤ) → is_member n ns ≡ true
    → (c : ℕ) × (is_on m.mask_size (m.node_to_cpus n) c ≡ true) × (is_on_any m ns c ≡ true)
unfolding validate_loop
validate_loop-some m [] e n here = cc
validate_loop-some m (k ∷ ns) e n here =
    let parts = checks_pass (lt_int m.max_node k) (validate_mask m (m.node_to_cpus k)) _ e in
    elim (Bool-cases (is_int n k)) [
      | inl same ↦
          let found = validate_mask-some m (m.node_to_cpus k) (parts.0) in
          (found.0, rw (int_eq n k same) (found.1), rw (found.1) refl)
      | inr other ↦
          let found = validate_loop-some m ns (parts.1) n (rw other at here) in
          (found.0, found.1, or_true (is_on m.mask_size (m.node_to_cpus k) (found.0)) _ (found.2))
    ]

validate-parts :
    (m : Machine) (ns : List ℤ)
    → validate_numa_nodes m ns ≡ true
    → (m.numa_available ≡ true) × (validate_loop m ns ≡ true) × (ns ≢ [])
unfolding validate_numa_nodes
validate-parts m [] e = cc
validate-parts m (n ∷ ns) e =
    let parts = if_pass m.numa_available (validate_loop m (n ∷ ns)) e in (parts.0, parts.1, λ h. cc)

-- A list of nodes that `validateNumaNodes` accepts is not empty, and each of its nodes has a CPU that
-- `getCpusFromNumaNodes` puts in the list of CPUs.
pub validated-get_cpus :
    (m : Machine) (ns : List ℤ)
    → validate_numa_nodes m ns ≡ true
    → (ns ≢ [])
      × ((n : ℤ)
          → is_member n ns ≡ true
          → (c : ℕ) × (is_on m.mask_size (m.node_to_cpus n) c ≡ true)
            × (is_listed c (get_cpus_from_numa_nodes m ns) ≡ true))
validated-get_cpus m ns e =
    let parts = validate-parts m ns e in
    (
      parts.2,
      λ n here.
          let found = validate_loop-some m ns (parts.1) n here in
          (found.0, found.1, is_listed-get_cpus m ns (found.0) ∙ ap₂ ◌&&◌ (parts.0) (found.2)),
    )

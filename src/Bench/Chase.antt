-- ===== src/Bench/Chase.antt =====
-- src/benchmark.cpp, `measurePointerChaseWithLoad`: the regions, the shuffled indices, the linked nodes,
-- the chase, and the load threads.
--
-- The numbers that `uniform_int_distribution` gives are a parameter. The memory holds a pointer at each
-- address where a node begins; nodes are 64 bytes apart, so that no pointer overlaps another.
use mio_xcena.Base.{
  ℕ, zero, suc, ◌+◌, ◌-◌, ◌*◌, ◌/◌, ◌%◌, ◌==◌, ltb, leb, if◌then◌else◌, Option, none, some,
  for_range,
}

abbrev pub node_size : ℕ
node_size = 64

abbrev pub chase_size_bytes : ℕ
chase_size_bytes = 2 * 1024 * 1024 * 1024

pub record Regions : Type 0 where
  pub chase_data : ℕ
  pub load_data : ℕ
  pub load_size : ℕ
  pub num_nodes : ℕ

-- `none` is the return of `{0, 0}`.
unfoldable pub chase_regions : (base size : ℕ) → Option Regions
chase_regions base size =
    if ltb size chase_size_bytes
    then none
    else some (record {
      chase_data = base;
      load_data = base + chase_size_bytes;
      load_size = size - chase_size_bytes;
      num_nodes = chase_size_bytes / node_size;
    })

-- The node for the index arrays: the first one that is not `membind_node`, from `node` on.
unfoldable pub find_aux_node : (left node : ℕ) → (membind_node : ℕ) → Option ℕ
find_aux_node zero node membind_node = none
find_aux_node (suc left) node membind_node =
    let rest = find_aux_node left (node + 1) membind_node in
    if node == membind_node then rest else some node

-- An array of indices, and `swap(indices[i], indices[j])`.
abbrev pub Indices : Type 0
Indices = ℕ → ℕ

unfoldable pub swap : (i j : ℕ) → Indices → Indices
swap i j indices k = if k == i then indices j else if k == j then indices i else indices k

-- The loop from `i` down to 1; `choice i` is the number drawn in `[0, i]`.
unfoldable pub shuffle : (i : ℕ) → (choice : ℕ → ℕ) → Indices → Indices
shuffle zero choice indices = indices
shuffle (suc i) choice indices = shuffle i choice (swap (suc i) (choice (suc i)) indices)

unfoldable pub shuffled : (num_nodes : ℕ) → (choice : ℕ → ℕ) → Indices
shuffled num_nodes choice = shuffle (num_nodes - 1) choice (λ i. i)

abbrev pub Pointers : Type 0
Pointers = ℕ → ℕ

unfoldable pub store : (address value : ℕ) → Pointers → Pointers
store address value m a = if a == address then value else m a

-- One round of the loop that links the nodes.
unfoldable pub link_node : (chase_data num_nodes : ℕ) → Indices → ℕ → Pointers → Pointers
link_node chase_data num_nodes indices i m =
    let current_node = chase_data + indices i * node_size in
    let next_node = chase_data + indices ((i + 1) % num_nodes) * node_size in
    store current_node next_node m

unfoldable pub link_nodes : (chase_data num_nodes : ℕ) → Indices → Pointers → Pointers
link_nodes chase_data num_nodes indices =
    for_range num_nodes 0 (link_node chase_data num_nodes indices)

-- `current` after a number of rounds of the measurement thread.
unfoldable pub chase : (rounds : ℕ) → Pointers → (current : ℕ) → ℕ
chase zero m current = current
chase (suc n) m current = chase n m (m current)

-- The share of a load thread in `int32_t`, and its offset and bytes after a round.
unfoldable pub load_ints : (load_size num_load_threads : ℕ) → ℕ
load_ints load_size num_load_threads = load_size / num_load_threads / 4

unfoldable pub load_round : (total_ints : ℕ) → ℕ × ℕ → ℕ × ℕ
load_round total_ints (offset, bytes_accessed) =
    (if leb total_ints (offset + 8) then 0 else offset + 8, bytes_accessed + 32)

-- ===== src/Bench/Cycle.antt =====
-- The pointer chase of src/benchmark.cpp goes round all its nodes.
use native.Mathlib.Decide.{dec_lt}
use native.Mathlib.Nat.{mod-eq_of_lt, mod_self, mod-lt}
use mio_xcena.Base.{
  ℕ, zero, suc, ◌+◌, ◌-◌, ◌*◌, ◌%◌, ◌<◌, ◌≤◌, ◌≡◌, refl, ==_refl, ==_ne, eq_or_ne, inl, inr, ltb,
  leb, if◌then◌else◌, ap, sym, ◌∙◌, arith, for_range_zero,
}
use mio_xcena.Bench.Permutation.{IsPermutation, shuffled-IsPermutation}
use mio_xcena.Bench.Chase.{
  Indices, Pointers, shuffled, store, link_node, link_nodes, chase, node_size,
}

module _ (base n : ℕ) (indices : Indices) (p : IsPermutation n indices) where
  -- The address of the node at a place of the order.
  abbrev node : ℕ → ℕ
  node k = base + indices k * node_size

  node-injective : (j k : ℕ) → j < n → k < n → node j ≡ node k → j ≡ k
  node-injective j k a b e =
      let same : indices j ≡ indices k = omega (arith, e) in
      sym (p.place-index j a) ∙ ap p.place same ∙ p.place-index k b

  -- The nodes before place `at` point to their successors.
  record Linked (at : ℕ) (m : Pointers) : Type 0 where
    pub next : (k : ℕ) → k < at → m (node k) ≡ node ((k + 1) % n)

  link_node-Linked :
      (at : ℕ) (m : Pointers)
      → at < n
      → Linked at m
      → Linked (at + 1) (link_node base n indices at m)
  unfolding link_node store
  link_node-Linked at m lt l = record {
    next = λ k below. elim (eq_or_ne k at) [
      | inl same ↦ rw (same, ==_refl (node at)) refl
      | inr other ↦
          let apart =
            ==_ne (node k) (node at) (λ e. other (node-injective k at (omega arith) lt e)) in
          rw apart (l.next k (omega arith))
    ];
  }

  link_nodes-Linked : (m : Pointers) → Linked n (link_nodes base n indices m)
  unfolding link_nodes
  link_nodes-Linked m =
      for_range_zero Linked (link_node base n indices) n link_node-Linked m
        (record { next = λ k below. absurd (omega arith) })

  next_index : (k : ℕ) → k + 1 < n → (k + 1) % n ≡ k + 1
  next_index k lt = mod-eq_of_lt lt

  last_index : (k : ℕ) → k + 1 ≡ n → (k + 1) % n ≡ 0
  last_index k e = rw e (mod_self n)

  module _ (m : Pointers) (linked : Linked n m) where
    -- Along the order, up to its end.
    chase-along : (k from : ℕ) → from + k < n → chase k m (node from) ≡ node (from + k)
    unfolding chase
    chase-along zero from lt = ap node (omega arith)
    chase-along (suc k) from lt =
        let step : m (node from) ≡ node (from + 1) =
          linked.next from (omega arith) ∙ ap node (next_index from (omega arith)) in
        ap (chase k m) step ∙ chase-along k (from + 1) (omega arith) ∙ ap node (omega arith)

    chase-add : (j k a : ℕ) → chase (j + k) m a ≡ chase k m (chase j m a)
    unfolding chase
    chase-add zero k a = let e : 0 + k ≡ k = omega arith in ap (λ i. chase i m a) e
    chase-add (suc j) k a =
        let e : suc j + k ≡ suc (j + k) = omega arith in
        ap (λ i. chase i m a) e ∙ chase-add j k (m a)

    chase-node : (k from : ℕ) → from < n → (to : ℕ) × (to < n) × (chase k m (node from) ≡ node to)
    unfolding chase
    chase-node zero from lt = (from, lt, refl)
    chase-node (suc k) from lt =
        let (to, to_lt, e) = chase-node k ((from + 1) % n) (mod-lt (from + 1) (omega arith)) in
        (to, to_lt, ap (chase k m) (linked.next from lt) ∙ e)

    -- From a place past the end, and on from the first node.
    chase-round :
        (k from : ℕ)
        → from < n
        → n ≤ from + k
        → from + k < n + n
        → chase k m (node from) ≡ node (from + k - n)
    unfolding chase
    chase-round k from lt past within =
        let last : m (node (n - 1)) ≡ node 0 =
          linked.next (n - 1) (omega arith) ∙ ap node (last_index (n - 1) (omega arith)) in
        let there : chase (n - 1 - from) m (node from) ≡ node (n - 1) =
          chase-along (n - 1 - from) from (omega arith) ∙ ap node (omega arith) in
        let split : k ≡ n - 1 - from + suc (k - (n - from)) = omega arith in
        ap (λ i. chase i m (node from)) split
        ∙ chase-add (n - 1 - from) (suc (k - (n - from))) (node from)
        ∙ ap (chase (suc (k - (n - from))) m) there
        ∙ ap (chase (k - (n - from)) m) last
        ∙ chase-along (k - (n - from)) 0 (omega arith)
        ∙ ap node (omega arith)

    -- The number of rounds from one place to another.
    abbrev rounds_to : (from to : ℕ) → ℕ
    rounds_to from to = if leb from to then to - from else to + n - from

    -- Where the chase is after fewer than `n` rounds.
    abbrev place_after : (from k : ℕ) → ℕ
    place_after from k = if ltb (from + k) n then from + k else from + k - n

    place_before : (from k : ℕ) → from + k < n → place_after from k ≡ from + k
    place_before from k lt = ground arith

    place_past : (from k : ℕ) → n ≤ from + k → place_after from k ≡ from + k - n
    place_past from k le = ground arith

    chase-place_after :
        (k from : ℕ) → from < n → k < n → chase k m (node from) ≡ node (place_after from k)
    chase-place_after k from lt small = elim (dec_lt (from + k) n) [
      | yes below ↦ chase-along k from below ∙ ap node (sym (place_before from k below))
      | no over ↦
          chase-round k from lt (omega arith) (omega arith)
          ∙ ap node (sym (place_past from k (omega arith)))
    ]

    place_after_lt : (from k : ℕ) → from < n → k < n → place_after from k < n
    place_after_lt from k a b = ground arith

    arrive : (from to : ℕ) → from < n → to < n → place_after from (rounds_to from to) ≡ to
    arrive from to a b = ground arith

    visits_once :
        (from to : ℕ)
        → from < n
        → to < n
        → (k : ℕ) × (k < n)
          × (chase k m (node from) ≡ node to)
          × ((j : ℕ) → j < n → chase j m (node from) ≡ node to → j ≡ k)
    visits_once from to a b = (
      rounds_to from to,
      ground arith,
      chase-place_after (rounds_to from to) from a (ground arith) ∙ ap node (arrive from to a b),
      λ j lt e.
          let same : place_after from j ≡ to =
            node-injective (place_after from j) to (place_after_lt from j a lt) b
              (sym (chase-place_after j from a lt) ∙ e) in
          ground arith,
    )

    returns : (from : ℕ) → from < n → chase n m (node from) ≡ node from
    returns from lt = chase-round n from lt (omega arith) (omega arith) ∙ ap node (omega arith)

    node-place : (v : ℕ) → v < n → node (p.place v) ≡ base + v * node_size
    node-place v lt = ap (λ i. base + i * node_size) (p.index-place v lt)

    -- The first node is at the start of the region.
    node-start : 1 ≤ n → node (p.place 0) ≡ base
    node-start some = node-place 0 some ∙ (omega arith)

    visits_from_start :
        (v : ℕ)
        → v < n
        → (k : ℕ) × (k < n)
          × (chase k m base ≡ base + v * node_size)
          × ((j : ℕ) → j < n → chase j m base ≡ base + v * node_size → j ≡ k)
    visits_from_start v lt =
        let start = node-start (omega arith) in
        let visit =
          visits_once (p.place 0) (p.place v) (p.place_lt 0 (omega arith)) (p.place_lt v lt) in
        (
          visit.0,
          visit.1,
          ap (chase (visit.0) m) (sym start) ∙ visit.2 ∙ node-place v lt,
          λ j below e. visit.3 j below (ap (chase j m) start ∙ e ∙ sym (node-place v lt)),
        )

    returns_to_start : 1 ≤ n → chase n m base ≡ base
    returns_to_start some =
        let start = node-start some in
        ap (chase n m) (sym start) ∙ returns (p.place 0) (p.place_lt 0 some) ∙ start

-- However the indices are shuffled, the nodes form one cycle: a chase from the start of the region is at
-- each of the `n` nodes after exactly one number of rounds below `n`, and after `n` rounds it is back.
pub chase_cycle :
    (base n : ℕ) (choice : ℕ → ℕ) (m : Pointers)
    → 1 ≤ n
    → ((k : ℕ) → choice k ≤ k)
    → let linked = link_nodes base n (shuffled n choice) m in
      (chase n linked base ≡ base)
      × ((v : ℕ)
          → v < n
          → (k : ℕ) × (k < n)
            × (chase k linked base ≡ base + v * node_size)
            × ((j : ℕ) → j < n → chase j linked base ≡ base + v * node_size → j ≡ k))
chase_cycle base n choice m some low =
    let p = shuffled-IsPermutation n choice some low in
    let linked = link_nodes-Linked base n (shuffled n choice) p m in
    (
      returns_to_start base n (shuffled n choice) p _ linked some,
      visits_from_start base n (shuffled n choice) p _ linked,
    )

-- After any number of rounds, a chase from the start of the region is at some node.
pub chase_at_node :
    (base n : ℕ) (choice : ℕ → ℕ) (m : Pointers)
    → 1 ≤ n
    → ((k : ℕ) → choice k ≤ k)
    → (i : ℕ)
    → (v : ℕ) × (v < n)
      × (chase i (link_nodes base n (shuffled n choice) m) base ≡ base + v * node_size)
chase_at_node base n choice m some low i =
    let p = shuffled-IsPermutation n choice some low in
    let linked = link_nodes-Linked base n (shuffled n choice) p m in
    let (to, lt, e) =
      chase-node base n (shuffled n choice) p _ linked i (p.place 0) (p.place_lt 0 some) in
    let start = node-start base n (shuffled n choice) p _ linked some in
    (
      shuffled n choice to,
      p.index_lt to lt,
      ap (chase i (link_nodes base n (shuffled n choice) m)) (sym start) ∙ e,
    )

pub chase-next : (i : ℕ) (m : Pointers) (a : ℕ) → chase (i + 1) m a ≡ m (chase i m a)
unfolding chase
chase-next zero m a = refl
chase-next (suc i) m a =
    let e : suc i + 1 ≡ suc (i + 1) = omega arith in ap (λ k. chase k m a) e ∙ chase-next i m (m a)

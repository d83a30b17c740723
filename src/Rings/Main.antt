-- ===== src/Rings/Main.antt =====
-- custom-test/test4-nowait.c, `main`: what it takes from the system and gives back, on each way through.
use mio_xcena.Base.{
  ℕ, zero, suc, ◌+◌, ◌*◌, Bool, ◌&&◌, not, if◌then◌else◌, List, [], ◌∷◌, ◌++◌, u32,
}

-- The environment layer of DPDK, the store, the result file, the array of rings, and each ring.
pub data Resource : Type 0 where
  eal store csv rings : Resource
  ring : (i : ℕ) → Resource

pub data Event : Type 0 where
  gain drop : (r : Resource) → Event

-- Whether each of the calls succeeds, in the order of the calls: `parse_args`, `rte_eal_init`, the
-- products of `checked_mul_u64`, the allocation of the store, `fopen` (where a file is asked for), the
-- array of rings, each `rte_ring_create`, and `read_rdma` of each turn.
pub record Calls : Type 0 where
  pub parse_args : Bool
  pub eal_init : Bool
  pub sizes : Bool
  pub store : Bool
  pub wants_csv : Bool
  pub csv : Bool
  pub rings : Bool
  pub ring : ℕ → Bool
  pub read_rdma : ℕ → Bool

-- The events, and the return value.
pub record Outcome : Type 0 where
  pub events : List Event
  pub ret : ℕ

abbrev pub close_csv : Bool → List Event
close_csv b = if b then drop csv ∷ [] else []

-- `for (k = 0; k < i; k++) rte_ring_free(rings[k])`
unfoldable pub free_rings : (left k : ℕ) → List Event
free_rings zero k = []
free_rings (suc left) k = drop (ring k) ∷ free_rings left (k + 1)

-- The loop over the turns, and the end. `write_turn` returns 0 always.
unfoldable pub run_turns : Calls → (left turn : ℕ) → Outcome
run_turns c zero turn = record { events = close_csv c.wants_csv ++ (drop store ∷ []); ret = 0 }
run_turns c (suc left) turn =
    let rest = run_turns c left (turn + 1) in
    if not (c.read_rdma turn)
    then record { events = close_csv c.wants_csv ++ (drop store ∷ []); ret = 1 }
    else rest

-- The loop that creates the rings, and what follows it.
unfoldable pub create_rings : Calls → (rounds left i : ℕ) → Outcome
unfolding free_rings run_turns
create_rings c rounds zero i = run_turns c rounds 1
create_rings c rounds (suc left) i =
    let rest = create_rings c rounds left (i + 1) in
    if not (c.ring i)
    then record {
      events =
          free_rings i 0 ++ (drop rings ∷ drop store ∷ (close_csv c.wants_csv ++ (drop eal ∷ [])));
      ret = 1;
    }
    else record { events = gain (ring i) ∷ rest.events; ret = rest.ret }

-- From the array of rings on.
unfoldable pub with_rings : Calls → (requests rounds : ℕ) → Outcome
unfolding create_rings
with_rings c requests rounds =
    let r = create_rings c rounds (u32 (requests * 2)) 0 in
    if not c.rings
    then record { events = drop store ∷ (close_csv c.wants_csv ++ (drop eal ∷ [])); ret = 1 }
    else record { events = gain rings ∷ r.events; ret = r.ret }

-- From the allocation of the store on.
unfoldable pub with_store : Calls → (requests rounds : ℕ) → Outcome
unfolding with_rings
with_store c requests rounds =
    let r = with_rings c requests rounds in
    if not c.store
    then record { events = []; ret = 1 }
    else if c.wants_csv && not c.csv
    then record { events = gain store ∷ drop store ∷ []; ret = 1 }
    else record {
      events = gain store ∷ ((if c.wants_csv then gain csv ∷ [] else []) ++ r.events);
      ret = r.ret;
    }

unfoldable pub main : Calls → (requests rounds : ℕ) → Outcome
unfolding with_store
main c requests rounds =
    let r = with_store c requests rounds in
    if not c.parse_args
    then record { events = []; ret = 1 }
    else if not c.eal_init
    then record { events = []; ret = 1 }
    else if not c.sizes
    then record { events = gain eal ∷ []; ret = 1 }
    else record { events = gain eal ∷ r.events; ret = r.ret }

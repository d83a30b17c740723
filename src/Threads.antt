-- ===== src/Threads.antt =====
-- custom-test/test2-rdma-fin.c, `run_one_sweep`: what it allocates, which threads it creates and joins, how
-- it opens the gate and what it frees, for every outcome of its allocations and of `pthread_create`.
pub mod Slots
pub mod Joined
mod Tests
use mio_xcena.Base.{
  ℕ, zero, suc, ◌+◌, Bool, true, false, ◌&&◌, ◌||◌, ◌==◌, not, if◌then◌else◌, List, [], ◌∷◌, ◌++◌,
  u32,
}
use mio_xcena.Monitor.{
  scratch, request, node, threads, args, gate, dctx, nic, reader_args, response_ready, Event,
  acquire, release, create, create_card, join_card, open_gate, join, free_if, acquire_if,
}

-- Whether the allocations before the first thread succeed, and the creation of the NIC thread.
pub record Setup : Type 0 where
  pub threads : Bool
  pub args : Bool
  pub dctx : Bool
  pub nic : Bool
  pub response_ready : Bool
  pub reader_args : Bool
  pub rnic : Bool

-- Whether the allocations for one reader succeed, and its creation.
pub record Reader : Type 0 where
  pub scratch : Bool
  pub rdma_req : Bool
  pub node_pool : Bool
  pub thread : Bool

-- Which pointers of `args[i]` are not NULL.
pub record Slot : Type 0 where
  pub scratch : Bool
  pub rdma_req : Bool
  pub node_pool : Bool

-- What `calloc` leaves.
abbrev pub empty_slot : Slot
empty_slot = record { scratch = false; rdma_req = false; node_pool = false }

abbrev pub put_slot : (ℕ → Slot) → ℕ → Slot → ℕ → Slot
put_slot f i s j = if i == j then s else f j

abbrev pub acquire_slot : ℕ → Slot → List Event
acquire_slot i s =
    acquire_if s.scratch (scratch i)
    ++ (acquire_if s.rdma_req (request i) ++ acquire_if s.node_pool (node i))

abbrev pub free_slot : ℕ → Slot → List Event
free_slot i s =
    free_if s.scratch (scratch i)
    ++ (free_if s.rdma_req (request i) ++ free_if s.node_pool (node i))

-- What the creation loop leaves.
pub record Created : Type 0 where
  pub events : List Event
  pub created : ℕ
  pub complete : Bool
  pub slots : ℕ → Slot

-- One of the exits of the loop in round `i`, when `slot` is what the round has allocated.
abbrev pub stop : (i created : ℕ) → (slots : ℕ → Slot) → Slot → Created
stop i created slots slot = record {
  events = acquire_slot i slot ++ (open_gate created ∷ []);
  created = created;
  complete = false;
  slots = put_slot slots i slot;
}

unfoldable pub create_readers :
    (copy_to_dst : Bool) → (ℕ → Reader) → (left i created : ℕ) → (slots : ℕ → Slot) → Created
create_readers copy_to_dst reader zero i created slots = record {
  events = [];
  created = created;
  complete = true;
  slots = slots;
}
create_readers copy_to_dst reader (suc left) i created slots =
    let r = reader i in
    let has = copy_to_dst && r.scratch in
    let slot : Slot = record { scratch = has; rdma_req = r.rdma_req; node_pool = r.node_pool } in
    let rest =
      create_readers copy_to_dst reader left (i + 1) (u32 (created + 1)) (put_slot slots i slot) in
    if copy_to_dst && not has
    then stop i created slots empty_slot
    else if (not r.rdma_req || not r.node_pool) || not r.thread
    then stop i created slots slot
    else record {
      events = acquire_slot i slot ++ (create i ∷ rest.events);
      created = rest.created;
      complete = rest.complete;
      slots = rest.slots;
    }

-- `for (i = 0; i < created; i++) pthread_join(threads[i], NULL)`
unfoldable pub join_readers : (left i : ℕ) → List Event
join_readers zero i = []
join_readers (suc left) i = join i ∷ join_readers left (i + 1)

unfoldable pub free_slots : (slots : ℕ → Slot) → (left i : ℕ) → List Event
free_slots slots zero i = []
free_slots slots (suc left) i = free_slot i (slots i) ++ free_slots slots left (i + 1)

-- The allocations after the first three, each of which is made only if the one before has succeeded.
abbrev pub has_nic : Setup → Bool
has_nic s = (s.threads && s.args && s.dctx) && s.nic

abbrev pub has_response_ready : Setup → Bool
has_response_ready s = has_nic s && s.response_ready

abbrev pub has_reader_args : Setup → Bool
has_reader_args s = has_response_ready s && s.reader_args

-- Up to the creation of the NIC thread.
abbrev pub allocate_sweep : Setup → List Event
allocate_sweep s =
    acquire_if s.threads threads
    ++ (acquire_if s.args args
        ++ (acquire_if s.dctx dctx
            ++ (acquire_if (has_nic s) nic
                ++ (acquire_if (has_response_ready s) response_ready
                    ++ (acquire_if (has_reader_args s) reader_args
                        ++ acquire_if (has_reader_args s) gate)))))

-- From `gate_destroy` on.
abbrev pub last_frees : Setup → List Event
last_frees s =
    release gate
    ∷ (free_if (has_nic s) nic
        ++ (free_if (has_reader_args s) reader_args
            ++ (free_if (has_response_ready s) response_ready
                ++ (free_if s.dctx dctx ++ (free_if s.threads threads ++ free_if s.args args)))))

-- From `join_fail` on. With `rnic_started` not all readers were created, so `rnic_thread` waits for more requests
-- than are sent, and the join of it never returns: nothing follows it.
unfoldable pub join_fail :
    Setup → (active_requests created : ℕ) → (rnic_started : Bool) → (ℕ → Slot) → List Event
unfolding join_readers free_slots
join_fail s active_requests created rnic_started slots =
    join_readers created 0
    ++ (if rnic_started
        then []
        else (if s.args then free_slots slots active_requests 0 else []) ++ last_frees s)

-- The events, whether `run_one_sweep` returns, and whether the return value is 0.
pub record Outcome : Type 0 where
  pub events : List Event
  pub returns : Bool
  pub success : Bool

unfoldable pub run_one_sweep :
    (copy_to_dst : Bool) → (active_requests : ℕ) → Setup → (ℕ → Reader) → Outcome
unfolding create_readers join_readers join_fail
run_one_sweep copy_to_dst active_requests s reader =
    let c = create_readers copy_to_dst reader active_requests 0 0 (λ _. empty_slot) in
    let finish =
      if c.complete
      then open_gate active_requests
        ∷ (join_readers c.created 0 ++ (join_card ∷ join_fail s active_requests 0 false c.slots))
      else join_fail s active_requests c.created true c.slots in
    if not (has_reader_args s && s.rnic)
    then record {
      events = allocate_sweep s ++ join_fail s active_requests 0 false (λ _. empty_slot);
      returns = true;
      success = false;
    }
    else record {
      events = allocate_sweep s ++ (create_card ∷ (c.events ++ finish));
      returns = c.complete;
      success = c.complete;
    }

-- ===== src/Plain/Resources.antt =====
-- custom-test/test2.c, `run_one_sweep`: what it allocates, which threads it creates and joins, how it opens the
-- gate and what it frees, for every outcome of its allocations and of `pthread_create`.
--
-- The handle of a thread that has been created is not zero, so the test `if (threads[i])` passes. The buffers
-- come from `posix_memalign`, so `free` releases them. `read_cumulative` of custom-test/test3-mt.c has the same
-- lines, but its buffers come from `mmap`, and what its `free` of them does is undefined; it is not
-- modelled here.
use mio_xcena.Base.{
  ℕ, zero, suc, ◌+◌, ◌-◌, Bool, true, false, ◌&&◌, not, if◌then◌else◌, List, [], ◌∷◌, ◌++◌, u32,
}
use mio_xcena.Monitor.{
  scratch, threads, args, gate, Event, acquire, release, create, open_gate, join, free_if,
  acquire_if,
}
use mio_xcena.Monitor.Steps.{put}

-- Whether the two arrays can be allocated.
pub record Setup : Type 0 where
  pub threads : Bool
  pub args : Bool

-- Whether the buffer of a reader can be allocated, and its thread created.
pub record Reader : Type 0 where
  pub scratch : Bool
  pub thread : Bool

-- What the creation loop leaves; `buffers` tells which pointers `args[i].scratch` are not NULL.
pub record Created : Type 0 where
  pub events : List Event
  pub created : ℕ
  pub complete : Bool
  pub buffers : ℕ → Bool

-- One of the two exits of the loop, with the events of its round so far.
abbrev pub stop : (events : List Event) → (created : ℕ) → (buffers : ℕ → Bool) → Created
stop events created buffers = record {
  events = events ++ (open_gate created ∷ []);
  created = created;
  complete = false;
  buffers = buffers;
}

unfoldable pub create_readers :
    (copy_to_dst : Bool) → (ℕ → Reader) → (left i created : ℕ) → (buffers : ℕ → Bool) → Created
create_readers copy_to_dst reader zero i created buffers = record {
  events = [];
  created = created;
  complete = true;
  buffers = buffers;
}
create_readers copy_to_dst reader (suc left) i created buffers =
    let has = copy_to_dst && (reader i).scratch in
    let kept = put buffers i has in
    let rest = create_readers copy_to_dst reader left (i + 1) (u32 (created + 1)) kept in
    if copy_to_dst && not has
    then stop [] created kept
    else if not (reader i).thread
    then stop (acquire_if has (scratch i)) created kept
    else record {
      events = acquire_if has (scratch i) ++ (create i ∷ rest.events);
      created = rest.created;
      complete = rest.complete;
      buffers = rest.buffers;
    }

-- The loop of `pthread_join` after `gate_open`.
unfoldable pub join_all : (left i : ℕ) → List Event
join_all zero i = []
join_all (suc left) i = join i ∷ join_all left (i + 1)

-- The two loops at `join_fail`.
unfoldable pub join_and_free : (buffers : ℕ → Bool) → (left i : ℕ) → List Event
join_and_free buffers zero i = []
join_and_free buffers (suc left) i =
    join i ∷ (free_if (buffers i) (scratch i) ++ join_and_free buffers left (i + 1))

unfoldable pub free_rest : (buffers : ℕ → Bool) → (left i : ℕ) → List Event
free_rest buffers zero i = []
free_rest buffers (suc left) i = free_if (buffers i) (scratch i) ++ free_rest buffers left (i + 1)

-- From `join_fail` on.
unfoldable pub join_fail : (requests created : ℕ) → (buffers : ℕ → Bool) → List Event
unfolding join_and_free free_rest
join_fail requests created buffers =
    join_and_free buffers created 0
    ++ (free_rest buffers (requests - created) created
        ++ (release gate ∷ release threads ∷ release args ∷ []))

-- The events, and whether the return value is 0.
pub record Outcome : Type 0 where
  pub events : List Event
  pub success : Bool

unfoldable pub sweep_run : (copy_to_dst : Bool) → (requests : ℕ) → Setup → (ℕ → Reader) → Outcome
unfolding create_readers join_all join_fail
sweep_run copy_to_dst requests s reader =
    let c = create_readers copy_to_dst reader requests 0 0 (λ _. false) in
    let finish =
      if c.complete
      then open_gate requests ∷ (join_all requests 0 ++ join_fail requests 0 c.buffers)
      else join_fail requests c.created c.buffers in
    if not (s.threads && s.args)
    then record {
      events =
          acquire_if s.threads threads
          ++ (acquire_if s.args args ++ (free_if s.threads threads ++ free_if s.args args));
      success = false;
    }
    else record {
      events = acquire threads ∷ acquire args ∷ acquire gate ∷ (c.events ++ finish);
      success = c.complete;
    }

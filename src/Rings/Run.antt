-- ===== src/Rings/Run.antt =====
-- custom-test/test4-nowait.c, `read_rdma`: what it allocates, which threads it creates and joins, how it
-- opens the gate and what it frees. The loops that it shares with `read_cumulative` are those of
-- Plain.Resources.
--
-- Only runs without a failed `calloc` are modelled: after one, the source jumps over the
-- initialisation of `created` and of the gate that it then uses, or stores through NULL.
use mio_xcena.Base.{
  ℕ, zero, suc, ◌+◌, ◌-◌, ◌^◌, Bool, true, false, ◌&&◌, not, leb, if◌then◌else◌, List, [], ◌∷◌,
  ◌++◌, u32,
}
use mio_xcena.Monitor.{
  scratch, request, threads, args, gate, dctx, nic, reader_args, to_nic, to_reader, Event, acquire,
  release, create, open_gate, join, free_if, acquire_if,
}
use mio_xcena.Monitor.Steps.{put}
use mio_xcena.Plain.Resources.{join_all, free_rest}

-- For one reader: whether its buffer can be allocated, whether both its rings exist, and whether its
-- thread can be created.
pub record Reader : Type 0 where
  pub scratch : Bool
  pub rings : Bool
  pub thread : Bool

-- The ways out of the first loop: at its end, by `goto join_out`, and by `return 1`.
pub data Exit : Type 0 where
  ready : Exit
  failed : Exit
  no_rings : Exit

pub record Prepared : Type 0 where
  pub events : List Event
  pub created : ℕ
  pub buffers : ℕ → Bool
  pub exit : Exit

-- The first loop, which creates no thread.
unfoldable pub prepare :
    (copy_to_dst : Bool) → (ℕ → Reader) → (left i created : ℕ) → (buffers : ℕ → Bool) → Prepared
prepare copy_to_dst reader zero i created buffers = record {
  events = [];
  created = created;
  buffers = buffers;
  exit = ready;
}
prepare copy_to_dst reader (suc left) i created buffers =
    let has = copy_to_dst && (reader i).scratch in
    let kept = put buffers i has in
    let taken = acquire_if has (scratch i) ++ (acquire (request i) ∷ []) in
    let rest = prepare copy_to_dst reader left (i + 1) (u32 (created + 1)) kept in
    if copy_to_dst && not has
    then record {
      events = taken ++ (open_gate created ∷ []);
      created = created;
      buffers = kept;
      exit = failed;
    }
    else if not (reader i).rings
    then record { events = taken; created = created; buffers = kept; exit = no_rings }
    else record {
      events = taken ++ rest.events;
      created = rest.created;
      buffers = rest.buffers;
      exit = rest.exit;
    }

-- What the second loop leaves; `handles` tells which of the `threads[i]` are not zero.
pub record Created : Type 0 where
  pub events : List Event
  pub created : ℕ
  pub handles : ℕ → Bool
  pub complete : Bool

-- The second loop, which goes on counting where the first has ended.
unfoldable pub create_readers : (ℕ → Reader) → (left i created : ℕ) → (handles : ℕ → Bool) → Created
create_readers reader zero i created handles = record {
  events = [];
  created = created;
  handles = handles;
  complete = true;
}
create_readers reader (suc left) i created handles =
    let rest = create_readers reader left (i + 1) (u32 (created + 1)) (put handles i true) in
    if not (reader i).thread
    then record {
      events = open_gate created ∷ [];
      created = created;
      handles = handles;
      complete = false;
    }
    else record {
      events = create i ∷ rest.events;
      created = rest.created;
      handles = rest.handles;
      complete = rest.complete;
    }

-- The first loop at `join_out`, with a `created` that is at most `requests`.
unfoldable pub join_and_free : (handles buffers : ℕ → Bool) → (left i : ℕ) → List Event
join_and_free handles buffers zero i = []
join_and_free handles buffers (suc left) i =
    (if handles i then join i ∷ [] else [])
    ++ (free_if (buffers i) (scratch i) ++ join_and_free handles buffers left (i + 1))

-- How a run ends. `undefined` comes after an access beyond the end of `args`.
pub data Run : Type 0 where
  returns : (events : List Event) → (ret : ℕ) → Run
  undefined : (events : List Event) → Run

abbrev pub events_of : Run → List Event
events_of (returns es ret) = es
events_of (undefined es) = es

-- What is freed after the buffers.
abbrev pub last_frees : List Event
last_frees =
    release gate
    ∷ release nic
    ∷ release reader_args
    ∷ release to_nic
    ∷ release to_reader
    ∷ release dctx
    ∷ release threads
    ∷ release args
    ∷ []

-- From `join_out` on, after the events before it.
unfoldable pub join_out :
    (requests created : ℕ) → (handles buffers : ℕ → Bool) → (ret : ℕ) → List Event → Run
unfolding join_and_free free_rest
join_out requests created handles buffers ret before =
    if leb created requests
    then returns
        (before
          ++ (join_and_free handles buffers created 0
              ++ (free_rest buffers (requests - created) created ++ last_frees)))
        ret
    else undefined (before ++ join_and_free handles buffers requests 0)

-- -1 as an `int`
abbrev pub minus_one : ℕ
minus_one = 2 ^ 32 - 1

-- From the second loop on.
unfoldable pub run_readers : (requests : ℕ) → (ℕ → Reader) → Prepared → List Event → Run
unfolding create_readers join_all join_out
run_readers requests reader p before =
    let c = create_readers reader requests 0 p.created (λ _. false) in
    let ran = before ++ c.events in
    if c.complete
    then join_out requests 0 c.handles p.buffers 0
        (ran ++ (open_gate requests ∷ (join_all requests 0 ++ (join requests ∷ []))))
    else join_out requests c.created c.handles p.buffers minus_one ran

-- After the first loop.
unfoldable pub after_prepare : (requests : ℕ) → (ℕ → Reader) → Prepared → Exit → List Event → Run
unfolding run_readers join_out
after_prepare requests reader p ready before = run_readers requests reader p before
after_prepare requests reader p failed before =
    join_out requests p.created (λ _. false) p.buffers minus_one before
after_prepare requests reader p no_rings before = returns before 1

-- What is allocated first.
abbrev pub allocations : List Event
allocations =
    acquire threads
    ∷ acquire args
    ∷ acquire dctx
    ∷ acquire nic
    ∷ acquire reader_args
    ∷ acquire to_nic
    ∷ acquire to_reader
    ∷ acquire gate
    ∷ []

unfoldable pub read_rdma : (copy_to_dst : Bool) → (requests : ℕ) → (ℕ → Reader) → Run
unfolding prepare after_prepare
read_rdma copy_to_dst requests reader =
    let p = prepare copy_to_dst reader requests 0 0 (λ _. false) in
    after_prepare requests reader p p.exit (allocations ++ p.events)

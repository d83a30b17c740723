-- ===== src/Threads/Tests.antt =====
-- Runs of `run_one_sweep` (custom-test/test2-rdma-fin.c): the second reader cannot be created.
use mio_xcena.Base.{ℕ, ◌≡◌, ◌==◌, refl, true, false, not, List, [], ◌∷◌}
use mio_xcena.Monitor.{scratch, request, node, Event, acquire, create, open_gate}
use mio_xcena.Threads.{Setup, Reader, create_readers, empty_slot, run_one_sweep}

abbrev all_there : Setup
all_there = record {
  threads = true;
  args = true;
  dctx = true;
  nic = true;
  response_ready = true;
  reader_args = true;
  rnic = true;
}

abbrev second_fails : ℕ → Reader
second_fails i = record { scratch = true; rdma_req = true; node_pool = true; thread = not (i == 1) }

abbrev first_events : List Event
first_events =
    acquire (scratch 0)
    ∷ acquire (request 0)
    ∷ acquire (node 0)
    ∷ create 0
    ∷ acquire (scratch 1)
    ∷ acquire (request 1)
    ∷ acquire (node 1)
    ∷ open_gate 1
    ∷ []

second_stops : (create_readers true second_fails 3 0 0 (λ _. empty_slot)).events ≡ first_events
unfolding create_readers
second_stops = refl

-- All readers can be created.
abbrev none_fails : ℕ → Reader
none_fails i = record { scratch = true; rdma_req = true; node_pool = true; thread = true }

-- It returns, and does not if the second reader cannot be created.
when_it_returns :
    ((run_one_sweep true 3 all_there none_fails).returns ≡ true)
    × ((run_one_sweep true 3 all_there second_fails).returns ≡ false)
unfolding run_one_sweep create_readers
when_it_returns = (refl, refl)

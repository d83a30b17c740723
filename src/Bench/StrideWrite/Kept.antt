-- ===== src/Bench/StrideWrite/Kept.antt =====
-- What the threads of `measureStrideWrite` (src/benchmark.cpp) and the thread that joins them know of one
-- another in every state.
use mio_xcena.Base.{
  set_at, each, total-set_at, ℕ, ◌+◌, ◌<◌, ◌≤◌, ◌^◌, ◌≡◌, ◌≢◌, refl, Bool, true, false, not, u32,
  Memory, arith, total, total-le, eq_or_ne, inl, inr, ==_ne,
}
use mio_xcena.Bench.StrideWrite.{
  Worker, setting_up, spinning, writing, finished, Main, waiting, joining, joined, Team, Step,
  arrive, begin, store, finish, start_all, join, all_joined, Reach, start, later, init,
}

abbrev pub arrived : Worker → ℕ
arrived setting_up = 0
arrived spinning = 1
arrived (writing _ _ _) = 1
arrived finished = 1

abbrev pub has_begun : Worker → Bool
has_begun setting_up = false
has_begun spinning = false
has_begun (writing _ _ _) = true
has_begun finished = true

abbrev pub is_waiting : Main → Bool
is_waiting waiting = true
is_waiting (joining k) = false
is_waiting joined = false

-- How many threads are joined.
abbrev pub join_count : ℕ → Main → ℕ
join_count n waiting = 0
join_count n (joining k) = k
join_count n joined = n

arrived-le : (w : Worker) → arrived w ≤ 1
arrived-le w = ground arith

pub record Control (n : ℕ) (s : Team) : Type 0 where
  pub ready : s.ready_count ≡ total n (λ i. arrived (s.worker i))
  pub released : s.start_flag ≡ true → n ≤ s.ready_count
  pub begun : (t : ℕ) → has_begun (s.worker t) ≡ true → s.start_flag ≡ true
  pub waits : is_waiting s.main ≡ not s.start_flag
  pub ended : (t : ℕ) → t < join_count n s.main → s.worker t ≡ finished
  pub limit : join_count n s.main ≤ n

module _ (num_threads size block_size stride : ℕ) (small : num_threads < 2 ^ 31) where
  init-Control : (m : Memory) → Control num_threads (init num_threads size block_size stride m)
  init-Control m = record {
    ready = omega (arith, total-le num_threads 0 (λ i. 0) (λ i. omega arith));
    released = λ e. cc;
    begun = λ t e. cc;
    waits = refl;
    ended = λ t lt. absurd (omega arith);
    limit = omega arith;
  }

  -- Thread `t`, which is not finished, changes to a state with the same or a later `arrived`.
  moved-Control :
      (s : Team) (t ready_count bytes_processed : ℕ) (memory : Memory) (v : Worker)
      → t < num_threads
      → s.worker t ≢ finished
      → ready_count + arrived (s.worker t) ≡ s.ready_count + arrived v
      → s.ready_count ≤ ready_count
      → (has_begun v ≡ true → s.start_flag ≡ true)
      → Control num_threads s
      → Control num_threads (record s {
        worker = set_at s.worker t v;
        ready_count = ready_count;
        bytes_processed = bytes_processed;
        memory = memory;
      })
  moved-Control s t ready_count bytes_processed memory v lt unfinished sum grows before c = record {
    ready = omega (arith, total-set_at arrived num_threads s.worker t v lt, c.ready, sum);
    released = λ e. omega (arith, c.released e);
    begun = each (λ i w. has_begun w ≡ true → s.start_flag ≡ true) s.worker t v before c.begun;
    waits = c.waits;
    ended = λ i i_lt. elim (eq_or_ne t i) [
      | inl e ↦ absurd (unfinished (rw e (c.ended i i_lt)))
      | inr ne ↦ rw (==_ne t i ne) (c.ended i i_lt)
    ];
    limit = c.limit;
  }

  arrive-small :
      (s : Team) (t : ℕ)
      → t < num_threads
      → s.worker t ≡ setting_up
      → Control num_threads s
      → u32 (s.ready_count + 1) ≡ s.ready_count + 1
  arrive-small s t lt e c = omega (
    arith,
    c.ready,
    total-le num_threads 1 (λ i. arrived (s.worker i)) (λ i. arrived-le (s.worker i)),
  )

  step-Control :
      {s s' : Team}
      → Step num_threads size block_size stride s s'
      → Control num_threads s
      → Control num_threads s'
  step-Control {s} (arrive t lt e) c =
      moved-Control s t _ s.bytes_processed s.memory spinning lt (λ f. cc)
        (rw e (omega (arith, arrive-small s t lt e c))) (omega (arith, arrive-small s t lt e c))
        (λ f. cc) c
  step-Control {s} (begin t todo lt e open_flag is) c =
      moved-Control s t s.ready_count s.bytes_processed s.memory _ lt (λ f. cc) (rw e refl)
        (omega arith) (λ f. open_flag) c
  step-Control {s} (store t offset todo local_bytes access_count lt e) c =
      moved-Control s t s.ready_count _ _ _ lt (λ f. cc) (rw e refl) (omega arith)
        (λ f. c.begun t (rw e refl)) c
  step-Control {s} (finish t local_bytes access_count lt e) c =
      moved-Control s t s.ready_count _ s.memory _ lt (λ f. cc) (rw e refl) (omega arith)
        (λ f. c.begun t (rw e refl)) c
  step-Control {s} (start_all e full) c = record {
    ready = c.ready;
    released = λ f. full;
    begun = λ t f. refl;
    waits = refl;
    ended = λ t lt. absurd (omega arith);
    limit = omega arith;
  }
  step-Control {s} (join k e lt done) c = record {
    ready = c.ready;
    released = c.released;
    begun = c.begun;
    waits = ground (arith, c.waits);
    ended = λ t t_lt. elim (eq_or_ne t k) [
      | inl same ↦ rw same done
      | inr ne ↦ c.ended t (rw e (omega arith))
    ];
    limit = omega arith;
  }
  step-Control {s} (all_joined e) c = record {
    ready = c.ready;
    released = c.released;
    begun = c.begun;
    waits = ground (arith, c.waits);
    ended = λ t t_lt. c.ended t (rw e t_lt);
    limit = omega arith;
  }

  pub Reach-Control :
      {m : Memory} {s : Team} → Reach num_threads size block_size stride m s → Control num_threads s
  Reach-Control {m} start = init-Control m
  Reach-Control (later r st) = step-Control st (Reach-Control r)

-- ===== src/Bench/Loaded.antt =====
-- src/benchmark.cpp, `measurePointerChaseWithLoad` from its threads on: the measuring thread, which follows the
-- pointers, the load threads, which read and write behind the chase region until it stops them, and the thread
-- that starts and joins them, in any interleaving. With ENABLE_LATENCY_MEASURE, also `latency_buffer` of the
-- measuring thread and `collectLatencyBuffers` of src/latency_measure.cpp.
--
-- What the CPU's counter says is a parameter of each step. A store of a load thread changes what is read
-- at its 32 bytes in any way. The delay between two loads changes no memory and is left out.
pub mod Undisturbed
pub mod Control
pub mod Ends
mod Tests
use mio_xcena.Base.{
  ℕ, ◌+◌, ◌-◌, ◌*◌, ◌/◌, ◌<◌, ◌≤◌, ◌≡◌, ◌⊎◌, Bool, true, false, leb, if◌then◌else◌, List, [], ◌∷◌,
  ◌++◌, u32, set_at,
}
use mio_xcena.Bench.Chase.{Pointers, chase_size_bytes, load_ints, load_round}

abbrev pub warmup_samples : ℕ
warmup_samples = 100000

abbrev pub num_samples : ℕ
num_samples = 200000

abbrev pub total_iterations : ℕ
total_iterations = warmup_samples + num_samples

-- The measuring thread: before it is ready, in its loop on `start_flag`, before round `i` at `current`,
-- behind `stop_flag.store(true)`, and behind `collectLatencyBuffers`.
pub data Measuring : Type 0 where
  idle : Measuring
  spinning : Measuring
  chasing : (i current : ℕ) → Measuring
  stopped : Measuring
  collected : Measuring

-- A load thread; `place` is its offset and `bytes_accessed`.
pub data Loader : Type 0 where
  setting_up : Loader
  waiting : Loader
  loading : (place : ℕ × ℕ) → Loader
  ended : (bytes : ℕ) → Loader

-- The calling thread.
pub data Main : Type 0 where
  starting : Main
  joining_measurement : Main
  joining : (k : ℕ) → Main
  joined : Main

pub record Run : Type 0 where
  pub measuring : Measuring
  pub loader : ℕ → Loader
  pub ready_count : ℕ
  pub start_flag : Bool
  pub stop_flag : Bool
  pub memory : Pointers
  pub latency_buffer : List ℕ
  pub global_latencies : List ℕ
  pub main : Main

-- `collectLatencyBuffers`: the thread's buffer and the global one.
abbrev pub collect_latency_buffers : (buffer latencies : List ℕ) → List ℕ × List ℕ
collect_latency_buffers buffer latencies = ([], latencies ++ buffer)

-- The pointers that do not overlap the 32 bytes at `at` are the same.
abbrev pub SameAround : (at : ℕ) → Pointers → Pointers → Type 0
SameAround at m m' = (b : ℕ) → (b + 8 ≤ at) ⊎ (at + 32 ≤ b) → m' b ≡ m b

module _ (num_load_threads base size : ℕ) where
  abbrev pub load_size : ℕ
  load_size = size - chase_size_bytes

  -- The address that load thread `t` accesses at an offset of its share.
  abbrev pub load_address : (t offset : ℕ) → ℕ
  load_address t offset = base + chase_size_bytes + t * (load_size / num_load_threads) + 4 * offset

  -- The offset and the bytes of a load thread after an access.
  abbrev pub next_place : ℕ × ℕ → ℕ × ℕ
  next_place place = load_round (load_ints load_size num_load_threads) place

  pub data Step (s : Run) : Run → Type 0 where
    ready_measuring :
        s.measuring ≡ idle
        → Step s (record s { measuring = spinning; ready_count = u32 (s.ready_count + 1) })
    start_measuring :
        s.measuring ≡ spinning
        → s.start_flag ≡ true
        → Step s (record s { measuring = chasing 0 base })
    -- One round, which the counter says to take `cycles`.
    chase_next :
        (i current cycles : ℕ)
        → s.measuring ≡ chasing i current
        → i < total_iterations
        → Step s (record s {
          measuring = chasing (i + 1) (s.memory current);
          latency_buffer =
              if leb warmup_samples i then s.latency_buffer ++ cycles ∷ [] else s.latency_buffer;
        })
    stop_load :
        (i current : ℕ)
        → s.measuring ≡ chasing i current
        → total_iterations ≤ i
        → Step s (record s { measuring = stopped; stop_flag = true })
    collect :
        s.measuring ≡ stopped
        → Step s (record s {
          measuring = collected;
          global_latencies = (collect_latency_buffers s.latency_buffer s.global_latencies).1;
          latency_buffer = (collect_latency_buffers s.latency_buffer s.global_latencies).0;
        })
    ready_loader :
        (t : ℕ)
        → t < num_load_threads
        → s.loader t ≡ setting_up
        → Step s
            (record s { loader = set_at s.loader t waiting; ready_count = u32 (s.ready_count + 1) })
    start_loader :
        (t : ℕ)
        → t < num_load_threads
        → s.loader t ≡ waiting
        → s.start_flag ≡ true
        → Step s (record s { loader = set_at s.loader t (loading (0, 0)) })
    -- The first half of the load threads reads.
    load_read :
        (t : ℕ) (place : ℕ × ℕ)
        → t < num_load_threads / 2
        → s.loader t ≡ loading place
        → s.stop_flag ≡ false
        → Step s (record s { loader = set_at s.loader t (loading (next_place place)) })
    load_write :
        (t : ℕ) (place : ℕ × ℕ) (memory : Pointers)
        → num_load_threads / 2 ≤ t
        → t < num_load_threads
        → s.loader t ≡ loading place
        → s.stop_flag ≡ false
        → SameAround (load_address t place.0) s.memory memory
        → Step s
            (record s { loader = set_at s.loader t (loading (next_place place)); memory = memory })
    end_loader :
        (t : ℕ) (place : ℕ × ℕ)
        → t < num_load_threads
        → s.loader t ≡ loading place
        → s.stop_flag ≡ true
        → Step s (record s { loader = set_at s.loader t (ended place.1) })
    start_all :
        s.main ≡ starting
        → num_load_threads + 1 ≤ s.ready_count
        → Step s (record s { start_flag = true; main = joining_measurement })
    join_measurement :
        s.main ≡ joining_measurement
        → s.measuring ≡ collected
        → Step s (record s { main = joining 0 })
    join :
        (k bytes : ℕ)
        → s.main ≡ joining k
        → k < num_load_threads
        → s.loader k ≡ ended bytes
        → Step s (record s { main = joining (k + 1) })
    all_joined : s.main ≡ joining num_load_threads → Step s (record s { main = joined })

  -- The state when the threads are created, with the latencies collected before.
  abbrev pub init : Pointers → List ℕ → Run
  init memory latencies = record {
    measuring = idle;
    loader = λ _. setting_up;
    ready_count = 0;
    start_flag = false;
    stop_flag = false;
    memory = memory;
    latency_buffer = [];
    global_latencies = latencies;
    main = starting;
  }

  pub data Reach (memory : Pointers) (latencies : List ℕ) : Run → Type 0 where
    start : Reach memory latencies (init memory latencies)
    later : {s t : Run} → Reach memory latencies s → Step s t → Reach memory latencies t

  -- Any further steps.
  pub data Steps (s : Run) : Run → Type 0 where
    none_left : Steps s s
    more : {t u : Run} → Steps s t → Step t u → Steps s u

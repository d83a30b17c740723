-- ===== src/Bench/StrideWrite.antt =====
-- src/benchmark.cpp, `measureStrideWrite`: the threads that write their shares of the memory and the thread
-- that starts and joins them, in any interleaving.
--
-- A thread's offsets are those of `stride_offsets`, since both stride tests have the same loops. A store
-- with its counting is one step. Flushing the cache, the thread's CPU, the printed progress and the times
-- change no memory and are left out; a streaming store and a plain one write the same.
pub mod Aligned
pub mod Kept
pub mod Stored
pub mod Written
pub mod Ends
mod Tests
use mio_xcena.Base.{
  ℕ, ◌+◌, ◌-◌, ◌*◌, ◌/◌, ◌%◌, ◌<◌, ◌≤◌, ◌≡◌, Bool, true, false, ◌&&◌, ◌==◌, leb, ltb, if◌then◌else◌,
  Option, none, some, List, [], ◌∷◌, u32, u64, set_at, Memory, byte_at,
}
use mio_xcena.Bench.Stride.{stride_offsets}

-- A thread: before `ready_count.fetch_add(1)`, in the loop on `start_flag`, among its stores with the
-- offsets still to come, and behind the last `add_bytes`.
pub data Worker : Type 0 where
  setting_up : Worker
  spinning : Worker
  writing : (todo : List ℕ) → (local_bytes access_count : ℕ) → Worker
  finished : Worker

-- The calling thread: in its loop on `ready_count`, about to join thread `k`, and behind the joins.
pub data Main : Type 0 where
  waiting : Main
  joining : (k : ℕ) → Main
  joined : Main

pub record Team : Type 0 where
  pub worker : ℕ → Worker
  pub ready_count : ℕ
  pub start_flag : Bool
  pub bytes_processed : ℕ
  pub memory : Memory
  pub main : Main

-- `_mm256_set1_epi32(t)` stored at `at`: the four bytes of `t`, eight times.
unfoldable pub store_value : (at t : ℕ) → Memory → Memory
store_value at t m a = if leb at a && ltb a (at + 32) then byte_at ((a - at) % 4) t else m a

-- Every 1000th access reports the bytes so far.
abbrev pub is_update : ℕ → Bool
is_update access_count = access_count % 1000 == 0

-- `progress.add_bytes`.
abbrev pub add_bytes : (bytes bytes_processed : ℕ) → ℕ
add_bytes bytes bytes_processed = u64 (bytes_processed + bytes)

module _ (num_threads size block_size stride : ℕ) where
  abbrev pub per_thread_size : ℕ
  per_thread_size = size / num_threads

  -- `none` if the loops over them never end.
  abbrev pub offsets : Option (List ℕ)
  offsets = stride_offsets block_size stride per_thread_size

  -- Thread `t` stores at an offset of its share, with `todo` to come.
  abbrev pub store_at :
      (t offset : ℕ) → (todo : List ℕ) → (local_bytes access_count : ℕ) → Team → Team
  store_at t offset todo local_bytes access_count s = record s {
    memory = store_value (t * per_thread_size + offset) t s.memory;
    worker = set_at s.worker t (
        writing todo (if is_update (access_count + 1) then 0 else local_bytes + 32)
          (access_count + 1));
    bytes_processed =
        if is_update (access_count + 1)
        then add_bytes (local_bytes + 32) s.bytes_processed
        else s.bytes_processed;
  }

  pub data Step (s : Team) : Team → Type 0 where
    -- `ready_count.fetch_add(1)`.
    arrive :
        (t : ℕ)
        → t < num_threads
        → s.worker t ≡ setting_up
        → Step s (record s {
          ready_count = u32 (s.ready_count + 1);
          worker = set_at s.worker t spinning;
        })
    -- The loop on `start_flag` ends.
    begin :
        (t : ℕ) (todo : List ℕ)
        → t < num_threads
        → s.worker t ≡ spinning
        → s.start_flag ≡ true
        → offsets ≡ some todo
        → Step s (record s { worker = set_at s.worker t (writing todo 0 0) })
    store :
        (t offset : ℕ) (todo : List ℕ) (local_bytes access_count : ℕ)
        → t < num_threads
        → s.worker t ≡ writing (offset ∷ todo) local_bytes access_count
        → Step s (store_at t offset todo local_bytes access_count s)
    -- The last `add_bytes`, and the thread's end.
    finish :
        (t local_bytes access_count : ℕ)
        → t < num_threads
        → s.worker t ≡ writing [] local_bytes access_count
        → Step s (record s {
          worker = set_at s.worker t finished;
          bytes_processed = add_bytes local_bytes s.bytes_processed;
        })
    -- The loop on `ready_count` ends; the threads are started.
    start_all :
        s.main ≡ waiting
        → num_threads ≤ s.ready_count
        → Step s (record s { start_flag = true; main = joining 0 })
    join :
        (k : ℕ)
        → s.main ≡ joining k
        → k < num_threads
        → s.worker k ≡ finished
        → Step s (record s { main = joining (k + 1) })
    all_joined : s.main ≡ joining num_threads → Step s (record s { main = joined })

  -- The state when the threads are created.
  abbrev pub init : Memory → Team
  init m = record {
    worker = λ _. setting_up;
    ready_count = 0;
    start_flag = false;
    bytes_processed = 0;
    memory = m;
    main = waiting;
  }

  pub data Reach (m : Memory) : Team → Type 0 where
    start : Reach m (init m)
    later : {s t : Team} → Reach m s → Step s t → Reach m t

  -- Any further steps.
  pub data Steps (s : Team) : Team → Type 0 where
    none_left : Steps s s
    more : {t u : Team} → Steps s t → Step t u → Steps s u

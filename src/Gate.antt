-- ===== src/Gate.antt =====
-- custom-test/test2-rdma-fin.c, `struct start_gate`: `gate_init`, `gate_wait`, `gate_open` and
-- `gate_open_after_created`. The workers wait at the gate until the main thread has seen all of them
-- and opens it.
--
-- What a thread does under the mutex, up to its next `pthread_cond_wait` or its unlock, is one step. A thread
-- in `pthread_cond_wait` sleeps; `pthread_cond_broadcast` wakes all that sleep, and a woken one tests its
-- condition again. A thread may also wake without a broadcast. `pthread_mutex_init`, `pthread_cond_init`
-- and their `destroy` change no field.
pub mod Safety
pub mod Progress
mod Tests
use mio_xcena.Base.{ℕ, ◌+◌, ◌<◌, ◌≡◌, Bool, true, false, ◌==◌, leb, if◌then◌else◌, u32}

pub record StartGate : Type 0 where
  pub total : ℕ
  pub ready : ℕ
  pub is_open : Bool

abbrev pub gate_init : ℕ → StartGate
gate_init total = record { total = total; ready = 0; is_open = false }

-- A worker: before `gate_wait`, in `pthread_cond_wait`, woken there, and behind `gate_wait`.
pub data Worker : Type 0 where
  outside : Worker
  sleeping : Worker
  woken : Worker
  passed : Worker

-- The main thread: before it calls a gate function, in `pthread_cond_wait`, woken there, and behind it.
pub data Main : Type 0 where
  busy : Main
  dozing : Main
  roused : Main
  done : Main

-- Workers are numbered; only those below `spawned` exist.
pub record System : Type 0 where
  pub gate : StartGate
  pub worker : ℕ → Worker
  pub main : Main

abbrev pub set_worker : (ℕ → Worker) → ℕ → Worker → ℕ → Worker
set_worker f i w j = if i == j then w else f j

abbrev pub wake_worker : Worker → Worker
wake_worker outside = outside
wake_worker sleeping = woken
wake_worker woken = woken
wake_worker passed = passed

abbrev pub wake_main : Main → Main
wake_main busy = busy
wake_main dozing = roused
wake_main roused = roused
wake_main done = done

-- `pthread_cond_broadcast(&g->cv)`
abbrev pub broadcast : System → System
broadcast s = record {
  gate = s.gate;
  worker = λ i. wake_worker (s.worker i);
  main = wake_main s.main;
}

-- `while (!g->open) pthread_cond_wait(&g->cv, &g->mu);`, up to its next sleep or its end.
abbrev pub test_open : (i : ℕ) → System → System
test_open i s = record s {
  worker = set_worker s.worker i (if s.gate.is_open then passed else sleeping);
}

-- `gate_wait` up to its first sleep or its end.
unfoldable pub gate_wait : (i : ℕ) → System → System
gate_wait i s =
    let ready = u32 (s.gate.ready + 1) in
    let counted = record s { gate = record s.gate { ready = ready } } in
    test_open i (if ready == s.gate.total then broadcast counted else counted)

-- `while (g->ready < g->total) pthread_cond_wait(&g->cv, &g->mu);`, and what follows it, up to the next
-- sleep or the end.
unfoldable pub gate_open : System → System
gate_open s =
    if leb s.gate.total s.gate.ready
    then record (broadcast (record s { gate = record s.gate { is_open = true } })) { main = done }
    else record s { main = dozing }

unfoldable pub gate_open_after_created : (created : ℕ) → System → System
unfolding gate_open
gate_open_after_created created s =
    gate_open (record s { gate = record s.gate { total = created } })

-- What the threads do, without the wakings that no broadcast makes.
pub data Step (spawned : ℕ) (s : System) : System → Type 0 where
  arrive : (i : ℕ) → i < spawned → s.worker i ≡ outside → Step spawned s (gate_wait i s)
  look_again : (i : ℕ) → i < spawned → s.worker i ≡ woken → Step spawned s (test_open i s)
  call_open : s.main ≡ busy → Step spawned s (gate_open s)
  call_after_created :
      (created : ℕ) → s.main ≡ busy → Step spawned s (gate_open_after_created created s)
  count_again : s.main ≡ roused → Step spawned s (gate_open s)

-- A waking without a broadcast.
pub data Spurious (spawned : ℕ) (s : System) : System → Type 0 where
  worker_wakes :
      (i : ℕ)
      → i < spawned
      → s.worker i ≡ sleeping
      → Spurious spawned s (record s { worker = set_worker s.worker i woken })
  main_wakes : s.main ≡ dozing → Spurious spawned s (record s { main = roused })

abbrev pub init : ℕ → System
init total = record { gate = gate_init total; worker = λ _. outside; main = busy }

pub data Reach (spawned total : ℕ) : System → Type 0 where
  start : Reach spawned total (init total)
  later : {s t : System} → Reach spawned total s → Step spawned s t → Reach spawned total t
  disturbed : {s t : System} → Reach spawned total s → Spurious spawned s t → Reach spawned total t

-- ===== src/Monitor.antt =====
-- What the read phases of custom-test/test2-rdma-fin.c, test2.c and test4-nowait.c do with memory, threads
-- and the start gate, as a list of events, and a monitor that follows one resource and one reader
-- thread through such a list and refuses a misuse.
pub mod Steps
use mio_xcena.Base.{
  ℕ, suc, ◌+◌, ◌≡◌, Bool, true, false, ◌&&◌, ◌||◌, not, ◌==◌, if◌then◌else◌, Option, none, some,
  ◌>>=◌, List, [], ◌∷◌,
}

-- What is acquired and released: the buffer, request and node of a reader, the arrays of the read
-- phase, its gate, and the device with its own arrays.
pub data Handle : Type 0 where
  scratch request node : (i : ℕ) → Handle
  threads args gate dctx nic reader_args response_ready to_nic to_reader : Handle

-- `open_gate n` waits until `n` workers are at the gate, and opens it: `gate_open`, whose total is that of
-- `gate_init`, and `gate_open_after_created`. A `join i` is `pthread_join(threads[i], NULL)`.
pub data Event : Type 0 where
  acquire release : (h : Handle) → Event
  create : (i : ℕ) → Event
  create_card join_card : Event
  open_gate : (n : ℕ) → Event
  join : (i : ℕ) → Event

-- `free(NULL)` does nothing.
abbrev pub free_if : Bool → Handle → List Event
free_if b h = if b then release h ∷ [] else []

abbrev pub acquire_if : Bool → Handle → List Event
acquire_if b h = if b then acquire h ∷ [] else []

abbrev code : Handle → ℕ × ℕ
code (scratch i) = (0, i)
code (request i) = (1, i)
code threads = (2, 0)
code args = (3, 0)
code gate = (4, 0)
code dctx = (5, 0)
code nic = (6, 0)
code reader_args = (7, 0)
code to_nic = (8, 0)
code to_reader = (9, 0)
code (node i) = (10, i)
code response_ready = (11, 0)

abbrev pub is_handle : Handle → Handle → Bool
is_handle h g = (code h).0 == (code g).0 && (code h).1 == (code g).1

-- What reader thread `k` may use while it runs: its own buffer, request and node, its argument, the
-- gate, and the device with the flags of its answers.
abbrev pub uses : ℕ → Handle → Bool
uses k (scratch i) = k == i
uses k (request i) = k == i
uses k (node i) = k == i
uses k threads = false
uses k args = true
uses k gate = true
uses k dctx = true
uses k nic = false
uses k reader_args = false
uses k response_ready = true
uses k to_nic = false
uses k to_reader = false

-- What the card's thread may use while it runs.
abbrev pub card_uses : Handle → Bool
card_uses (scratch i) = false
card_uses (request i) = true
card_uses (node i) = true
card_uses threads = false
card_uses args = true
card_uses gate = false
card_uses dctx = true
card_uses nic = true
card_uses reader_args = true
card_uses response_ready = true
card_uses to_nic = true
card_uses to_reader = true

-- One resource and one thread: whether the resource is held and the thread is running; how many
-- threads have been started, whether the gate has been opened, and whether the card's thread runs.
pub record Watch : Type 0 where
  pub held : Bool
  pub running : Bool
  pub started : ℕ
  pub opened : Bool
  pub card : Bool

abbrev pub fresh : Watch
fresh = record { held = false; running = false; started = 0; opened = false; card = false }

abbrev pub unless : Bool → Watch → Option Watch
unless b w = if b then none else some w

-- Refused are: to acquire what is held; to release what is not held or what a running thread uses; to
-- start a thread that runs; to open the gate for another number of threads than were started; to
-- join a thread that does not run, or a reader that still waits at the gate.
abbrev pub watch_event : Handle → ℕ → Watch → Event → Option Watch
watch_event h k w (acquire g) =
    if is_handle h g then unless w.held (record w { held = true }) else some w
watch_event h k w (release g) =
    if is_handle h g
    then unless (not w.held || ((w.running && uses k g) || (w.card && card_uses g)))
        (record w { held = false })
    else some w
watch_event h k w (create i) =
    if k == i
    then unless w.running (record w { running = true; started = suc w.started })
    else some (record w { started = suc w.started })
watch_event h k w create_card = unless w.card (record w { card = true })
watch_event h k w join_card = unless (not w.card) (record w { card = false })
watch_event h k w (open_gate n) = unless (not (n == w.started)) (record w { opened = true })
watch_event h k w (join i) =
    if k == i then unless (not (w.running && w.opened)) (record w { running = false }) else some w

unfoldable pub watch : Handle → ℕ → List Event → Watch → Option Watch
watch h k [] w = some w
watch h k (e ∷ es) w = watch_event h k w e >>= watch h k es

-- The events are accepted, and at their end the resource is not held and neither thread runs.
abbrev pub Ends : Option Watch → Type 0
Ends none = ⊥
Ends (some w) = (w.held ≡ false) × (w.running ≡ false) × (w.card ≡ false)

abbrev pub IsClean : List Event → Type 0
IsClean es = (h : Handle) (k : ℕ) → Ends (watch h k es fresh)

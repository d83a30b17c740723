-- ===== src/Threads/Joined.antt =====
-- `run_one_sweep` (custom-test/test2-rdma-fin.c) leaves no thread and no memory behind.
use mio_xcena.Base.{ℕ, ◌≡◌, Bool, true, false, leb, if◌then◌else◌, some, none, Option}
use mio_xcena.Monitor.{Watch, Ends}
use mio_xcena.Threads.{Setup, Slot, empty_slot, has_reader_args}
use mio_xcena.Threads.Slots.{World}

-- The pointers of the readers from `i` on.
abbrev above : (ℕ → Slot) → ℕ → ℕ → Slot
above s i j = if leb i j then s j else empty_slot

-- No reader and no card runs.
abbrev quiet : (high : ℕ) → (ℕ → Slot) → World
quiet high s = record { low = high; high = high; is_open = true; card = false; slots = s }

-- The events are accepted, and at their end the reader is not running and the card's thread is.
abbrev pub Waits : Option Watch → Type 0
Waits none = ⊥
Waits (some w) = (w.running ≡ false) × (w.card ≡ true)

abbrev IsReady : Setup → Type 0
IsReady s = has_reader_args s ≡ true

-- After the NIC thread is created: either all readers were created and all is given back, or the joins end at
-- the card's.
abbrev Closes : Bool → Option Watch → Type 0
Closes true o = Ends o
Closes false o = Waits o

-- Before the NIC thread is created.
abbrev waiting : World
waiting = record { low = 0; high = 0; is_open = false; card = false; slots = λ _. empty_slot }

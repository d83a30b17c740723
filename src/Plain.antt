-- ===== src/Plain.antt =====
-- custom-test/test2.c, the first version of the chunk-stripe sweep, without a network card: `reader_thread`,
-- `run_one_sweep` and `main` as a whole.
--
-- Its `struct cfg`, command line, tags, layout and `populate_chunk_stripe` are those of test2-rdma-fin.c, line
-- for line (Args, Block, Stripe), and its readers read and verify as there (Sweep). Plain.Resources is the
-- creation and the clean-up of the threads of `run_one_sweep`. What the machine answers is a parameter. Times
-- and rates are left out.
pub mod Resources
pub mod Created
pub mod Clean
pub mod Rounds
pub mod Order
pub mod Result
pub mod Endless
mod Tests
use mio_xcena.Base.{
  ℕ, zero, suc, ◌+◌, Bool, true, false, ◌&&◌, not, leb, if◌then◌else◌, Option, none, some, List, [],
  ◌∷◌, ◌++◌, u32, Memory,
}
use mio_xcena.Exits.{Swept, and_later, Exit, early, has_path, close, allocate_store, free_store}
use mio_xcena.Args.{Cfg, Strtoull, Opt, Parsed, ok, bad, exits, parse_args}
use mio_xcena.Stripe.{StoreSizes, store_sizes, populate_chunk_stripe}
use mio_xcena.Sweep.{read_request, Counters, counters_zero, publish, active_counts}
use mio_xcena.Plain.Resources.{Setup, Reader, sweep_run}

-- What the machine does in the sweep of a round with a number of requests: whether allocations and
-- thread creations succeed, the order in which the readers publish, what their buffers hold at first; and
-- in `main`, what the store holds at first, and whether it can be allocated and the result file opened.
pub record Machine : Type 0 where
  pub setup : (round active : ℕ) → Setup
  pub reader : (round active i : ℕ) → Reader
  pub order : (round active : ℕ) → List ℕ
  pub scratch : (round active i : ℕ) → Memory
  pub raw : Memory
  pub has_store : Bool
  pub opens : Bool

-- A reader of request `req` up to its end.
unfoldable pub reader_thread :
    Cfg → (chunks : ℕ) → Memory → (req : ℕ) → (scratch : Memory) → Counters → Counters
reader_thread c chunks store req scratch t = publish (read_request c chunks req store scratch) t

-- The readers in the order in which they publish.
unfoldable pub run_readers :
    Cfg → (chunks : ℕ) → Memory → (ℕ → Memory) → List ℕ → Counters → Counters
unfolding reader_thread
run_readers c chunks store scratch [] t = t
run_readers c chunks store scratch (i ∷ is) t =
    run_readers c chunks store scratch is (reader_thread c chunks store i (scratch i) t)

-- One line of the result: what is counted in it.
pub record Row : Type 0 where
  pub round : ℕ
  pub active : ℕ
  pub blocks : ℕ
  pub fails : ℕ
  pub checksum : ℕ

abbrev pub row_of : (round active : ℕ) → Counters → Row
row_of round active t = record {
  round = round;
  active = active;
  blocks = t.blocks_read;
  fails = t.verify_fail;
  checksum = t.checksum;
}

module _ (w : Machine) (c : Cfg) (chunks : ℕ) (store : Memory) where
  -- The line that is written, or `none` for the return value -1.
  unfoldable pub run_one_sweep : (round active : ℕ) → Option Row
  unfolding run_readers
  run_one_sweep round active =
      let run = sweep_run c.copy_to_dst active (w.setup round active) (w.reader round active) in
      let t =
        run_readers c chunks store (w.scratch round active) (w.order round active) counters_zero in
      if run.success then some (row_of round active t) else none

  abbrev pub and_row : Option Row → Swept Row → Swept Row
  and_row none later = record { rows = []; success = false }
  and_row (some row) later = record { rows = row ∷ later.rows; success = later.success }

  -- The sweeps of one round, for the numbers of requests that the loop on `c` takes; the first failure
  -- ends it.
  unfoldable pub run_counts : (round : ℕ) → List ℕ → Swept Row
  run_counts round [] = record { rows = []; success = true }
  run_counts round (active ∷ rest) = and_row (run_one_sweep round active) (run_counts round rest)

  -- `for (uint32_t r = 1; r <= cfg.rounds; r++)`, or `none` if the fuel runs out.
  unfoldable pub run_rounds : (fuel round : ℕ) → List ℕ → Option (Swept Row)
  run_rounds zero round counts = none
  run_rounds (suc fuel) round counts =
      let s = run_counts round counts in
      let rest = run_rounds fuel (u32 (round + 1)) counts in
      if leb round c.rounds
      then if s.success then and_later s.rows rest else some s
      else some (record { rows = []; success = true })

module _ (w : Machine) where
  -- The loops over the rounds and the numbers of requests.
  abbrev pub measure : (fuel : ℕ) → Cfg → StoreSizes → Option (List ℕ) → Option (Swept Row)
  measure fuel c s none = none
  measure fuel c s (some counts) =
      run_rounds w c s.chunks (populate_chunk_stripe c s.chunks s.chunk_bytes w.raw) fuel 1 counts

  -- From the allocation of the store on.
  abbrev pub with_sizes : (fuel : ℕ) → Cfg → Option StoreSizes → Option (Exit Row)
  with_sizes fuel c none = some (early 1 [])
  with_sizes fuel c (some s) =
      if not w.has_store
      then some (early 1 [])
      else if has_path c.csv_path && not w.opens
      then some (early 1 (allocate_store ∷ free_store ∷ []))
      else close (has_path c.csv_path)
          (measure fuel c s (active_counts fuel c.sweep_min c.sweep_max 1))

  abbrev pub with_args : (fuel : ℕ) → Parsed → Option (Exit Row)
  with_args fuel (ok c) = with_sizes fuel c (store_sizes c)
  with_args fuel bad = some (early 1 [])
  with_args fuel exits = some (early 0 [])

  -- `main`, or `none` if the fuel runs out.
  unfoldable pub main : Strtoull → (fuel : ℕ) → List Opt → Option (Exit Row)
  main strtoull fuel os = with_args fuel (parse_args strtoull os)

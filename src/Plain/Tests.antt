-- ===== src/Plain/Tests.antt =====
-- custom-test/test2.c with three requests of two blocks each.
use mio_xcena.Base.{
  not, ◌==◌, ℕ, zero, suc, ◌-◌, ◌≤◌, ◌^◌, ◌≡◌, refl, true, false, none, some, List, [], ◌∷◌, arith,
  ltb, if◌then◌else◌,
}
use mio_xcena.Args.{
  Cfg, Opt, parse_args, parse_opts, parse_opt, parse_u32_arg, parse_size, parse_suffix, scale,
  finish_args, ok, rounds, checked_mul_u64,
}
use mio_xcena.Args.Tests.{decimal, small_cfg, options, options-small}
use mio_xcena.Stripe.{store_sizes}
use mio_xcena.Stripe.Tests.{small_sizes, small_accepted, blank}
use mio_xcena.Bench.Counters.{occurrences}
use mio_xcena.Sweep.Totals.{AllBelow}
use mio_xcena.Plain.Rounds.{rows_from}
use mio_xcena.Exits.{Exit, IsSettled}
use mio_xcena.Plain.{Machine, Row, main}
use mio_xcena.Plain.Order.{IsOrder}
use mio_xcena.Plain.Resources.{Setup, Reader, sweep_run}
use mio_xcena.Plain.Clean.{sweep_run-IsClean}
use mio_xcena.Monitor.{IsClean}
use mio_xcena.Plain.Result.{Works, line, lines, main-lines}
use mio_xcena.Plain.Endless.{sweep_events, main-ends, main-endless}

-- n - 1, ..., 0.
abbrev down_from : ℕ → List ℕ
down_from zero = []
down_from (suc n) = n ∷ down_from n

down_from-AllBelow : (n k : ℕ) → k ≤ n → AllBelow n (down_from k)
down_from-AllBelow n zero le = tt
down_from-AllBelow n (suc k) le = (omega arith, down_from-AllBelow n k (omega arith))

occurrences-down_from : (n i : ℕ) → occurrences i (down_from n) ≡ (if ltb i n then 1 else 0)
occurrences-down_from zero i = ground arith
occurrences-down_from (suc n) i = ground (arith, occurrences-down_from n i)

down_from-IsOrder : (n : ℕ) → IsOrder n (down_from n)
down_from-IsOrder n =
    (down_from-AllBelow n n (omega arith), λ i lt. ground (arith, occurrences-down_from n i))

-- A machine on which nothing fails, with the readers publishing backwards.
abbrev good : Machine
good = record {
  setup = λ round active. record { threads = true; args = true };
  reader = λ round active i. record { scratch = true; thread = true };
  order = λ round active. down_from active;
  scratch = λ round active i. blank;
  raw = blank;
  has_store = true;
  opens = true;
}

good-Works : Works good
good-Works = record {
  threads = λ round active. refl;
  args = λ round active. refl;
  scratch = λ round active i. refl;
  thread = λ round active i. refl;
  order = λ round active. down_from-IsOrder active;
  store = refl;
  csv = refl;
}

-- 4294967295 rounds.
abbrev most_rounds : List Opt
most_rounds =
    rounds (b'4' ∷ b'2' ∷ b'9' ∷ b'4' ∷ b'9' ∷ b'6' ∷ b'7' ∷ b'2' ∷ b'9' ∷ b'5' ∷ []) ∷ options

abbrev endless_cfg : Cfg
endless_cfg = record small_cfg { rounds = 2 ^ 32 - 1 }

most_rounds-accepted : parse_args decimal most_rounds ≡ ok endless_cfg
unfolding parse_args parse_opts parse_opt parse_u32_arg parse_size parse_suffix scale finish_args
most_rounds-accepted = refl

endless-sized : store_sizes endless_cfg ≡ some small_sizes
unfolding store_sizes checked_mul_u64
endless-sized = refl

main-lines_example :
    (e : Exit Row) × (main good decimal 40 options ≡ some e)
    × (e.code ≡ 0)
    × (e.rows ≡ lines small_cfg)
main-lines_example =
    main-lines good decimal options small_cfg small_sizes options-small small_accepted good-Works 40
      (omega arith) (omega arith) (omega arith)

-- The store cannot be allocated.
abbrev full : Machine
full = record good { has_store = false }

main-ends_example :
    (e : Exit Row) × (main full decimal 40 options ≡ some e)
    × IsSettled e.uses
    × ((round active : ℕ)
        → active ≤ small_cfg.requests
        → IsClean (sweep_events full small_cfg round active))
main-ends_example =
    main-ends full decimal options small_cfg options-small 40 (omega arith) (omega arith)
      (omega arith)

main-endless_example : main good decimal 50 most_rounds ≡ none
main-endless_example =
    main-endless good decimal most_rounds endless_cfg most_rounds-accepted small_sizes 50
      endless-sized good-Works refl (omega arith)

-- One request: its two blocks are read.
two_lines : lines small_cfg ≡ line small_cfg 1 1 ∷ line small_cfg 1 2 ∷ []
unfolding rows_from
two_lines = refl

-- The second thread cannot be created.
abbrev second_fails : ℕ → Reader
second_fails i = record { scratch = true; thread = not (i == 1) }

abbrev both_arrays : Setup
both_arrays = record { threads = true; args = true }

sweep_run-IsClean_example : IsClean (sweep_run true 3 both_arrays second_fails).events
sweep_run-IsClean_example = sweep_run-IsClean true 3 both_arrays second_fails (omega arith)

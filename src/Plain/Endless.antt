-- ===== src/Plain/Endless.antt =====
-- Whether `main` of custom-test/test2.c comes to its end.
use mio_xcena.Base.{
  ℕ, ◌-◌, ◌<◌, ◌≤◌, ◌^◌, ◌≡◌, refl, ap, ◌∙◌, none, some, List, [], arith, Option-cases, inl, inr,
}
use mio_xcena.Args.{Cfg, Strtoull, Opt, ok, parse_args}
use mio_xcena.Args.Valid.{parse_args-IsValid}
use mio_xcena.Stripe.{StoreSizes, store_sizes, populate_chunk_stripe}
use mio_xcena.Stripe.Layout.{store_sizes-IsSized}
use mio_xcena.Sweep.Schedule.{between, doublings, active_counts_lem}
use mio_xcena.Exits.{Exit, has_path, early, close, IsSettled, tests-IsSettled}
use mio_xcena.Monitor.{Event, IsClean}
use mio_xcena.Plain.Resources.{sweep_run}
use mio_xcena.Plain.Clean.{sweep_run-IsClean}
use mio_xcena.Plain.{Row, Machine, main}
use mio_xcena.Plain.Rounds.{run_rounds-ends, run_rounds-endless}
use mio_xcena.Plain.Result.{Works, main-measures, run_counts-lines}

-- What a sweep does with memory, threads and its gate.
abbrev pub sweep_events : Machine → Cfg → (round active : ℕ) → List Event
sweep_events w c round active =
    (sweep_run c.copy_to_dst active (w.setup round active) (w.reader round active)).events

module _ (w : Machine) (strtoull : Strtoull) (os : List Opt) (c : Cfg)
    (accepted : parse_args strtoull os ≡ ok c) where
  -- `main` returns, and all is given back.
  main-returns :
      (fuel : ℕ)
      → 32 ≤ fuel
      → c.rounds < fuel
      → c.rounds < 2 ^ 32 - 1
      → (e : Exit Row) × (main w strtoull fuel os ≡ some e) × IsSettled e.uses
  unfolding main
  main-returns fuel enough more small = elim (Option-cases (store_sizes c)) [
    | inl over ↦ (early 1 [], rw (accepted, over) refl, refl)
    | inr (s, sized) ↦
        rw (accepted, sized, active_counts_lem fuel c.sweep_min c.sweep_max enough)
          (tests-IsSettled w.has_store _ (has_path c.csv_path) _ (
            run_rounds-ends w c s.chunks (populate_chunk_stripe c s.chunks s.chunk_bytes w.raw)
              (between c.sweep_min c.sweep_max (doublings 32 1)) c.rounds fuel 1 (omega arith) more
              small))
  ]

  -- Whatever fails, for fewer than 2^32 - 1 rounds and with enough fuel: `main` returns, and has then given
  -- the store back and closed the result file, if it had them; and in each of its sweeps the gate is opened
  -- for as many readers as were started, before they are joined, so that no join waits for ever, and
  -- threads, buffers and arrays are given back.
  pub main-ends :
      (fuel : ℕ)
      → 32 ≤ fuel
      → c.rounds < fuel
      → c.rounds < 2 ^ 32 - 1
      → (e : Exit Row) × (main w strtoull fuel os ≡ some e)
        × IsSettled e.uses
        × ((round active : ℕ) → active ≤ c.requests → IsClean (sweep_events w c round active))
  main-ends fuel enough more small =
      let v = parse_args-IsValid strtoull os c accepted in
      let (e, is, settled) = main-returns fuel enough more small in
      (
        e,
        is,
        settled,
        λ round active le.
            sweep_run-IsClean c.copy_to_dst active (w.setup round active) (w.reader round active)
              (omega (arith, le, v.in_range.requests)),
      )

  -- With 2^32 - 1 rounds, which the options allow, `main` never returns when the sizes do not overflow and
  -- nothing fails: the counter of the rounds goes back to 0.
  pub main-endless :
      (s : StoreSizes) (fuel : ℕ)
      → store_sizes c ≡ some s
      → Works w
      → c.rounds ≡ 2 ^ 32 - 1
      → 32 ≤ fuel
      → main w strtoull fuel os ≡ none
  main-endless s fuel sized works many enough =
      let v = parse_args-IsValid strtoull os c accepted in
      let z = store_sizes-IsSized c s v sized in
      main-measures w strtoull os c s accepted sized works fuel enough
      ∙ ap (close (has_path c.csv_path)) (
          run_rounds-endless w c s.chunks _ _ _ (run_counts-lines w c s v z works) fuel 1 many
            (omega arith))

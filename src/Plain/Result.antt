-- ===== src/Plain/Result.antt =====
-- What `main` of custom-test/test2.c writes when nothing fails: every sweep finds its blocks without a fault.
use mio_xcena.Base.{
  ℕ, ◌-◌, ◌*◌, ◌<◌, ◌≤◌, ◌^◌, ◌≡◌, refl, ap, ◌∙◌, Bool, true, false, ◌&&◌, not, leb, Bool-cases,
  inl, inr, some, List, [], ◌∷◌, map, u8, u64, length, Memory, arith, total,
}
use mio_xcena.Block.{block_magic}
use mio_xcena.Args.{Cfg, Strtoull, Opt, ok, parse_args}
use mio_xcena.Args.Valid.{IsValid, parse_args-IsValid}
use mio_xcena.Stripe.{StoreSizes, store_sizes, populate_chunk_stripe}
use mio_xcena.Stripe.Layout.{IsSized, store_sizes-IsSized}
use mio_xcena.Sweep.{read_request, Counters, counters_zero, publish_all}
use mio_xcena.Sweep.Count.{checksum_of}
use mio_xcena.Sweep.Schedule.{between, doublings, active_counts_lem}
use mio_xcena.Sweep.Totals.{AllBelow, sweep_totals}
use mio_xcena.Plain.Created.{create_readers-complete}
use mio_xcena.Plain.Resources.{sweep_run}
use mio_xcena.Exits.{Exit, has_path, close}
use mio_xcena.Plain.{Machine, Row, row_of, run_readers, run_one_sweep, run_counts, run_rounds, main}
use mio_xcena.Plain.Order.{IsOrder, sum_of-IsOrder, length-IsOrder}
use mio_xcena.Plain.Rounds.{AllOf, rows_from, run_counts-all, run_rounds-all}

-- Nothing fails.
pub record Works (w : Machine) : Type 0 where
  pub threads : (round active : ℕ) → (w.setup round active).threads ≡ true
  pub args : (round active : ℕ) → (w.setup round active).args ≡ true
  pub scratch : (round active i : ℕ) → (w.reader round active i).scratch ≡ true
  pub thread : (round active i : ℕ) → (w.reader round active i).thread ≡ true
  pub order : (round active : ℕ) → IsOrder active (w.order round active)
  pub store : w.has_store ≡ true
  pub csv : w.opens ≡ true

-- The line of a sweep of `active` requests.
abbrev pub line : Cfg → (round active : ℕ) → Row
line c round active = record {
  round = round;
  active = active;
  blocks = u64 (active * c.req_per_blocks);
  fails = 0;
  checksum = u64 (total active (λ i. checksum_of (u8 block_magic) i c.req_per_blocks));
}

run_readers-publish_all :
    (c : Cfg) (chunks : ℕ) (store : Memory) (scratch : ℕ → Memory) (order : List ℕ) (t : Counters)
    → run_readers c chunks store scratch order t
      ≡ publish_all (λ i. read_request c chunks i store (scratch i)) order t
unfolding run_readers publish_all
run_readers-publish_all c chunks store scratch [] t = refl
run_readers-publish_all c chunks store scratch (i ∷ is) t =
    run_readers-publish_all c chunks store scratch is _

AllBelow-le : (m n : ℕ) (is : List ℕ) → m ≤ n → AllBelow m is → AllBelow n is
AllBelow-le m n [] le below = tt
AllBelow-le m n (i ∷ is) le (lt, below) = (omega arith, AllBelow-le m n is le below)

between-AllOf :
    (P : ℕ → Type 0) (lo hi : ℕ) (ps : List ℕ)
    → ((p : ℕ) → p ≤ hi → P p)
    → AllOf P (between lo hi ps)
between-AllOf P lo hi [] holds = tt
between-AllOf P lo hi (p ∷ ps) holds = elim (Bool-cases (leb lo p && leb p hi)) [
  | inl inside ↦ rw inside (holds p (ground arith), between-AllOf P lo hi ps holds)
  | inr outside ↦ rw outside (between-AllOf P lo hi ps holds)
]

row-eq :
    (c : Cfg) (round active : ℕ) (t : Counters) (b k : ℕ)
    → t.blocks_read ≡ u64 (b * c.req_per_blocks)
    → t.verify_fail ≡ 0
    → t.checksum ≡ u64 k
    → b ≡ active
    → k ≡ total active (λ i. checksum_of (u8 block_magic) i c.req_per_blocks)
    → row_of round active t ≡ line c round active
row-eq c round active t b k e₁ e₂ e₃ e₄ e₅ = rw (e₁, e₂, e₃, e₄, e₅) refl

module _ (w : Machine) (c : Cfg) (s : StoreSizes) (v : IsValid c) (z : IsSized c s)
    (works : Works w) where
  abbrev store : Memory
  store = populate_chunk_stripe c s.chunks s.chunk_bytes w.raw

  run_one_sweep-line :
      (round active : ℕ)
      → active ≤ c.requests
      → run_one_sweep w c s.chunks store round active ≡ some (line c round active)
  unfolding run_one_sweep sweep_run
  run_one_sweep-line round active le =
      let o = works.order round active in
      let (blocks, fails, checksum) =
        sweep_totals c s v z w.raw (w.scratch round active) (w.order round active)
          (AllBelow-le active c.requests _ le (o.0)) in
      let created =
        create_readers-complete c.copy_to_dst (w.reader round active) active 0 0 (λ _. false)
          (works.scratch round active) (works.thread round active) in
      rw
        (
          works.threads round active,
          works.args round active,
          created,
          run_readers-publish_all c s.chunks store (w.scratch round active) (w.order round active)
              counters_zero,
        )
        (ap some (
          row-eq c round active _ (length (w.order round active)) _ blocks fails checksum
            (length-IsOrder active (w.order round active) o)
            (sum_of-IsOrder active (λ i. checksum_of (u8 block_magic) i c.req_per_blocks)
              (w.order round active) o)))

  pub run_counts-lines :
      (round : ℕ)
      → run_counts w c s.chunks store round (between c.sweep_min c.sweep_max (doublings 32 1))
        ≡ record {
          rows = map (line c round) (between c.sweep_min c.sweep_max (doublings 32 1));
          success = true;
        }
  run_counts-lines round = run_counts-all w c s.chunks store round (line c round) _ (
      between-AllOf
        (λ active. run_one_sweep w c s.chunks store round active ≡ some (line c round active))
        c.sweep_min c.sweep_max (doublings 32 1)
        (λ active le. run_one_sweep-line round active (omega (arith, le, v.sweep_max_le))))

-- The lines of all rounds.
abbrev pub lines : Cfg → List Row
lines c =
    rows_from (λ round. map (line c round) (between c.sweep_min c.sweep_max (doublings 32 1)))
      c.rounds 1

no_failure : (b o : Bool) → o ≡ true → (b && not o) ≡ false
no_failure b o e = ground arith

module _ (w : Machine) (strtoull : Strtoull) (os : List Opt) (c : Cfg) (s : StoreSizes)
    (accepted : parse_args strtoull os ≡ ok c) (sized : store_sizes c ≡ some s)
    (works : Works w) where
  -- `main` gets to its loops.
  pub main-measures :
      (fuel : ℕ)
      → 32 ≤ fuel
      → main w strtoull fuel os
        ≡ close (has_path c.csv_path) (
            run_rounds w c s.chunks
              (populate_chunk_stripe c s.chunks s.chunk_bytes w.raw)
              fuel
              1
              (between c.sweep_min c.sweep_max (doublings 32 1)))
  unfolding main
  main-measures fuel enough =
      rw
        (
          accepted,
          sized,
          works.store,
          no_failure (has_path c.csv_path) w.opens works.csv,
          active_counts_lem fuel c.sweep_min c.sweep_max enough,
        )
        refl

  -- When the options are accepted, the sizes do not overflow and nothing fails, for fewer than 2^32 - 1
  -- rounds and with enough fuel, `main` returns 0, after it has written one line for each round and each
  -- power of two between the bounds of the sweep, in order: each says that every reader of the sweep has
  -- read all its blocks, that no block was refused, and the sum of the blocks' first and last bytes.
  pub main-lines :
      (fuel : ℕ)
      → 32 ≤ fuel
      → c.rounds < fuel
      → c.rounds < 2 ^ 32 - 1
      → (e : Exit Row) × (main w strtoull fuel os ≡ some e) × (e.code ≡ 0) × (e.rows ≡ lines c)
  main-lines fuel enough more small =
      let v = parse_args-IsValid strtoull os c accepted in
      let z = store_sizes-IsSized c s v sized in
      let all =
        run_rounds-all w c s.chunks (populate_chunk_stripe c s.chunks s.chunk_bytes w.raw) _ _
          (run_counts-lines w c s v z works) c.rounds fuel 1 (omega arith) more small in
      (_, main-measures fuel enough ∙ ap (close (has_path c.csv_path)) all, refl, refl)

-- ===== src/Plain/Rounds.antt =====
-- The loop over the rounds of `main` (custom-test/test2.c): it ends, or never does.
use mio_xcena.Base.{
  ℕ, zero, suc, ◌+◌, ◌-◌, ◌<◌, ◌≤◌, ◌^◌, ◌≡◌, refl, true, none, some, List, [], ◌∷◌, ◌++◌, map, u32,
  Memory, arith, le→leb, lt→leb, Bool-cases, inl, inr,
}
use native.Mathlib.Decide.{dec_le}
use mio_xcena.Args.{Cfg}
use mio_xcena.Exits.{Swept}
use mio_xcena.Plain.{Machine, Row, run_one_sweep, run_counts, run_rounds}

-- Every number of a list has the property.
abbrev pub AllOf : (ℕ → Type 0) → List ℕ → Type 0
AllOf P [] = Unit {0}
AllOf P (x ∷ xs) = P x × AllOf P xs

-- The lines of `left` rounds from `round` on.
unfoldable pub rows_from : (ℕ → List Row) → (left round : ℕ) → List Row
rows_from rows zero round = []
rows_from rows (suc left) round = rows round ++ rows_from rows left (round + 1)

module _ (w : Machine) (c : Cfg) (chunks : ℕ) (store : Memory) where
  -- Where every sweep succeeds, its lines are written in order.
  pub run_counts-all :
      (round : ℕ) (line : ℕ → Row) (counts : List ℕ)
      → AllOf (λ active. run_one_sweep w c chunks store round active ≡ some (line active)) counts
      → run_counts w c chunks store round counts ≡ record { rows = map line counts; success = true }
  unfolding run_counts
  run_counts-all round line [] all = refl
  run_counts-all round line (active ∷ rest) (here, all) =
      rw (here, run_counts-all round line rest all) refl

  module _ (counts : List ℕ) where
    round-ends :
        (fuel round : ℕ)
        → round ≤ c.rounds
        → u32 (round + 1) ≡ round + 1
        → (s : Swept Row) × (run_rounds w c chunks store fuel (round + 1) counts ≡ some s)
        → (s : Swept Row) × (run_rounds w c chunks store (suc fuel) round counts ≡ some s)
    unfolding run_rounds
    round-ends fuel round le exact (t, e) =
        let s = run_counts w c chunks store round counts in
        elim (Bool-cases s.success) [
          | inl on ↦ (
            record { rows = s.rows ++ t.rows; success = t.success },
            rw (le→leb round c.rounds le, on, exact, e) refl,
          )
          | inr off ↦ (s, rw (le→leb round c.rounds le, off) refl)
        ]

    -- Whatever fails, fewer than 2^32 - 1 rounds end.
    pub run_rounds-ends :
        (left fuel round : ℕ)
        → c.rounds + 1 ≤ round + left
        → left < fuel
        → c.rounds < 2 ^ 32 - 1
        → (s : Swept Row) × (run_rounds w c chunks store fuel round counts ≡ some s)
    unfolding run_rounds
    run_rounds-ends left zero round far enough small = absurd (omega arith)
    run_rounds-ends zero (suc fuel) round far enough small =
        (record { rows = []; success = true }, rw (lt→leb round c.rounds (omega arith)) refl)
    run_rounds-ends (suc left) (suc fuel) round far enough small = elim (dec_le round c.rounds) [
      | no over ↦
          (record { rows = []; success = true }, rw (lt→leb round c.rounds (omega arith)) refl)
      | yes le ↦
          round-ends fuel round le (omega arith)
            (run_rounds-ends left fuel (round + 1) (omega arith) (omega arith) small)
    ]

    module _ (rows : ℕ → List Row)
        (all : (round : ℕ)
          → run_counts w c chunks store round counts
            ≡ record { rows = rows round; success = true }) where
      -- Where every sweep succeeds, the lines of all rounds are written.
      pub run_rounds-all :
          (left fuel round : ℕ)
          → round + left ≡ c.rounds + 1
          → left < fuel
          → c.rounds < 2 ^ 32 - 1
          → run_rounds w c chunks store fuel round counts
            ≡ some (record { rows = rows_from rows left round; success = true })
      unfolding run_rounds rows_from
      run_rounds-all left zero round sum enough small = absurd (omega arith)
      run_rounds-all zero (suc fuel) round sum enough small =
          rw (lt→leb round c.rounds (omega arith)) refl
      run_rounds-all (suc left) (suc fuel) round sum enough small =
          let exact : u32 (round + 1) ≡ round + 1 = omega arith in
          rw
            (
              le→leb round c.rounds (omega arith),
              all round,
              exact,
              run_rounds-all left fuel (round + 1) (omega arith) (omega arith) small,
            )
            refl

      -- With 2^32 - 1 rounds, the counter goes back to 0 and never exceeds the number of rounds.
      pub run_rounds-endless :
          (fuel round : ℕ)
          → c.rounds ≡ 2 ^ 32 - 1
          → round < 2 ^ 32
          → run_rounds w c chunks store fuel round counts ≡ none
      unfolding run_rounds
      run_rounds-endless zero round many lt = refl
      run_rounds-endless (suc fuel) round many lt =
          rw
            (
              le→leb round c.rounds (omega arith),
              all round,
              run_rounds-endless fuel (u32 (round + 1)) many (omega arith),
            )
            refl

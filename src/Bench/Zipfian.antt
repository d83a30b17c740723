-- ===== src/Bench/Zipfian.antt =====
-- The Zipfian read (src/benchmark.cpp) stays in a thread's share.
use native.Mathlib.Nat.{div-mul-le_self}
use mio_xcena.Base.{
  ℕ, ◌+◌, ◌*◌, ◌/◌, ◌<◌, ◌≤◌, ◌≡◌, inl, inr, ◌∙◌, arith, Bool, false, Bool-cases, List, [], ◌∷◌,
  length,
}
use mio_xcena.Grid.{before}
use mio_xcena.Bench.Counters.{occurrences}
use mio_xcena.Bench.Drawn.{vectors-miss, sum_to-none, reads_of, block_pass_lem}
use mio_xcena.Bench.Blocks.{block_pass, sample_zipfian, access_sequence, zipfian_pass}

-- A vector that is read in round `i` lies in the block, and so in the share.
block_in_share : (size n per a : ℕ) → n * size ≤ per → a < n → a * size + size ≤ per
block_in_share size n per a fits lt = omega (arith, before a n size lt)

block_pass-inside :
    (size n per : ℕ) (sequence : ℕ → ℕ)
    → n * size ≤ per
    → ((i : ℕ) → i < n → sequence i < n)
    → (x : ℕ) → per < 4 * x + 32
    → occurrences x (block_pass size n sequence).0 ≡ 0
block_pass-inside size n per sequence fits low x past =
    (block_pass_lem size sequence n).0 x
    ∙ sum_to-none n (reads_of size sequence x) (λ i lt.
      vectors-miss x (size / 4) 0 (size / 4) (sequence i * size / 4)
        (inr (omega (arith, block_in_share size n per (sequence i) fits (low i lt)))))

module _ {Double : Type 0} (less : Double → Double → Bool) where
  -- The last entry is not less than `u`.
  abbrev pub Reaches : List Double → Double → Type 0
  Reaches [] u = ⊥
  Reaches (c ∷ []) u = less c u ≡ false
  Reaches (c ∷ (d ∷ cdf)) u = Reaches (d ∷ cdf) u

  sample_lt :
      (cdf : List Double) (u : Double) → Reaches cdf u → sample_zipfian less cdf u < length cdf
  unfolding sample_zipfian
  sample_lt [] u h = absurd h
  sample_lt (c ∷ []) u h = rw h (omega arith)
  sample_lt (c ∷ (d ∷ cdf)) u h = elim (Bool-cases (less c u)) [
    | inl on ↦ rw on (omega (arith, sample_lt (d ∷ cdf) u h))
    | inr off ↦ rw off (omega arith)
  ]

  -- When the distribution has an entry for each block and its last entry is not below any number drawn,
  -- and the indices are block numbers, then no vector that goes beyond the thread's share is read, and
  -- the bytes of as many blocks as the share has are reported.
  pub zipfian_pass_inside :
      (size per : ℕ) (cdf : List Double) (u : ℕ → Double) (indices : ℕ → ℕ)
      → length cdf ≡ per / size
      → ((i : ℕ) → Reaches cdf (u i))
      → ((k : ℕ) → k < per / size → indices k < per / size)
      → ((x : ℕ)
          → per < 4 * x + 32
          → occurrences x (zipfian_pass less size per cdf u indices).0 ≡ 0)
        × ((zipfian_pass less size per cdf u indices).1 ≡ per / size * size)
  unfolding zipfian_pass access_sequence
  zipfian_pass_inside size per cdf u indices same reaches low = (
    block_pass-inside size (per / size) per (access_sequence less cdf u indices)
        (div-mul-le_self per size)
        (λ i lt.
          low (sample_zipfian less cdf (u i))
            (omega (arith, same, sample_lt cdf (u i) (reaches i)))),
    (block_pass_lem size (access_sequence less cdf u indices) (per / size)).1,
  )

-- ===== src/Bench/Drawn.antt =====
-- What the random and the Zipfian read (src/benchmark.cpp) touch of a thread's share.
use native.Mathlib.Decide.{dec_lt, dec_le}
use native.Mathlib.Nat.{mul-div_cancel}
use mio_xcena.Base.{
  ℕ, zero, suc, ◌+◌, ◌*◌, ◌/◌, ◌<◌, ◌≤◌, ◌≡◌, ◌≢◌, ◌⊎◌, inl, inr, refl, ap, sym, ◌∙◌, arith, ◌==◌,
  ==_iff, ==_ne, le→leb, lt→leb, true, if_both, List, [], for_range_zero, eq_or_ne,
}
use mio_xcena.Grid.{before}
use mio_xcena.Bench.Permutation.{IsPermutation}
use mio_xcena.Bench.Counters.{occurrences, occurrences-append}
use mio_xcena.Bench.Summed.{sum_to, sum_to-next}
use mio_xcena.Bench.Blocks.{block_vectors, Pass, pass_block, block_pass, random_read}

pub vectors-miss :
    (u fuel j n o : ℕ)
    → (u < o + j) ⊎ (o + n < u + 8)
    → occurrences u (block_vectors fuel j n o) ≡ 0
unfolding block_vectors
vectors-miss u zero j n o away = refl
vectors-miss u (suc fuel) j n o away = elim (dec_le (j + 8) n) [
  | no over ↦ rw (lt→leb (j + 8) n (omega arith)) refl
  | yes fits ↦
      let rest =
        vectors-miss u fuel (j + 8) n o
          (elim away [ inl below ↦ inl (omega arith) | inr above ↦ inr above ]) in
      let other : o + j ≢ u =
        λ e. elim away [ inl below ↦ omega arith | inr above ↦ omega arith ] in
      rw (le→leb (j + 8) n fits, ==_ne (o + j) u other) (omega (arith, rest))
]

vectors-hit :
    (k fuel j n o : ℕ)
    → k < fuel
    → j + k * 8 + 8 ≤ n
    → occurrences (o + (j + k * 8)) (block_vectors fuel j n o) ≡ 1
unfolding block_vectors
vectors-hit k zero j n o enough fits = absurd (omega arith)
vectors-hit zero (suc fuel) j n o enough fits =
    let rest = vectors-miss (o + (j + 0 * 8)) fuel (j + 8) n o (inl (omega arith)) in
    let same : (o + j == o + (j + 0 * 8)) ≡ true =
      (==_iff (o + j) (o + (j + 0 * 8))).1 (omega arith) in
    rw (le→leb (j + 8) n (omega arith), same) (omega (arith, rest))
vectors-hit (suc k) (suc fuel) j n o enough fits =
    let e : j + 8 + k * 8 ≡ j + suc k * 8 = omega arith in
    let rest =
      ap (λ i. occurrences (o + i) (block_vectors fuel (j + 8) n o)) (sym e)
      ∙ vectors-hit k fuel (j + 8) n o (omega arith) (omega arith) in
    rw (le→leb (j + 8) n (omega arith), ==_ne (o + j) (o + (j + suc k * 8)) (λ same. omega arith))
      (omega (arith, rest))

pub sum_to-none : (n : ℕ) (f : ℕ → ℕ) → ((k : ℕ) → k < n → f k ≡ 0) → sum_to n f ≡ 0
sum_to-none zero f zeros = refl
sum_to-none (suc n) f zeros =
    omega (arith, sum_to-none n f (λ k lt. zeros k (omega arith)), zeros n (omega arith))

-- Just one of the terms counts.
sum_to-one : (m n : ℕ) (f : ℕ → ℕ) → m < n → ((k : ℕ) → k < n → k ≢ m → f k ≡ 0) → sum_to n f ≡ f m
sum_to-one m zero f lt zeros = absurd (omega arith)
sum_to-one m (suc n) f lt zeros = elim (eq_or_ne n m) [
  | inl same ↦
      let rest = sum_to-none n f (λ k below. zeros k (omega arith) (λ e. omega arith)) in
      omega (arith, rest, ap f same)
  | inr other ↦
      let rest =
        sum_to-one m n f (omega arith) (λ k below differs. zeros k (omega arith) differs) in
      omega (arith, rest, zeros n (omega arith) other)
]

module _ (size : ℕ) (sequence : ℕ → ℕ) where
  -- How often round `i` reads the vector at `u`.
  abbrev pub reads_of : (u i : ℕ) → ℕ
  reads_of u i = occurrences u (block_vectors (size / 4) 0 (size / 4) (sequence i * size / 4))

  -- After the rounds before `at`.
  record Passed (at : ℕ) (p : Pass) : Type 0 where
    pub loaded : (u : ℕ) → occurrences u p.loaded ≡ sum_to at (reads_of u)
    pub counted : p.progress + p.local_bytes ≡ at * size

  next_bytes : (at : ℕ) → (at + 1) * size ≡ at * size + size
  next_bytes at = grind arith

  pass_block-Passed :
      (at : ℕ) (p : Pass) → Passed at p → Passed (at + 1) (pass_block size sequence at p)
  unfolding pass_block
  pass_block-Passed at p h =
      let loaded = λ (u : ℕ).
        occurrences-append u p.loaded
          (block_vectors (size / 4) 0 (size / 4) (sequence at * size / 4))
        ∙ ap (λ c. c + reads_of u at) (h.loaded u)
        ∙ sym (sum_to-next (reads_of u) (at + 1) at refl) in
      if_both (Passed (at + 1)) _ _ _
        (record { loaded = loaded; counted = omega (arith, h.counted, next_bytes at) })
        (record { loaded = loaded; counted = omega (arith, h.counted, next_bytes at) })

  pub block_pass_lem :
      (n : ℕ)
      → ((u : ℕ) → occurrences u (block_pass size n sequence).0 ≡ sum_to n (reads_of u))
        × ((block_pass size n sequence).1 ≡ n * size)
  unfolding block_pass
  block_pass_lem n =
      let start : Pass = record { loaded = []; local_bytes = 0; progress = 0 } in
      let passed =
        for_range_zero Passed (pass_block size sequence) n (λ at p lt h. pass_block-Passed at p h)
          start (record { loaded = λ u. refl; counted = omega arith }) in
      (passed.loaded, passed.counted)

quarter : (a q : ℕ) → a * (q * 32) / 4 ≡ a * (q * 8)
quarter a q =
    let e : a * (q * 32) ≡ a * (q * 8) * 4 = grind arith in
    ap (λ n. n / 4) e ∙ mul-div_cancel (a * (q * 8)) (omega arith)

quarter_block : (q : ℕ) → q * 32 / 4 ≡ q * 8
quarter_block q = omega arith

less : (a b : ℕ) → a ≢ b → (b < a → ⊥) → a < b
less a b differ not_below = ground arith

module _ (q : ℕ) (some : 1 ≤ q) (sequence : ℕ → ℕ) where
  -- The vectors of round `i`, without the divisions.
  abbrev vectors_of : (i : ℕ) → List ℕ
  vectors_of i = block_vectors (q * 8) 0 (q * 8) (sequence i * (q * 8))

  reads-vectors_of : (u i : ℕ) → reads_of (q * 32) sequence u i ≡ occurrences u (vectors_of i)
  reads-vectors_of u i = rw (quarter_block q, quarter (sequence i) q) refl

  -- The round that reads block `b` reads each of its vectors once.
  reads-same :
      (i b k : ℕ) → sequence i ≡ b → k < q → reads_of (q * 32) sequence (b * (q * 8) + k * 8) i ≡ 1
  reads-same i b k same lt =
      let e : b * (q * 8) + (0 + k * 8) ≡ b * (q * 8) + k * 8 = omega arith in
      reads-vectors_of (b * (q * 8) + k * 8) i
      ∙ ap (λ a. occurrences (b * (q * 8) + k * 8) (block_vectors (q * 8) 0 (q * 8) (a * (q * 8))))
          same
      ∙ ap (λ u. occurrences u (block_vectors (q * 8) 0 (q * 8) (b * (q * 8)))) (sym e)
      ∙ vectors-hit k (q * 8) 0 (q * 8) (b * (q * 8)) (omega arith) (omega arith)

  reads-other :
      (i b k : ℕ) → sequence i ≢ b → k < q → reads_of (q * 32) sequence (b * (q * 8) + k * 8) i ≡ 0
  reads-other i b k other lt =
      reads-vectors_of (b * (q * 8) + k * 8) i
      ∙ vectors-miss (b * (q * 8) + k * 8) (q * 8) 0 (q * 8) (sequence i * (q * 8))
          (elim (dec_lt b (sequence i)) [
            | yes below ↦ inl (omega (arith, before b (sequence i) (q * 8) below))
            | no not_below ↦
                inr (
                  omega
                    (arith, before (sequence i) b (q * 8) (less (sequence i) b other not_below)))
          ])

-- When the block size is a positive multiple of 32 bytes and the indices are a permutation, the random
-- read reads each 8 `int32_t` of the blocks of the thread's share exactly once, and reports the bytes of
-- these blocks.
pub random_read_once :
    (q per : ℕ) (indices : ℕ → ℕ)
    → 1 ≤ q
    → IsPermutation (per / (q * 32)) indices
    → ((b k : ℕ)
        → b < per / (q * 32)
        → k < q
        → occurrences (b * (q * 8) + k * 8) (random_read (q * 32) per indices).0 ≡ 1)
      × ((random_read (q * 32) per indices).1 ≡ per / (q * 32) * (q * 32))
unfolding random_read
random_read_once q per indices some p =
    let all = block_pass_lem (q * 32) indices (per / (q * 32)) in
    (
      λ b k lt small.
          all.0 (b * (q * 8) + k * 8)
          ∙ sum_to-one (p.place b) (per / (q * 32)) _ (p.place_lt b lt) (λ i below differs.
            reads-other q some indices i b k
              (λ e. differs (sym (p.place-index i below) ∙ ap p.place e)) small)
          ∙ reads-same q some indices (p.place b) b k (p.index-place b lt) small,
      all.1,
    )

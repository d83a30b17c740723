-- ===== src/Bench/Blocks.antt =====
-- src/benchmark.cpp, `measureRandomRead` and `measureZipfianRead`: the blocks that a thread reads, the
-- vectors of each, and the bytes that it reports.
--
-- What `shuffle` leaves in the indices, the comparison of `double` and the random numbers are parameters.
use mio_xcena.Base.{
  ℕ, zero, suc, ◌+◌, ◌*◌, ◌/◌, ◌%◌, ◌==◌, leb, Bool, if◌then◌else◌, List, [], ◌∷◌, ◌++◌, for_range,
}

-- The loop over a block: the offsets, in `int32_t`, of the vectors that fit.
unfoldable pub block_vectors : (fuel j block_ints offset_ints : ℕ) → List ℕ
block_vectors zero j block_ints offset_ints = []
block_vectors (suc fuel) j block_ints offset_ints =
    let rest = block_vectors fuel (j + 8) block_ints offset_ints in
    if leb (j + 8) block_ints then (offset_ints + j) ∷ rest else []

-- The vectors read so far, and the bytes counted here and reported.
pub record Pass : Type 0 where
  pub loaded : List ℕ
  pub local_bytes : ℕ
  pub progress : ℕ

-- Round `i` reads the block that stands at `i` in the sequence.
unfoldable pub pass_block : (block_size : ℕ) → (sequence : ℕ → ℕ) → ℕ → Pass → Pass
pass_block block_size sequence i p =
    let offset_ints = sequence i * block_size / 4 in
    let block_ints = block_size / 4 in
    let loaded = p.loaded ++ block_vectors block_ints 0 block_ints offset_ints in
    let local_bytes = p.local_bytes + block_size in
    if (i + 1) % 1000 == 0
    then record { loaded = loaded; local_bytes = 0; progress = p.progress + local_bytes }
    else record { loaded = loaded; local_bytes = local_bytes; progress = p.progress }

-- The vectors in the order in which they are read, and the bytes reported.
unfoldable pub block_pass : (block_size num_blocks : ℕ) → (sequence : ℕ → ℕ) → List ℕ × ℕ
block_pass block_size num_blocks sequence =
    let p =
      for_range num_blocks 0 (pass_block block_size sequence)
        (record { loaded = []; local_bytes = 0; progress = 0 }) in
    (p.loaded, p.progress + p.local_bytes)

-- `measureRandomRead`: every block of the thread's share, in the order of the indices.
unfoldable pub random_read : (block_size per_thread_size : ℕ) → (indices : ℕ → ℕ) → List ℕ × ℕ
random_read block_size per_thread_size indices =
    block_pass block_size (per_thread_size / block_size) indices

module _ {Double : Type 0} (less : Double → Double → Bool) where
  -- `lower_bound`: the first of the entries that is not less than `u`, or their number.
  unfoldable pub sample_zipfian : List Double → Double → ℕ
  sample_zipfian [] u = 0
  sample_zipfian (c ∷ cdf) u = let rest = sample_zipfian cdf u in if less c u then suc rest else 0

  unfoldable pub access_sequence : List Double → (u : ℕ → Double) → (indices : ℕ → ℕ) → ℕ → ℕ
  access_sequence cdf u indices i = indices (sample_zipfian cdf (u i))

  -- `measureZipfianRead`: as many blocks, drawn with repetition.
  unfoldable pub zipfian_pass :
      (block_size per_thread_size : ℕ)
      → List Double
      → (u : ℕ → Double) → (indices : ℕ → ℕ) → List ℕ × ℕ
  zipfian_pass block_size per_thread_size cdf u indices =
      block_pass block_size (per_thread_size / block_size) (access_sequence cdf u indices)

-- ===== src/Bench/Tests.antt =====
-- Small runs of the benchmark's measurements.
use mio_xcena.Base.{
  ◌≤◌, ℕ, ◌/◌, if◌then◌else◌, ◌==◌, ◌≢◌, u32, ◌+◌, ◌-◌, ltb, ◌*◌, ◌%◌, ◌^◌, ◌<◌, ◌≡◌, refl, none,
  some, [], ◌∷◌, arith, for_range,
}
use mio_xcena.Bench.Scatter.{random_write}
use mio_xcena.Bench.Scatter.Placed.{random_write_placed}
use mio_xcena.Bench.Chase.{
  chase_regions, find_aux_node, swap, shuffle, shuffled, store, link_node, link_nodes, chase,
  load_round,
}
use mio_xcena.Bench.Cycle.{chase_cycle}
use mio_xcena.Bench.Stride.{counter, block_places, phase_places, stride_places}
use mio_xcena.Bench.Counters.{occurrences}
use mio_xcena.Bench.Once.{stride_places_once}
use mio_xcena.Bench.Sequential.{
  Ints, add_vector, read_vector, read_vectors, sum_lanes, read_rest, sequential_read,
  sequential_write,
}
use mio_xcena.Bench.Summed.{sum_to, sequential_read_lem}
use mio_xcena.Bench.Permutation.{IsPermutation}
use mio_xcena.Bench.Blocks.{
  block_vectors, pass_block, block_pass, random_read, sample_zipfian, zipfian_pass,
}
use mio_xcena.Bench.Drawn.{random_read_once}
use mio_xcena.Bench.Zipfian.{zipfian_pass_inside}
use mio_xcena.Bench.Touch.{TouchesPage, first_touch_lem}
use mio_xcena.Bench.Stored.{numbered, sequential_write_lem}

-- Four nodes in the order 1, 2, 3, 0.
abbrev to_first : ℕ → ℕ
to_first k = 0

chased : chase 3 (link_nodes 4096 4 (shuffled 4 to_first) (λ a. 0)) 4096 ≡ 4096 + 3 * 64
unfolding chase link_nodes link_node store shuffled shuffle swap for_range
chased = refl

too_small : chase_regions 0 4096 ≡ none
unfolding chase_regions
too_small = refl

other_node : find_aux_node 2 0 0 ≡ some 1
unfolding find_aux_node
other_node = refl

wraps_round : load_round 10 (8, 64) ≡ (0, 96)
unfolding load_round
wraps_round = refl

strided : stride_places 32 32 128 ≡ 0 ∷ 64 ∷ 32 ∷ 96 ∷ []
unfolding stride_places phase_places block_places counter
strided = refl

-- A stride that is not a multiple of the block size: one part is read twice.
read_twice : occurrences 96 (stride_places 64 32 192) ≡ 2
unfolding stride_places phase_places block_places counter
read_twice = refl

abbrev ones : Ints
ones k = 1

summed : sequential_read 9 ones ≡ (9, 36)
unfolding sequential_read read_vectors read_vector add_vector sum_lanes read_rest
summed = refl

chase_cycle_example :
    (chase 4 (link_nodes 4096 4 (shuffled 4 to_first) (λ a. 0)) 4096 ≡ 4096)
    × ((v : ℕ)
        → v < 4
        → (k : ℕ) × (k < 4)
          × (chase k (link_nodes 4096 4 (shuffled 4 to_first) (λ a. 0)) 4096 ≡ 4096 + v * 64)
          × ((j : ℕ)
              → j < 4
              → chase j (link_nodes 4096 4 (shuffled 4 to_first) (λ a. 0)) 4096 ≡ 4096 + v * 64
              → j ≡ k))
chase_cycle_example = chase_cycle 4096 4 to_first (λ a. 0) (omega arith) (λ k. omega arith)

stride_read_once :
    ((w : ℕ) → w * 32 + 32 ≤ 128 → occurrences (w * 32) (stride_places 32 32 128) ≡ 1)
    × ((u : ℕ) → 128 < u + 32 → occurrences u (stride_places 32 32 128) ≡ 0)
stride_read_once = stride_places_once 1 1 128 (omega arith)

sequential_read_sum :
    ((sequential_read 9 ones).0 % 2 ^ 32 ≡ sum_to 9 ones % 2 ^ 32)
    × ((sequential_read 9 ones).1 ≡ 36)
sequential_read_sum = sequential_read_lem 9 ones

sequential_write_lem_example :
    ((k : ℕ) → (sequential_write 9 ones).0 k ≡ numbered 9 ones k)
    × ((sequential_write 9 ones).1 ≡ 36)
sequential_write_lem_example = sequential_write_lem 9 ones

first_touch_lem_example : (t : ℕ) × (t < 3) × TouchesPage 16384 3 t 4096
first_touch_lem_example = first_touch_lem 16384 3 1 (omega arith) refl (omega arith)

-- Three blocks of 64 bytes, with their numbers in the order 2, 1, 0.
abbrev backwards : ℕ → ℕ
backwards k = 2 - k

backwards-IsPermutation : IsPermutation 3 backwards
backwards-IsPermutation = record {
  place = backwards;
  index_lt = λ k lt. omega arith;
  place_lt = λ v lt. omega arith;
  place-index = λ k lt. omega arith;
  index-place = λ v lt. omega arith;
}

random_blocks : random_read 64 200 backwards ≡ (32 ∷ 40 ∷ 16 ∷ 24 ∷ 0 ∷ 8 ∷ [], 192)
unfolding random_read block_pass pass_block block_vectors for_range
random_blocks = refl

-- Blocks of 16 bytes: nothing is read, but their bytes are reported.
nothing_read : random_read 16 48 backwards ≡ ([], 48)
unfolding random_read block_pass pass_block block_vectors for_range
nothing_read = refl

drawn : sample_zipfian ltb (3 ∷ 5 ∷ 6 ∷ []) 4 ≡ 1
unfolding sample_zipfian
drawn = refl

random_read_once_example :
    ((b k : ℕ) → b < 3 → k < 2 → occurrences (b * 16 + k * 8) (random_read 64 200 backwards).0 ≡ 1)
    × ((random_read 64 200 backwards).1 ≡ 192)
random_read_once_example = random_read_once 2 200 backwards (omega arith) backwards-IsPermutation

zipfian_inside :
    ((x : ℕ)
      → 200 < 4 * x + 32
      → occurrences x (zipfian_pass ltb 64 200 (3 ∷ 5 ∷ 6 ∷ []) (λ i. 5) backwards).0 ≡ 0)
    × ((zipfian_pass ltb 64 200 (3 ∷ 5 ∷ 6 ∷ []) (λ i. 5) backwards).1 ≡ 192)
zipfian_inside =
    zipfian_pass_inside ltb 64 200 (3 ∷ 5 ∷ 6 ∷ []) (λ i. 5) backwards refl (λ i. refl)
      (λ k lt. omega arith)

-- Two blocks of 32 bytes, the second one first.
abbrev other_first : ℕ → ℕ
other_first p = if p == 0 then 1 else 0

other_first-differs :
    (a b : ℕ) → a < 64 / (32 * 1) → b < 64 / (32 * 1) → a ≢ b → other_first a ≢ other_first b
other_first-differs a b a_lt b_lt ne = ground arith

random_write_placed_example :
    let r = random_write (32 * 1) 64 other_first ones in
    ((p k : ℕ) → p < 64 / (32 * 1) → k < 8 * 1 → r.0 (other_first p * (8 * 1) + k) ≡ u32 p)
    × ((b k : ℕ)
        → ((p : ℕ) → p < 64 / (32 * 1) → other_first p ≢ b)
        → k < 8 * 1
        → r.0 (b * (8 * 1) + k) ≡ ones (b * (8 * 1) + k))
    × (r.1 ≡ 64 / (32 * 1) * (32 * 1))
random_write_placed_example =
    random_write_placed 1 64 other_first ones (omega arith) other_first-differs

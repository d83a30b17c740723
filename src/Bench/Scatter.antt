-- ===== src/Bench/Scatter.antt =====
-- src/benchmark.cpp, `measureRandomWrite`: what a thread writes to its share, block by block in the order
-- of the indices that `shuffle` leaves (a parameter), and the bytes that it reports. A streaming store and
-- a plain one write the same.
pub mod Placed
use mio_xcena.Base.{
  ℕ, zero, suc, ◌+◌, ◌*◌, ◌/◌, ◌%◌, Bool, ◌&&◌, ◌==◌, leb, ltb, if◌then◌else◌, u32, for_range,
}
use mio_xcena.Bench.Sequential.{Ints}

-- `value` at `&thread_data[at]`: eight copies of one number.
unfoldable pub store_eight : (at value : ℕ) → Ints → Ints
store_eight at value thread_data k = if leb at k && ltb k (at + 8) then value else thread_data k

-- The loop over a block.
unfoldable pub write_block : (fuel j block_ints offset_ints value : ℕ) → Ints → Ints
unfolding store_eight
write_block zero j block_ints offset_ints value thread_data = thread_data
write_block (suc fuel) j block_ints offset_ints value thread_data =
    let rest =
      write_block fuel (j + 8) block_ints offset_ints value
        (store_eight (offset_ints + j) value thread_data) in
    if leb (j + 8) block_ints then rest else thread_data

pub record Scattering : Type 0 where
  pub thread_data : Ints
  pub local_bytes : ℕ
  pub progress : ℕ

-- Round `i` writes `i` to the block that stands at `i` in the indices.
unfoldable pub scatter_block : (block_size : ℕ) → (indices : ℕ → ℕ) → ℕ → Scattering → Scattering
unfolding write_block
scatter_block block_size indices i s =
    let offset_ints = indices i * block_size / 4 in
    let block_ints = block_size / 4 in
    let thread_data = write_block block_ints 0 block_ints offset_ints (u32 i) s.thread_data in
    let local_bytes = s.local_bytes + block_size in
    if (i + 1) % 1000 == 0
    then record { thread_data = thread_data; local_bytes = 0; progress = s.progress + local_bytes }
    else record { thread_data = thread_data; local_bytes = local_bytes; progress = s.progress }

-- The array after the test, and the bytes reported.
unfoldable pub random_write : (block_size per_thread_size : ℕ) → (indices : ℕ → ℕ) → Ints → Ints × ℕ
unfolding scatter_block
random_write block_size per_thread_size indices thread_data =
    let s =
      for_range (per_thread_size / block_size) 0 (scatter_block block_size indices)
        (record { thread_data = thread_data; local_bytes = 0; progress = 0 }) in
    (s.thread_data, s.progress + s.local_bytes)

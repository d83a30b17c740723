-- ===== src/Bench/Sequential.antt =====
-- src/benchmark.cpp: what a thread of `measureSequentialRead` and of `measureSequentialWrite` does with
-- its share of the memory, an array of `int32_t`, and the bytes that it reports to the progress counter.
--
-- An `int32_t` is held by its 32 bits. Times, traces and latency samples are left out; the loads and stores
-- that bypass the cache have the same effect on the array.
use mio_xcena.Base.{
  ℕ, zero, suc, ◌+◌, ◌-◌, ◌*◌, ◌/◌, ◌%◌, ◌^◌, ◌==◌, ltb, leb, if◌then◌else◌, u32, u64, ◌&&◌,
}

abbrev pub Ints : Type 0
Ints = ℕ → ℕ

-- The share of thread `t`: the offset of its first byte, and its number of `int32_t`.
unfoldable pub thread_offset : (size num_threads t : ℕ) → ℕ
thread_offset size num_threads t = t * (size / num_threads)

unfoldable pub thread_ints : (size num_threads : ℕ) → ℕ
thread_ints size num_threads = size / num_threads / 4

-- The loop counter, the eight lanes of `acc`, and the bytes counted here and reported.
pub record Reading : Type 0 where
  pub i : ℕ
  pub acc : ℕ → ℕ
  pub local_bytes : ℕ
  pub progress : ℕ

-- `_mm256_add_epi32` of the lanes and the eight elements at `i`.
unfoldable pub add_vector : (ℕ → ℕ) → Ints → ℕ → ℕ → ℕ
add_vector acc thread_data i lane = u32 (acc lane + thread_data (i + lane))

unfoldable pub read_vector : Ints → Reading → Reading
read_vector thread_data r =
    let acc = add_vector r.acc thread_data r.i in
    let local_bytes = r.local_bytes + 32 in
    if (r.i / 8 + 1) % 1000 == 0
    then record { i = r.i + 8; acc = acc; local_bytes = 0; progress = r.progress + local_bytes }
    else record { i = r.i + 8; acc = acc; local_bytes = local_bytes; progress = r.progress }

unfoldable pub read_vectors : (fuel per_thread_ints : ℕ) → Ints → Reading → Reading
read_vectors zero n thread_data r = r
read_vectors (suc fuel) n thread_data r =
    let rest = read_vectors fuel n thread_data (read_vector thread_data r) in
    if leb (r.i + 8) n then rest else r

-- An `int32_t` as a `long long`, by its bits.
abbrev pub sign_extend : ℕ → ℕ
sign_extend x = if ltb x (2 ^ 31) then x else x + (2 ^ 64 - 2 ^ 32)

abbrev pub add_int : ℕ → ℕ → ℕ
add_int sum x = u64 (sum + sign_extend x)

-- The loop over `temp`, the stored lanes, with the sum so far.
unfoldable pub sum_lanes : (left j : ℕ) → (temp : ℕ → ℕ) → (sum : ℕ) → ℕ
sum_lanes zero j temp sum = sum
sum_lanes (suc left) j temp sum = sum_lanes left (j + 1) temp (add_int sum (temp j))

-- The loop over the remaining elements: `left` of them, with the sum and the local bytes.
unfoldable pub read_rest : (left i : ℕ) → Ints → ℕ × ℕ → ℕ × ℕ
read_rest zero i thread_data s = s
read_rest (suc left) i thread_data (sum, local_bytes) =
    read_rest left (i + 1) thread_data (add_int sum (thread_data i), local_bytes + 4)

-- The sum and the bytes reported.
unfoldable pub sequential_read : (per_thread_ints : ℕ) → Ints → ℕ × ℕ
sequential_read n thread_data =
    let r =
      read_vectors n n thread_data
        (record { i = 0; acc = λ lane. 0; local_bytes = 0; progress = 0 }) in
    let s = read_rest (n - r.i) r.i thread_data (sum_lanes 8 0 r.acc 0, r.local_bytes) in
    (s.0, r.progress + s.1)

pub record Writing : Type 0 where
  pub i : ℕ
  pub thread_data : Ints
  pub local_bytes : ℕ
  pub progress : ℕ

-- `data_vec` at `&thread_data[i]`: the values `i` to `i + 7`.
unfoldable pub store_vector : ℕ → Ints → Ints
store_vector i thread_data k = if leb i k && ltb k (i + 8) then u32 k else thread_data k

unfoldable pub write_vector : Writing → Writing
write_vector w =
    let thread_data = store_vector w.i w.thread_data in
    let local_bytes = w.local_bytes + 32 in
    if (w.i / 8 + 1) % 1000 == 0
    then record {
      i = w.i + 8;
      thread_data = thread_data;
      local_bytes = 0;
      progress = w.progress + local_bytes;
    }
    else record {
      i = w.i + 8;
      thread_data = thread_data;
      local_bytes = local_bytes;
      progress = w.progress;
    }

unfoldable pub write_vectors : (fuel per_thread_ints : ℕ) → Writing → Writing
write_vectors zero n w = w
write_vectors (suc fuel) n w =
    let rest = write_vectors fuel n (write_vector w) in if leb (w.i + 8) n then rest else w

unfoldable pub store_int : ℕ → Ints → Ints
store_int i thread_data k = if k == i then u32 i else thread_data k

unfoldable pub write_rest : (left i : ℕ) → Ints × ℕ → Ints × ℕ
write_rest zero i s = s
write_rest (suc left) i (thread_data, local_bytes) =
    write_rest left (i + 1) (store_int i thread_data, local_bytes + 4)

-- The array after the test, and the bytes reported.
unfoldable pub sequential_write : (per_thread_ints : ℕ) → Ints → Ints × ℕ
sequential_write n thread_data =
    let w =
      write_vectors n n
        (record { i = 0; thread_data = thread_data; local_bytes = 0; progress = 0 }) in
    let s = write_rest (n - w.i) w.i (w.thread_data, w.local_bytes) in (s.0, w.progress + s.1)

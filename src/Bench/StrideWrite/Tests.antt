-- ===== src/Bench/StrideWrite/Tests.antt =====
-- Two threads of `measureStrideWrite` (src/benchmark.cpp) on 64 bytes, with blocks and a stride of 32 bytes.
use mio_xcena.Base.{
  set_at, ℕ, ◌+◌, ◌*◌, ◌/◌, ◌%◌, ◌<◌, ◌≤◌, ◌≡◌, refl, true, some, ◌-◌, ◌^◌, [], ◌∷◌, u32, u64,
  Memory, byte_at, arith,
}
use mio_xcena.Bench.Stride.{wrapping_counter, block_offsets, phase_offsets, stride_offsets}
use mio_xcena.Bench.StrideWrite.{
  spinning, writing, finished, joining, joined, Team, store_value, add_bytes, offsets, store_at,
  arrive, begin, store, finish, start_all, join, all_joined, Reach, start, later, init, Steps,
}
use mio_xcena.Bench.StrideWrite.Written.{stride_write_lem}
use mio_xcena.Bench.StrideWrite.Ends.{stride_write_finishes}

abbrev blank : Memory
blank a = 255

first_round : stride_offsets 32 32 128 ≡ some (0 ∷ 64 ∷ 32 ∷ 96 ∷ [])
unfolding stride_offsets phase_offsets block_offsets wrapping_counter
first_round = refl

-- The bytes of thread 258 = 1 * 256 + 2.
value_bytes : store_value 32 258 blank 37 ∷ store_value 32 258 blank 64 ∷ [] ≡ 1 ∷ 255 ∷ []
unfolding store_value
value_bytes = refl

abbrev arrives : ℕ → Team → Team
arrives t s = record s {
  ready_count = u32 (s.ready_count + 1);
  worker = set_at s.worker t spinning;
}

abbrev begins : ℕ → Team → Team
begins t s = record s { worker = set_at s.worker t (writing (0 ∷ []) 0 0) }

abbrev ends : ℕ → Team → Team
ends t s = record s {
  worker = set_at s.worker t finished;
  bytes_processed = add_bytes 32 s.bytes_processed;
}

-- Before the stores, and at the end.
abbrev started : Team
started = begins 0 (
    begins 1 (record (arrives 1 (arrives 0 (init 2 64 32 32 blank))) {
      start_flag = true;
      main = joining 0;
    }))

abbrev last : Team
last =
    record (ends 0
      (ends 1 (store_at 2 64 32 32 0 0 [] 0 0 (store_at 2 64 32 32 1 0 [] 0 0 started)))) {
        main = joined;
      }

share_offsets : offsets 2 64 32 32 ≡ some (0 ∷ [])
unfolding stride_offsets phase_offsets block_offsets wrapping_counter
share_offsets = refl

-- A stride of -64 as `size_t`, with blocks of 64 bytes: nothing is written.
wrapped_stride : stride_offsets 64 (2 ^ 64 - 64) 128 ≡ some []
unfolding stride_offsets phase_offsets block_offsets wrapping_counter
wrapped_stride = refl

started-Reach : Reach 2 64 32 32 blank started
started-Reach =
    later
      (later
        (later (later (later start (arrive 0 (omega arith) refl)) (arrive 1 (omega arith) refl))
          (start_all refl (omega arith)))
        (begin 1 (0 ∷ []) (omega arith) refl refl share_offsets))
      (begin 0 (0 ∷ []) (omega arith) refl refl share_offsets)

last-Reach : Reach 2 64 32 32 blank last
unfolding stride_offsets phase_offsets block_offsets wrapping_counter
last-Reach =
    later
      (later
        (later
          (later
            (later
              (later (later started-Reach (store 1 0 [] 0 0 (omega arith) refl))
                (store 0 0 [] 0 0 (omega arith) refl))
              (finish 1 32 1 (omega arith) refl))
            (finish 0 32 1 (omega arith) refl))
          (join 0 refl (omega arith) refl))
        (join 1 refl (omega arith) refl))
      (all_joined refl)

stride_write_lem_example :
    ((t x : ℕ) → t < 2 → x < 64 / 2 / 32 * 32 → last.memory (t * (64 / 2) + x) ≡ byte_at (x % 4) t)
    × ((t x : ℕ)
        → t < 2
        → 64 / 2 / 32 * 32 ≤ x
        → x < 64 / 2
        → last.memory (t * (64 / 2) + x) ≡ blank (t * (64 / 2) + x))
    × ((a : ℕ) → 2 * (64 / 2) ≤ a → last.memory a ≡ blank a)
    × (last.bytes_processed ≡ u64 (2 * (64 / 2 / 32 * 32)))
stride_write_lem_example =
    stride_write_lem 1 1 2 64 blank last (omega arith) (omega arith) (omega arith) last-Reach refl

stride_write_finishes_example : (t : Team) × Steps 2 64 32 32 started t × (t.main ≡ joined)
stride_write_finishes_example =
    stride_write_finishes 2 64 32 32 (omega arith) (omega arith) (omega arith) started-Reach

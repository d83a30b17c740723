-- ===== src/Bench/StrideWrite/Written.antt =====
-- What `measureStrideWrite` (src/benchmark.cpp) leaves in the memory when its threads are joined, in
-- whatever order their stores were made.
use mio_xcena.Base.{
  some, set_at, total-set_at, ℕ, ◌+◌, ◌*◌, ◌/◌, ◌%◌, ◌<◌, ◌≤◌, ◌^◌, ◌≡◌, inl, inr, refl, ap, ◌∙◌,
  List, length, u64, Memory, byte_at, arith, total, Bool-cases, total-const, total-same,
}
use mio_xcena.Bench.Once.{stride_places_once}
use mio_xcena.Bench.Stride.{stride_places, stride_offsets}
use mio_xcena.Bench.Wrapped.{IsFar, stride_offsets-stride_places}
use mio_xcena.Bench.StrideWrite.{
  Worker, setting_up, spinning, writing, finished, joined, Team, is_update, Step, arrive, begin,
  store, finish, start_all, join, all_joined, Reach, start, later, init,
}
use mio_xcena.Bench.StrideWrite.Aligned.{AllFit, stride_places-AllFit, length-once}
use mio_xcena.Bench.StrideWrite.Kept.{Reach-Control}
-- Byte `x` of share `t`, when 32 bytes are stored at an offset `o` of the share `i`.
use mio_xcena.Bench.StrideWrite.Stored.{Content, moved-Content, stored-Content}

-- The bytes that a thread has still to report.
abbrev pending : ℕ → Worker → ℕ
pending n setting_up = 32 * n
pending n spinning = 32 * n
pending n (writing todo local_bytes _) = local_bytes + 32 * length todo
pending n finished = 0

module _ (num_threads size block_size stride : ℕ) (m₀ : Memory)
    (fit : AllFit (size / num_threads) (stride_places block_size stride (size / num_threads)))
    (ends : stride_offsets block_size stride (size / num_threads)
      ≡ some (stride_places block_size stride (size / num_threads))) where
  abbrev per : ℕ
  per = size / num_threads

  abbrev all : List ℕ
  all = stride_places block_size stride per

  init-Content : Content num_threads per all m₀ (λ _. setting_up) m₀
  init-Content = record {
    fit = λ t. fit;
    among = λ t u some. some;
    done = λ t lt x x_lt in_all none_left. absurd (omega arith);
    kept = λ t x lt x_lt none_in. refl;
    beyond = λ a le. refl;
  }

  step-Content :
      {s s' : Team}
      → Step num_threads size block_size stride s s'
      → Content num_threads per all m₀ s.worker s.memory
      → Content num_threads per all m₀ s'.worker s'.memory
  step-Content {s} (arrive t lt e) c =
      moved-Content num_threads per all m₀ s.worker s.memory t spinning (rw e refl) c
  step-Content {s} (begin t todo lt e on is) c =
      let same : todo ≡ all = cc in
      rw same
        (moved-Content num_threads per all m₀ s.worker s.memory t (writing all 0 0) (rw e refl) c)
  step-Content {s} (store t o todo b a lt e) c =
      stored-Content num_threads per all m₀ s.worker s.memory t o todo b a _ _ lt e c
  step-Content {s} (finish t b a lt e) c =
      moved-Content num_threads per all m₀ s.worker s.memory t finished (rw e refl) c
  step-Content (start_all e full) c = c
  step-Content (join k e lt done) c = c
  step-Content (all_joined e) c = c

  Reach-Content :
      {s : Team}
      → Reach num_threads size block_size stride m₀ s
      → Content num_threads per all m₀ s.worker s.memory
  Reach-Content start = init-Content
  Reach-Content (later r st) = step-Content st (Reach-Content r)

  -- The bytes reported and those to be reported are all bytes.
  abbrev Counted : Team → Type 0
  Counted s =
      (b : ℕ) × (s.bytes_processed ≡ u64 b)
      × (b + total num_threads (λ i. pending (length all) (s.worker i))
          ≡ num_threads * (32 * length all))

  -- Thread `t` changes and reports `bytes`.
  reported-Counted :
      (s : Team) (t bytes bytes_processed : ℕ) (v : Worker)
      → t < num_threads
      → bytes_processed ≡ u64 (s.bytes_processed + bytes)
      → pending (length all) v + bytes ≡ pending (length all) (s.worker t)
      → Counted s
      → (b : ℕ) × (bytes_processed ≡ u64 b)
        × (b + total num_threads (λ i. pending (length all) (set_at s.worker t v i))
            ≡ num_threads * (32 * length all))
  reported-Counted s t bytes bytes_processed v lt e sum (b, is, all_bytes) = (
    b + bytes,
    omega (arith, e, is),
    omega (arith, sum, all_bytes, total-set_at (pending (length all)) num_threads s.worker t v lt),
  )

  step-Counted :
      {s s' : Team} → Step num_threads size block_size stride s s' → Counted s → Counted s'
  step-Counted {s} (arrive t lt e) c =
      reported-Counted s t 0 s.bytes_processed spinning lt (omega (arith, c.1)) (rw e (omega arith))
        c
  step-Counted {s} (begin t todo lt e on is) c =
      let same : todo ≡ all = cc in
      rw same (
        reported-Counted s t 0 s.bytes_processed (writing all 0 0) lt (omega (arith, c.1))
          (rw e (omega arith)) c)
  step-Counted {s} (store t o todo b a lt e) c = elim (Bool-cases (is_update (a + 1))) [
    | inl on ↦
        rw on
          (reported-Counted s t (b + 32) _ (writing todo 0 (a + 1)) lt refl (rw e (omega arith)) c)
    | inr off ↦ rw off (
        reported-Counted s t 0 s.bytes_processed (writing todo (b + 32) (a + 1)) lt
          (omega (arith, c.1)) (rw e (omega arith)) c)
  ]
  step-Counted {s} (finish t b a lt e) c =
      reported-Counted s t b _ finished lt refl (rw e (omega arith)) c
  step-Counted (start_all e full) c = c
  step-Counted (join k e lt done) c = c
  step-Counted (all_joined e) c = c

  init-Counted : Counted (init num_threads size block_size stride m₀)
  init-Counted = (0, refl, omega (arith, total-const num_threads (32 * length all)))

  Reach-Counted : {s : Team} → Reach num_threads size block_size stride m₀ s → Counted s
  Reach-Counted start = init-Counted
  Reach-Counted (later r st) = step-Counted st (Reach-Counted r)

  all_reported :
      (s : Team)
      → ((t : ℕ) → t < num_threads → s.worker t ≡ finished)
      → Counted s
      → s.bytes_processed ≡ u64 (num_threads * (32 * length all))
  all_reported s ended (b, is, all_bytes) =
      let none_pending : total num_threads (λ i. pending (length all) (s.worker i)) ≡ 0 =
        total-same num_threads (λ i. pending (length all) (s.worker i)) (λ i. 0)
          (λ i lt. rw (ended i lt) refl)
        ∙ total-const num_threads 0
        ∙ (omega arith) in
      omega (arith, is, all_bytes, none_pending)

-- Write with a block size that is a positive multiple of 32 bytes and a stride that is a multiple of the
-- block size, by fewer than 2^31 threads, where a thread's share, the stride, two blocks and 32 bytes are
-- together at most 2^64 bytes. When the threads are joined, in whatever order their stores were
-- made: each share of `size / num_threads` bytes holds the number of its thread in every four bytes, as
-- far as the share has whole units of 32 bytes; the rest of the share and the memory behind the shares are
-- as they were; and the bytes reported are those of the units of all shares, modulo 2^64.
pub stride_write_lem :
    (q r num_threads size : ℕ) (m : Memory) (s : Team)
    → 1 ≤ q
    → num_threads < 2 ^ 31
    → IsFar (q * 32) (r * (q * 32)) (size / num_threads)
    → Reach num_threads size (q * 32) (r * (q * 32)) m s
    → s.main ≡ joined
    → let per = size / num_threads in
      ((t x : ℕ) → t < num_threads → x < per / 32 * 32 → s.memory (t * per + x) ≡ byte_at (x % 4) t)
      × ((t x : ℕ)
          → t < num_threads
          → per / 32 * 32 ≤ x
          → x < per
          → s.memory (t * per + x) ≡ m (t * per + x))
      × ((a : ℕ) → num_threads * per ≤ a → s.memory a ≡ m a)
      × (s.bytes_processed ≡ u64 (num_threads * (per / 32 * 32)))
stride_write_lem q r num_threads size m s pos small far h end =
    let per = size / num_threads in
    let fit = stride_places-AllFit q r per in
    let ends = stride_offsets-stride_places (q * 32) (r * (q * 32)) per (omega arith) far in
    let once = stride_places_once q r per pos in
    let control = Reach-Control num_threads size (q * 32) (r * (q * 32)) small h in
    let ended : (t : ℕ) → t < num_threads → s.worker t ≡ finished =
      λ t lt. control.ended t (rw end lt) in
    let c = Reach-Content num_threads size (q * 32) (r * (q * 32)) m fit ends h in
    let bytes =
      all_reported num_threads size (q * 32) (r * (q * 32)) m fit ends s ended
        (Reach-Counted num_threads size (q * 32) (r * (q * 32)) m fit ends h) in
    let units = length-once per _ fit once.0 in
    (
      λ t x lt x_lt.
          c.done t lt x (omega arith) (omega (arith, once.0 (x / 32) (omega arith)))
            (rw (ended t lt) refl),
      λ t x lt from x_lt. c.kept t x lt x_lt (once.1 (x / 32 * 32) (omega arith)),
      c.beyond,
      rw units at bytes ∙ ap u64 (grind arith),
    )

-- ===== src/Bench/StrideWrite/Ends.antt =====
-- `measureStrideWrite` (src/benchmark.cpp) comes to its end: its threads and the thread that joins them
-- never wait for each other for ever.
use mio_xcena.Base.{
  List, some, ◌/◌, set_at, total-set_at, ℕ, zero, suc, ◌+◌, ◌-◌, ◌<◌, ◌≤◌, ◌^◌, ◌≡◌, ◌⊎◌, inl, inr,
  refl, Bool, true, false, not, [], ◌∷◌, length, Memory, arith, ap, ◌∙◌, total, total-ones, find,
  if◌then◌else◌,
}
use native.Mathlib.Decide.{dec_lt}
use mio_xcena.Bench.Stride.{stride_places}
use mio_xcena.Bench.Wrapped.{IsFar, stride_offsets-stride_places}
use mio_xcena.Bench.StrideWrite.{
  Worker, setting_up, spinning, writing, finished, Main, waiting, joining, joined, Team, is_update,
  offsets, Step, arrive, begin, store, finish, start_all, join, all_joined, Reach, later, Steps,
  none_left, more,
}
use mio_xcena.Bench.StrideWrite.Kept.{arrived, Control, Reach-Control}

-- How many steps a thread has still to take, if it has `n` stores to make.
abbrev worker_left : ℕ → Worker → ℕ
worker_left n setting_up = n + 3
worker_left n spinning = n + 2
worker_left n (writing todo _ _) = length todo + 1
worker_left n finished = 0

abbrev main_left : ℕ → Main → ℕ
main_left n waiting = n + 2
main_left n (joining k) = n + 1 - k
main_left n joined = 0

is_setting_up : Worker → Bool
is_setting_up setting_up = true
is_setting_up spinning = false
is_setting_up (writing _ _ _) = false
is_setting_up finished = false

set_up-arrived : (w : Worker) → not (is_setting_up w) ≡ true → arrived w ≡ 1
unfolding is_setting_up
set_up-arrived w e = ground arith

still-setting_up : (w : Worker) → not (is_setting_up w) ≡ false → w ≡ setting_up
unfolding is_setting_up
still-setting_up w e = ground arith

module _ (num_threads size block_size stride : ℕ) (all : List ℕ) where
  abbrev stores : ℕ
  stores = length all

  -- The steps that are left.
  abbrev left : Team → ℕ
  left s = total num_threads (λ i. worker_left stores (s.worker i)) + main_left num_threads s.main

  -- A step can be taken that leaves fewer.
  abbrev Moves : Team → Type 0
  Moves s = (t : Team) × Step num_threads size block_size stride s t × (left t < left s)

  -- The sum when thread `i` changes.
  sum_after :
      (s : Team) (i : ℕ) (v : Worker)
      → i < num_threads
      → total num_threads (λ j. worker_left stores (set_at s.worker i v j))
          + worker_left stores (s.worker i)
        ≡ total num_threads (λ j. worker_left stores (s.worker j)) + worker_left stores v
  sum_after s i v lt = total-set_at (worker_left stores) num_threads s.worker i v lt

  worker-Moves :
      (s : Team) (i : ℕ) (w : Worker)
      → i < num_threads
      → s.start_flag ≡ true
      → s.worker i ≡ w
      → offsets num_threads size block_size stride ≡ some all
      → (s.worker i ≡ finished) ⊎ Moves s
  worker-Moves s i setting_up lt on e ends =
      inr (_, arrive i lt e, omega (arith, sum_after s i spinning lt, ap (worker_left stores) e))
  worker-Moves s i spinning lt on e ends = inr (
    _,
    begin i all lt e on ends,
    omega (arith, sum_after s i (writing all 0 0) lt, ap (worker_left stores) e),
  )
  worker-Moves s i (writing [] b a) lt on e ends =
      inr
        (_, finish i b a lt e, omega (arith, sum_after s i finished lt, ap (worker_left stores) e))
  worker-Moves s i (writing (o ∷ os) b a) lt on e ends =
      let next = writing os (if is_update (a + 1) then 0 else b + 32) (a + 1) in
      inr
        (_, store i o os b a lt e, omega (arith, sum_after s i next lt, ap (worker_left stores) e))
  worker-Moves s i finished lt on e ends = inl e

module _ (num_threads size block_size stride : ℕ) (small : num_threads < 2 ^ 31) (all : List ℕ)
    (ends : offsets num_threads size block_size stride ≡ some all) where
  waiting-Moves :
      (s : Team)
      → Control num_threads s
      → s.main ≡ waiting
      → Moves num_threads size block_size stride all s
  waiting-Moves s c e = elim (find num_threads (λ i. not (is_setting_up (s.worker i)))) [
    | inr (i, lt, f) ↦
        let at = still-setting_up (s.worker i) f in
        (
          _,
          arrive i lt at,
          omega (
            arith,
            sum_after num_threads size block_size stride all s i spinning lt,
            ap (worker_left (stores num_threads size block_size stride all)) at,
          ),
        )
    | inl all_up ↦
        let full =
          total-ones num_threads (λ i. arrived (s.worker i))
            (λ i lt. set_up-arrived (s.worker i) (all_up i lt)) in
        (_, start_all e (omega (arith, full, c.ready)), omega (arith, ap (main_left num_threads) e))
  ]

  joining-Moves :
      (s : Team) (k : ℕ)
      → Control num_threads s
      → s.main ≡ joining k
      → Moves num_threads size block_size stride all s
  joining-Moves s k c e =
      let on : s.start_flag ≡ true = ground (arith, c.waits) in
      let le : k ≤ num_threads = rw e at c.limit in
      elim (dec_lt k num_threads) [
        | yes lt ↦
            elim (worker-Moves num_threads size block_size stride all s k (s.worker k) lt on refl
              ends) [
                | inr moves ↦ moves
                | inl done ↦ (_, join k e lt done, omega (arith, ap (main_left num_threads) e))
              ]
        | no not_lt ↦
            let same : k ≡ num_threads = omega arith in
            (_, all_joined (e ∙ ap joining same), omega (arith, ap (main_left num_threads) e))
      ]

  moves :
      (s : Team) (at : Main)
      → s.main ≡ at
      → Control num_threads s
      → (s.main ≡ joined) ⊎ Moves num_threads size block_size stride all s
  moves s waiting e c = inr (waiting-Moves s c e)
  moves s (joining k) e c = inr (joining-Moves s k c e)
  moves s joined e c = inl e

  finishes :
      {m : Memory} (fuel : ℕ) (origin s : Team)
      → Reach num_threads size block_size stride m s
      → Steps num_threads size block_size stride origin s
      → left num_threads size block_size stride all s ≤ fuel
      → (t : Team) × Steps num_threads size block_size stride origin t × (t.main ≡ joined)
  finishes zero origin s h so_far enough =
      elim (moves s s.main refl (Reach-Control num_threads size block_size stride small h)) [
        | inl out ↦ (s, so_far, out)
        | inr (t, st, lt) ↦ absurd (omega (arith, lt))
      ]
  finishes (suc fuel) origin s h so_far enough =
      elim (moves s s.main refl (Reach-Control num_threads size block_size stride small h)) [
        | inl out ↦ (s, so_far, out)
        | inr (t, st, lt) ↦ finishes fuel origin t (later h st) (more so_far st) (omega (arith, lt))
      ]

-- From every reachable state of `measureStrideWrite`, for fewer than 2^31 threads and at least one byte in a
-- block, where a thread's share, the stride, two blocks and 32 bytes are together at most 2^64 bytes, there
-- are steps after which all its threads are joined.
pub stride_write_finishes :
    (num_threads size block_size stride : ℕ)
    → num_threads < 2 ^ 31
    → 1 ≤ block_size
    → IsFar block_size stride (size / num_threads)
    → {m : Memory} {s : Team} → Reach num_threads size block_size stride m s
    → (t : Team) × Steps num_threads size block_size stride s t × (t.main ≡ joined)
stride_write_finishes num_threads size block_size stride small pos far {m} {s} h =
    let all = stride_places block_size stride (size / num_threads) in
    let ends = stride_offsets-stride_places block_size stride (size / num_threads) pos far in
    finishes num_threads size block_size stride small all ends
      (left num_threads size block_size stride all s) s s h none_left (omega arith)

-- ===== src/Gate/Progress.antt =====
-- No wake-up of the gate of custom-test/test2-rdma-fin.c is lost: the threads at the gate never wait for each
-- other for ever.
use mio_xcena.Base.{
  ℕ, zero, suc, Bool-cases, ◌^◌, ◌<◌, ◌≤◌, ◌≡◌, refl, Bool, true, false, ◌⊎◌, inl, inr, arith,
}
use native.Mathlib.Decide.{dec_lt}
use mio_xcena.Gate.{
  Worker, outside, sleeping, woken, passed, Main, busy, dozing, roused, done, System, Step, arrive,
  look_again, call_open, count_again, Reach,
}
use mio_xcena.Gate.Safety.{count, Inv, Reach-Inv}

Main-cases : (m : Main) → ((m ≡ busy) ⊎ (m ≡ roused)) ⊎ ((m ≡ dozing) ⊎ (m ≡ done))
Main-cases m = ground arith

abbrev is_outside : Worker → Bool
is_outside outside = true
is_outside sleeping = false
is_outside woken = false
is_outside passed = false

abbrev is_woken : Worker → Bool
is_woken outside = false
is_woken sleeping = false
is_woken woken = true
is_woken passed = false

-- Either some worker passes the test, or none does.
find_worker :
    (n : ℕ) (f : ℕ → Worker) (p : Worker → Bool)
    → ((i : ℕ) × (i < n) × (p (f i) ≡ true)) ⊎ ((i : ℕ) → i < n → p (f i) ≡ false)
find_worker zero f p = inr (λ i lt. absurd (omega arith))
find_worker (suc n) f p = elim (find_worker n f p) [
  | inl (i, lt, e) ↦ inl (i, omega arith, e)
  | inr rest ↦ elim (Bool-cases (p (f n))) [
    | inl e ↦ inl (n, omega arith, e)
    | inr e ↦ inr (λ i lt. elim (dec_lt i n) [
      | yes below ↦ rest i below
      | no last ↦ let here : n ≡ i = omega arith in rw here at e
    ])
  ]
]

all_arrived :
    (n : ℕ) (f : ℕ → Worker) → ((i : ℕ) → i < n → is_outside (f i) ≡ false) → count n f ≡ n
unfolding count
all_arrived zero f h = refl
all_arrived (suc n) f h =
    ground (arith, all_arrived n f (λ i lt. h i (omega arith)), h n (omega arith))

-- A step of the main thread, once all workers have arrived.
main_moves :
    {n : ℕ} {s : System}
    → Inv n s
    → s.gate.total ≤ n
    → count n s.worker ≡ n
    → ((t : System) × Step n s t) ⊎ ((s.main ≡ done) × (s.gate.is_open ≡ true))
main_moves {s} v small full = elim (Main-cases s.main) [
  | inl (inl e) ↦ inl (_, call_open e)
  | inl (inr e) ↦ inl (_, count_again e)
  | inr (inl e) ↦ absurd (omega (arith, v.counted, v.short_of e, small, full))
  | inr (inr e) ↦ inr (e, v.ended e)
]

-- In every reachable state of fewer than 2^32 workers in which the main thread waits for no more workers than
-- exist, a step other than a waking without a broadcast is possible, or the main thread and all workers are
-- behind the gate.
pub no_deadlock :
    {n total : ℕ} {s : System}
    → n < 2 ^ 32
    → Reach n total s
    → s.gate.total ≤ n
    → ((t : System) × Step n s t) ⊎ ((s.main ≡ done) × ((i : ℕ) → i < n → s.worker i ≡ passed))
no_deadlock {n} {s} few r small = elim (find_worker n s.worker is_outside) [
  | inl (i, lt, e) ↦ inl (_, arrive i lt (ground arith))
  | inr in_all ↦ elim (find_worker n s.worker is_woken) [
    | inl (i, lt, e) ↦ inl (_, look_again i lt (ground arith))
    | inr none_woken ↦ elim (main_moves v small (all_arrived n s.worker in_all)) [
      | inl step ↦ inl step
      | inr (ended, o) ↦
          inr (ended, λ i lt. ground (arith, in_all i lt, none_woken i lt, v.shut i, o))
    ]
  ]
]
  where
    v : Inv n s
    v = Reach-Inv few r

-- ===== src/Bench/Loaded/Ends.antt =====
-- `measurePointerChaseWithLoad` (src/benchmark.cpp) comes to its end: its threads never wait for each other for
-- ever, and the load threads see the flag that stops them.
use mio_xcena.Base.{
  ℕ, zero, suc, ◌+◌, ◌-◌, ◌<◌, ◌≤◌, ◌^◌, ◌≡◌, ◌⊎◌, inl, inr, refl, ap, ◌∙◌, Bool, true, false, List,
  arith, total, total-ones, total-set_at, find,
}
use mathlib.Core.Path.{subst}
use native.Mathlib.Decide.{dec_lt}
use mio_xcena.Bench.Chase.{Pointers}
use mio_xcena.Bench.Loaded.{
  total_iterations, Measuring, idle, spinning, chasing, stopped, collected, Loader, setting_up,
  waiting, loading, ended, Main, starting, joining_measurement, joining, joined, Run, Step,
  ready_measuring, start_measuring, chase_next, stop_load, collect, ready_loader, start_loader,
  end_loader, start_all, join_measurement, join, all_joined, Reach, later, Steps, none_left, more,
}
use mio_xcena.Bench.Loaded.Control.{
  measuring_ready, loader_ready, has_started, Position, Control, Reach-Control,
}

-- How many steps each thread has still to take, when the load threads are stopped.
abbrev measuring_left : Measuring → ℕ
measuring_left idle = total_iterations + 4
measuring_left spinning = total_iterations + 3
measuring_left (chasing i current) = total_iterations - i + 2
measuring_left stopped = 1
measuring_left collected = 0

abbrev loader_left : Loader → ℕ
loader_left setting_up = 3
loader_left waiting = 2
loader_left (loading place) = 1
loader_left (ended bytes) = 0

abbrev main_left : ℕ → Main → ℕ
main_left n starting = n + 3
main_left n joining_measurement = n + 2
main_left n (joining k) = n + 1 - k
main_left n joined = 0

is_ready : Loader → Bool
is_ready setting_up = false
is_ready waiting = true
is_ready (loading place) = true
is_ready (ended bytes) = true

is_ready-one : (l : Loader) → is_ready l ≡ true → loader_ready l ≡ 1
unfolding is_ready
is_ready-one l e = ground arith

not_ready : (l : Loader) → is_ready l ≡ false → l ≡ setting_up
unfolding is_ready
not_ready l e = ground arith

module _ (n base size : ℕ) where
  abbrev left : Run → ℕ
  left s = measuring_left s.measuring + total n (λ i. loader_left (s.loader i)) + main_left n s.main

  -- A step can be taken that leaves fewer.
  abbrev Moves : Run → Type 0
  Moves s = (t : Run) × Step n base size s t × (left t < left s)

  -- The measuring thread goes on, or has collected its samples.
  measuring-Moves :
      (s : Run) (t : Measuring)
      → s.start_flag ≡ true
      → s.measuring ≡ t
      → (s.measuring ≡ collected) ⊎ Moves s
  measuring-Moves s idle on e = inr (_, ready_measuring e, omega (arith, ap measuring_left e))
  measuring-Moves s spinning on e =
      inr (_, start_measuring e on, omega (arith, ap measuring_left e))
  measuring-Moves s (chasing i current) on e = elim (dec_lt i total_iterations) [
    | yes lt ↦ inr (_, chase_next i current 0 e lt, omega (arith, ap measuring_left e))
    | no past ↦ inr (_, stop_load i current e (omega arith), omega (arith, ap measuring_left e))
  ]
  measuring-Moves s stopped on e = inr (_, collect e, omega (arith, ap measuring_left e))
  measuring-Moves s collected on e = inl e

  -- A load thread goes on, or has ended, when all are started and stopped.
  loader-Moves :
      (s : Run) (i : ℕ) (l : Loader)
      → i < n
      → s.start_flag ≡ true
      → s.stop_flag ≡ true
      → s.loader i ≡ l
      → ((bytes : ℕ) × (s.loader i ≡ ended bytes)) ⊎ Moves s
  loader-Moves s i setting_up lt on off e = inr (
    _,
    ready_loader i lt e,
    omega (arith, ap loader_left e, total-set_at loader_left n s.loader i waiting lt),
  )
  loader-Moves s i waiting lt on off e = inr (
    _,
    start_loader i lt e on,
    omega (arith, ap loader_left e, total-set_at loader_left n s.loader i (loading (0, 0)) lt),
  )
  loader-Moves s i (loading place) lt on off e = inr (
    _,
    end_loader i place lt e off,
    omega (arith, ap loader_left e, total-set_at loader_left n s.loader i (ended (place.1)) lt),
  )
  loader-Moves s i (ended bytes) lt on off e = inl (bytes, e)

  measuring_ready-Moves :
      (s : Run) (t : Measuring) → s.measuring ≡ t → (measuring_ready s.measuring ≡ 1) ⊎ Moves s
  measuring_ready-Moves s idle e = inr (_, ready_measuring e, omega (arith, ap measuring_left e))
  measuring_ready-Moves s spinning e = inl (ap measuring_ready e)
  measuring_ready-Moves s (chasing i current) e = inl (ap measuring_ready e)
  measuring_ready-Moves s stopped e = inl (ap measuring_ready e)
  measuring_ready-Moves s collected e = inl (ap measuring_ready e)

  -- Some thread is not ready yet, or all are and are started.
  starting-Moves : (s : Run) → Control n s → s.main ≡ starting → Moves s
  starting-Moves s c e = elim (find n (λ i. is_ready (s.loader i))) [
    | inr (i, lt, f) ↦
        let at = not_ready (s.loader i) f in
        (
          _,
          ready_loader i lt at,
          omega (arith, ap loader_left at, total-set_at loader_left n s.loader i waiting lt),
        )
    | inl all ↦ elim (measuring_ready-Moves s s.measuring refl) [
      | inr moves ↦ moves
      | inl one ↦
          let full =
            total-ones n (λ i. loader_ready (s.loader i))
              (λ i lt. is_ready-one (s.loader i) (all i lt)) in
          (_, start_all e (omega (arith, c.ready, full, one)), omega (arith, ap (main_left n) e))
    ]
  ]

  joining-Moves : (s : Run) (k : ℕ) → Control n s → s.main ≡ joining k → Moves s
  joining-Moves s k c e =
      let (le, off) = subst (λ w. Position n w s.stop_flag) e c.position in
      let on : s.start_flag ≡ true = c.starts ∙ ap has_started e in
      elim (dec_lt k n) [
        | yes lt ↦ elim (loader-Moves s k (s.loader k) lt on off refl) [
          | inr moves ↦ moves
          | inl (bytes, done) ↦ (_, join k bytes e lt done, omega (arith, ap (main_left n) e))
        ]
        | no not_lt ↦
            let same : k ≡ n = omega arith in
            (_, all_joined (e ∙ ap joining same), omega (arith, ap (main_left n) e))
      ]

  moves : (s : Run) (w : Main) → Control n s → s.main ≡ w → (s.main ≡ joined) ⊎ Moves s
  moves s starting c e = inr (starting-Moves s c e)
  moves s joining_measurement c e =
      elim (measuring-Moves s s.measuring (c.starts ∙ ap has_started e) refl) [
        | inr next ↦ inr next
        | inl done ↦ inr (_, join_measurement e done, omega (arith, ap (main_left n) e))
      ]
  moves s (joining k) c e = inr (joining-Moves s k c e)
  moves s joined c e = inl e

module _ (n base size : ℕ) (small : n + 1 < 2 ^ 31) where
  finishes :
      {m : Pointers} {g : List ℕ} (fuel : ℕ) (origin s : Run)
      → Reach n base size m g s
      → Steps n base size origin s
      → left n base size s ≤ fuel
      → (t : Run) × Steps n base size origin t × (t.main ≡ joined)
  finishes zero origin s h so_far enough =
      elim (moves n base size s s.main (Reach-Control n base size small h) refl) [
        | inl out ↦ (s, so_far, out)
        | inr (t, st, lt) ↦ absurd (omega (arith, lt))
      ]
  finishes (suc fuel) origin s h so_far enough =
      elim (moves n base size s s.main (Reach-Control n base size small h) refl) [
        | inl out ↦ (s, so_far, out)
        | inr (t, st, lt) ↦ finishes fuel origin t (later h st) (more so_far st) (omega (arith, lt))
      ]

  -- From every reachable state of `measurePointerChaseWithLoad`, for fewer than 2^31 - 1 load threads, there
  -- are steps after which all its threads are joined.
  pub loaded_finishes :
      {m : Pointers} {g : List ℕ} {s : Run}
      → Reach n base size m g s
      → (t : Run) × Steps n base size s t × (t.main ≡ joined)
  loaded_finishes {m} {g} {s} h = finishes (left n base size s) s s h none_left (omega arith)

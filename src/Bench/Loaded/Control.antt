-- ===== src/Bench/Loaded/Control.antt =====
-- What the threads of `measurePointerChaseWithLoad` (src/benchmark.cpp) know of one another in every state.
use mio_xcena.Base.{
  ℕ, ◌+◌, ◌<◌, ◌≤◌, ◌^◌, ◌≡◌, refl, ap, ◌∙◌, Bool, true, false, List, arith, set_at, total,
  total-le, total-set_at,
}
use mathlib.Core.Path.{subst}
use mio_xcena.Bench.Chase.{Pointers}
use mio_xcena.Bench.Loaded.{
  Measuring, idle, spinning, chasing, stopped, collected, Loader, setting_up, waiting, loading,
  ended, Main, starting, joining_measurement, joining, joined, Run, Step, ready_measuring,
  start_measuring, chase_next, stop_load, collect, ready_loader, start_loader, load_read,
  load_write, end_loader, start_all, join_measurement, join, all_joined, Reach, start, later,
}

abbrev pub measuring_ready : Measuring → ℕ
measuring_ready idle = 0
measuring_ready spinning = 1
measuring_ready (chasing i current) = 1
measuring_ready stopped = 1
measuring_ready collected = 1

abbrev pub loader_ready : Loader → ℕ
loader_ready setting_up = 0
loader_ready waiting = 1
loader_ready (loading place) = 1
loader_ready (ended bytes) = 1

abbrev pub has_stopped : Measuring → Bool
has_stopped idle = false
has_stopped spinning = false
has_stopped (chasing i current) = false
has_stopped stopped = true
has_stopped collected = true

abbrev pub has_started : Main → Bool
has_started starting = false
has_started joining_measurement = true
has_started (joining k) = true
has_started joined = true

-- The measuring thread has stopped the load when it is joined, and `k` is in range.
abbrev pub Position : ℕ → Main → Bool → Type 0
Position n starting stop_flag = Unit {0}
Position n joining_measurement stop_flag = Unit {0}
Position n (joining k) stop_flag = (k ≤ n) × (stop_flag ≡ true)
Position n joined stop_flag = Unit {0}

Position-stop : (n : ℕ) (w : Main) (b : Bool) → Position n w b → Position n w true
Position-stop n starting b h = tt
Position-stop n joining_measurement b h = tt
Position-stop n (joining k) b h = (h.0, refl)
Position-stop n joined b h = tt

loader_ready-le : (l : Loader) → loader_ready l ≤ 1
loader_ready-le l = ground arith

measuring_ready-le : (t : Measuring) → measuring_ready t ≤ 1
measuring_ready-le t = ground arith

pub record Control (n : ℕ) (s : Run) : Type 0 where
  pub ready : s.ready_count ≡ measuring_ready s.measuring + total n (λ i. loader_ready (s.loader i))
  pub stops : s.stop_flag ≡ has_stopped s.measuring
  pub starts : s.start_flag ≡ has_started s.main
  pub position : Position n s.main s.stop_flag

module _ (n base size : ℕ) (small : n + 1 < 2 ^ 31) where
  -- A load thread that is ready changes.
  moved-Control :
      (s : Run) (t : ℕ) (v : Loader) (memory : Pointers)
      → t < n
      → loader_ready (s.loader t) ≡ loader_ready v
      → Control n s
      → Control n (record s { loader = set_at s.loader t v; memory = memory })
  moved-Control s t v memory lt same c = record {
    ready = omega (arith, c.ready, same, total-set_at loader_ready n s.loader t v lt);
    stops = c.stops;
    starts = c.starts;
    position = c.position;
  }

  loaders-le : (s : Run) → total n (λ i. loader_ready (s.loader i)) ≤ n
  loaders-le s =
      omega
        (arith, total-le n 1 (λ i. loader_ready (s.loader i)) (λ i. loader_ready-le (s.loader i)))

  step-Control : {s t : Run} → Step n base size s t → Control n s → Control n t
  step-Control {s} (ready_measuring e) c = record {
    ready = omega (arith, c.ready, ap measuring_ready e, loaders-le s);
    stops = c.stops ∙ ap has_stopped e;
    starts = c.starts;
    position = c.position;
  }
  step-Control {s} (start_measuring e on) c = record {
    ready = omega (arith, c.ready, ap measuring_ready e);
    stops = c.stops ∙ ap has_stopped e;
    starts = c.starts;
    position = c.position;
  }
  step-Control {s} (chase_next i current cycles e lt) c = record {
    ready = omega (arith, c.ready, ap measuring_ready e);
    stops = c.stops ∙ ap has_stopped e;
    starts = c.starts;
    position = c.position;
  }
  step-Control {s} (stop_load i current e le) c = record {
    ready = omega (arith, c.ready, ap measuring_ready e);
    stops = refl;
    starts = c.starts;
    position = Position-stop n s.main s.stop_flag c.position;
  }
  step-Control {s} (collect e) c = record {
    ready = omega (arith, c.ready, ap measuring_ready e);
    stops = c.stops ∙ ap has_stopped e;
    starts = c.starts;
    position = c.position;
  }
  step-Control {s} (ready_loader t lt e) c =
      let counted = total-set_at loader_ready n s.loader t waiting lt in
      let few = loaders-le (record s { loader = set_at s.loader t waiting }) in
      record {
        ready =
            omega (arith, c.ready, ap loader_ready e, counted, few, measuring_ready-le s.measuring);
        stops = c.stops;
        starts = c.starts;
        position = c.position;
      }
  step-Control {s} (start_loader t lt e on) c =
      moved-Control s t (loading (0, 0)) s.memory lt (ap loader_ready e) c
  step-Control {s} (load_read t place lt e off) c =
      moved-Control s t _ s.memory (omega arith) (ap loader_ready e) c
  step-Control {s} (load_write t place memory ge lt e off same) c =
      moved-Control s t _ memory lt (ap loader_ready e) c
  step-Control {s} (end_loader t place lt e on) c =
      moved-Control s t _ s.memory lt (ap loader_ready e) c
  step-Control {s} (start_all e full) c = record {
    ready = c.ready;
    stops = c.stops;
    starts = refl;
    position = tt;
  }
  step-Control {s} (join_measurement e done) c = record {
    ready = c.ready;
    stops = c.stops;
    starts = c.starts ∙ ap has_started e;
    position = (omega arith, c.stops ∙ ap has_stopped done);
  }
  step-Control {s} (join k bytes e lt done) c = record {
    ready = c.ready;
    stops = c.stops;
    starts = c.starts ∙ ap has_started e;
    position = (omega arith, (subst (λ w. Position n w s.stop_flag) e c.position).1);
  }
  step-Control {s} (all_joined e) c = record {
    ready = c.ready;
    stops = c.stops;
    starts = c.starts ∙ ap has_started e;
    position = tt;
  }

  pub Reach-Control : {m : Pointers} {g : List ℕ} {s : Run} → Reach n base size m g s → Control n s
  Reach-Control start = record {
    ready = omega (arith, total-le n 0 (λ i. 0) (λ i. omega arith));
    stops = refl;
    starts = refl;
    position = tt;
  }
  Reach-Control (later r st) = step-Control st (Reach-Control r)

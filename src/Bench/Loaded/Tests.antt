-- ===== src/Bench/Loaded/Tests.antt =====
-- `measurePointerChaseWithLoad` (src/benchmark.cpp) with one load thread, which writes, on 3 GiB from address 0.
use mio_xcena.Base.{
  ℕ, ◌+◌, ◌*◌, ◌≡◌, refl, true, [], ◌∷◌, ◌==◌, if◌then◌else◌, length, u32, set_at, arith,
}
use mio_xcena.Bench.Chase.{Pointers, chase, shuffled, link_nodes}
use mio_xcena.Bench.Loaded.{
  num_samples, spinning, chasing, setting_up, waiting, loading, joining_measurement, joined, Run,
  SameAround, load_address, next_place, ready_measuring, start_measuring, chase_next, ready_loader,
  start_loader, load_write, start_all, Reach, start, later, init, Steps,
}
use mio_xcena.Bench.Loaded.Undisturbed.{num_nodes, measured_undisturbed}
use mio_xcena.Bench.Loaded.Ends.{loaded_finishes}

abbrev gib : ℕ
gib = 1024 * 1024 * 1024

abbrev raw : Pointers
raw a = 0

-- Nothing is swapped.
abbrev last_one : ℕ → ℕ
last_one k = k

abbrev linked : Pointers
linked = link_nodes 0 num_nodes (shuffled num_nodes last_one) raw

-- The load thread writes at the start of its share.
abbrev scribbled : Pointers → Pointers
scribbled m b = if b == 2 * gib then 7 else m b

scribbled-SameAround : (m : Pointers) → SameAround (load_address 1 0 (3 * gib) 0 0) m (scribbled m)
scribbled-SameAround m b away = ground arith

abbrev ready : Run
ready = record (init 1 0 (3 * gib) linked (9 ∷ [])) {
  measuring = spinning;
  ready_count = u32 (u32 (0 + 1) + 1);
  loader = set_at (λ _. setting_up) 0 waiting;
}

abbrev writing : Run
writing = record ready {
  start_flag = true;
  main = joining_measurement;
  measuring = chasing 0 0;
  loader =
      set_at (set_at (set_at (λ _. setting_up) 0 waiting) 0 (loading (0, 0))) 0
        (loading (next_place 1 0 (3 * gib) (0, 0)));
  memory = scribbled linked;
}

abbrev measured : Run
measured = record writing { measuring = chasing 1 (scribbled linked 0) }

ready-Reach : Reach 1 0 (3 * gib) linked (9 ∷ []) ready
ready-Reach = later (later start (ready_measuring refl)) (ready_loader 0 (omega arith) refl)

writing-Reach : Reach 1 0 (3 * gib) linked (9 ∷ []) writing
writing-Reach =
    later
      (later (later (later ready-Reach (start_all refl (omega arith))) (start_measuring refl refl))
        (start_loader 0 (omega arith) refl refl))
      (load_write 0 (0, 0) (scribbled linked) (omega arith) (omega arith) refl refl
        (scribbled-SameAround linked))

measured-Reach : Reach 1 0 (3 * gib) linked (9 ∷ []) measured
measured-Reach = later writing-Reach (chase_next 0 0 17 refl (omega arith))

measured_undisturbed_example :
    ((i current : ℕ) → measured.measuring ≡ chasing i current → current ≡ chase i linked 0)
    × (measured.main ≡ joined
        → length measured.global_latencies ≡ length {A = ℕ} (9 ∷ []) + num_samples)
measured_undisturbed_example =
    measured_undisturbed 1 0 (3 * gib) last_one raw (9 ∷ []) measured (λ k. omega arith)
      measured-Reach

loaded_finishes_example : (t : Run) × Steps 1 0 (3 * gib) measured t × (t.main ≡ joined)
loaded_finishes_example = loaded_finishes 1 0 (3 * gib) (omega arith) measured-Reach

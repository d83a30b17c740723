-- ===== src/Gate/Tests.antt =====
-- Runs of the gate of custom-test/test2-rdma-fin.c.
use mio_xcena.Base.{ℕ, ◌<◌, ◌≤◌, ◌≡◌, refl, ◌⊎◌, true, arith}
use mio_xcena.Gate.{
  System, passed, done, dozing, Step, arrive, look_again, call_open, count_again, Reach, start,
  later, init, gate_wait, gate_open, test_open,
}
use mio_xcena.Gate.Safety.{count, passed_only_when_full}
use mio_xcena.Gate.Progress.{no_deadlock}

-- One worker, one expected: the main thread sleeps until it arrives, opens the gate, and it goes through.
abbrev through : System
through = test_open 0 (gate_open (gate_wait 0 (gate_open (init 1))))

-- The main thread sleeps.
main_sleeps : (gate_open (init 1)).main ≡ dozing
unfolding gate_open
main_sleeps = refl

through-Reach : Reach 1 1 through
unfolding gate_open gate_wait
through-Reach =
    later
      (later (later (later start (call_open refl)) (arrive 0 (omega arith) refl))
        (count_again refl))
      (look_again 0 (omega arith) refl)

passed_only_when_full_example :
    (through.gate.is_open ≡ true) × (through.gate.total ≤ count 1 through.worker)
unfolding gate_open gate_wait
passed_only_when_full_example = passed_only_when_full (omega arith) through-Reach 0 refl

no_deadlock_example :
    ((t : System) × Step 1 through t)
    ⊎ ((through.main ≡ done) × ((i : ℕ) → i < 1 → through.worker i ≡ passed))
unfolding gate_open gate_wait
no_deadlock_example = no_deadlock (omega arith) through-Reach (omega arith)

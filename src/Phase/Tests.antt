-- ===== src/Phase/Tests.antt =====
-- A run of the first phase of a sweep (custom-test/test2-rdma-fin.c) with two readers, up to the state in
-- which the card has answered the first one, and the second one is between its exchange and its link.
use mio_xcena.Base.{
  zero, suc, ◌&&◌, not, ℕ, ◌≤◌, ◌<◌, ◌≡◌, refl, true, false, none, [], ◌∷◌, ◌++◌, arith,
}
use mio_xcena.Queue.{MpscQueue, node_of, mpsc_init, enqueue_clear, enqueue_swap, enqueue_link}
use mio_xcena.Queue.Chain.{has}
use mio_xcena.Queue.System.{set_stage, cleared, swapped, sent, init, dequeue_step, consume}
use mio_xcena.Queue.Invariant.{unsent}
use mio_xcena.Nic.{RdmaReq, Nic, Answer, stamp_request, calculate}
use mio_xcena.Nic.Tests.{whole_ns}
use mio_xcena.Phase.{
  Phase, set, polled, calculated, delivered, clear, swap, link, poll, calculates, deliver,
  init_phase, Reach, start, later, Steps,
}
use mio_xcena.Phase.Answered.{in_hand}
use mio_xcena.Phase.Counted.{card_answers}
use mio_xcena.Phase.Progress.{phase_finishes}

abbrev raw : MpscQueue
raw = record { next = λ _. none; req = λ _. none; head = 0; tail = 0 }

abbrev unused : Nic whole_ns
unused = record { stime = 0; ntime = 0; lag = 0 }

abbrev blank : ℕ → RdmaReq whole_ns
blank i = record { req_id = 0; stime = 0; expire_time = 0 }

-- The steps of `Step`, as functions.
abbrev clears : (i t0 : ℕ) → Phase whole_ns → Phase whole_ns
clears i t0 p = record p {
  sys = record p.sys {
    queue = enqueue_clear (node_of i) p.sys.queue;
    stage = set_stage p.sys.stage i cleared;
  };
  req = set p.req i (stamp_request whole_ns i t0);
}

abbrev swaps : ℕ → Phase whole_ns → Phase whole_ns
swaps i p = record p {
  sys = record p.sys {
    queue = enqueue_swap (node_of i) p.sys.queue;
    stage = set_stage p.sys.stage i (swapped p.sys.queue.tail);
    order = p.sys.order ++ node_of i ∷ [];
  };
}

abbrev links : (i prev : ℕ) → Phase whole_ns → Phase whole_ns
links i prev p = record p {
  sys = record p.sys {
    queue = enqueue_link prev (node_of i) p.sys.queue;
    stage = set_stage p.sys.stage i sent;
  };
}

-- Steps of the card in `mpsc_dequeue`.
abbrev polls : (steps : ℕ) → Phase whole_ns → Phase whole_ns
polls zero p = p
polls (suc k) p = polls k (polled whole_ns 7 p)

abbrev before : Phase whole_ns
before =
    links 0 0 (swaps 0 (clears 1 30 (clears 0 20 (init_phase whole_ns (init raw) unused blank))))

before-Reach : Reach whole_ns 7 2 raw unused blank before
unfolding mpsc_init enqueue_clear enqueue_swap enqueue_link
before-Reach =
    later
      (later (later (later start (clear 0 20 (omega arith) refl)) (clear 1 30 (omega arith) refl))
        (swap 0 (omega arith) refl))
      (link 0 0 (omega arith) refl)

-- The card has taken the first node, after it has put the stub behind it.
abbrev taken : Phase whole_ns
taken = polls 7 before

taken-Reach : Reach whole_ns 7 2 raw unused blank taken
unfolding mpsc_init enqueue_clear enqueue_swap enqueue_link dequeue_step consume polled
taken-Reach =
    later
      (later
        (later
          (later
            (later (later (later before-Reach (poll refl (omega arith))) (poll refl (omega arith)))
              (poll refl (omega arith)))
            (poll refl (omega arith)))
          (poll refl (omega arith)))
        (poll refl (omega arith)))
      (poll refl (omega arith))

abbrev first_answer : Answer whole_ns
first_answer = calculate whole_ns 7 unused (taken.req 0)

-- It answers it, and the second reader makes its exchange.
abbrev after : Phase whole_ns
after = swaps 1 (delivered whole_ns 7 first_answer (calculated whole_ns 7 1 first_answer taken))

after-Reach : Reach whole_ns 7 2 raw unused blank after
unfolding mpsc_init enqueue_clear enqueue_swap enqueue_link dequeue_step consume polled
after-Reach =
    later (later (later taken-Reach (calculates 1 refl)) (deliver 1 first_answer refl))
      (swap 1 (omega arith) refl)

first_answered : (after.device.response_ready 0 ≡ true) × (after.device.response_ready 1 ≡ false)
unfolding mpsc_init enqueue_clear enqueue_swap enqueue_link dequeue_step consume polled calculate
first_answered = (refl, refl)

card_answers_example :
    ((i : ℕ)
      → after.device.response_ready i
        ≡ (has (node_of i) after.sys.taken && not (in_hand after.card (node_of i))))
    × ((i : ℕ) → after.device.response_ready i ≡ true → unsent (after.sys.stage i) ≡ false)
    × ((i : ℕ) → after.through i ≡ true → after.device.response_ready i ≡ true)
    × (after.device.done ≤ 2)
    × (after.device.done ≡ 2 → (i : ℕ) → i < 2 → after.device.response_ready i ≡ true)
card_answers_example = card_answers whole_ns 7 2 (omega arith) after-Reach

phase_finishes_example :
    (t : Phase whole_ns) × Steps whole_ns 7 2 after t
    × ((i : ℕ) → i < 2 → t.through i ≡ true)
    × (t.device.done ≡ 2)
phase_finishes_example = phase_finishes whole_ns 7 2 (omega arith) after-Reach

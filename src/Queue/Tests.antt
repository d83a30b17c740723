-- ===== src/Queue/Tests.antt =====
-- Runs of the queue of custom-test/test2-rdma-fin.c.
use mio_xcena.Base.{ℕ, zero, suc, ◌≡◌, refl, not, none, List, [], ◌∷◌, ◌++◌, arith}
use mio_xcena.Queue.{
  MpscQueue, node_of, mpsc_init, mpsc_enqueue, enqueue_clear, enqueue_swap, enqueue_link,
}
use mio_xcena.Queue.Chain.{has}
use mio_xcena.Queue.Sequential.{Holds, mpsc_init-Holds, mpsc_enqueue-Holds}
use mio_xcena.Queue.System.{
  System, init, clear, swap, link, dequeue, consume, dequeue_step, Reach, start, later, cleared,
  swapped, sent, set_stage, outside, rearming,
}
use mio_xcena.Queue.Delivery.{delivery_in_order, Distinct}
use mio_xcena.Queue.Invariant.{unsent}
use mio_xcena.Queue.Legacy
use mio_xcena.Queue.Legacy.{last_request_stuck}

-- Memory from `calloc`.
abbrev raw : MpscQueue
raw = record { next = λ _. none; req = λ _. none; head = 0; tail = 0 }

-- The steps of `Step`, as functions.
abbrev clears : ℕ → System → System
clears i s = record s {
  queue = enqueue_clear (node_of i) s.queue;
  stage = set_stage s.stage i cleared;
}

abbrev swaps : ℕ → System → System
swaps i s = record s {
  queue = enqueue_swap (node_of i) s.queue;
  stage = set_stage s.stage i (swapped s.queue.tail);
  order = s.order ++ node_of i ∷ [];
}

abbrev links : (i prev_tail : ℕ) → System → System
links i prev_tail s = record s {
  queue = enqueue_link prev_tail (node_of i) s.queue;
  stage = set_stage s.stage i sent;
}

-- Some steps of the consumer.
abbrev consumes : (steps : ℕ) → System → System
consumes zero s = s
consumes (suc k) s = consumes k (consume s)

-- Two producers make their exchanges, and the second one its link.
abbrev half : System
half = links 1 1 (swaps 1 (swaps 0 (clears 1 (clears 0 (init raw)))))

half-Reach : Reach 2 raw half
unfolding mpsc_init enqueue_clear enqueue_swap enqueue_link
half-Reach =
    later
      (later
        (later (later (later start (clear 0 (omega arith) refl)) (clear 1 (omega arith) refl))
          (swap 0 (omega arith) refl))
        (swap 1 (omega arith) refl))
      (link 1 1 (omega arith) refl)

-- The consumer finds the queue empty, as the first producer owes its link; the first one pays it; the
-- consumer steps over the stub and returns the first node.
abbrev whole : System
whole = consumes 2 (links 0 0 (consumes 1 half))

consumes-Reach : (k : ℕ) {s : System} → Reach 2 raw s → Reach 2 raw (consumes k s)
consumes-Reach zero r = r
consumes-Reach (suc k) r = consumes-Reach k (later r dequeue)

whole-Reach : Reach 2 raw whole
unfolding mpsc_init enqueue_clear enqueue_swap enqueue_link dequeue_step consume
whole-Reach = consumes-Reach 2 (later (consumes-Reach 1 half-Reach) (link 0 0 (omega arith) refl))

delivery_in_order_example :
    (left : List ℕ) × (whole.order ≡ whole.taken ++ left)
    × Distinct whole.order
    × ((i : ℕ) → has (node_of i) whole.order ≡ not (unsent (whole.stage i)))
delivery_in_order_example = delivery_in_order whole-Reach

-- One of the two nodes has been returned.
whole_taken : whole.taken ≡ 1 ∷ []
unfolding mpsc_init enqueue_clear enqueue_swap enqueue_link dequeue_step consume
whole_taken = refl

-- The consumer finds the second node to be the last one, and begins to put the stub behind it.
rearms : (consumes 2 whole).consumer ≡ rearming 2
unfolding mpsc_init enqueue_clear enqueue_swap enqueue_link dequeue_step consume
rearms = refl

-- Five steps later it has returned it.
second_returned : (consumes 6 whole).taken ≡ 1 ∷ 2 ∷ []
unfolding mpsc_init enqueue_clear enqueue_swap enqueue_link dequeue_step consume
second_returned = refl

-- A third producer makes its exchange between the consumer's load of `tail` and its own exchange: the last
-- `next` is NULL, and the second node stays in the queue.
abbrev overtaken : System
overtaken = consumes 4 (swaps 2 (clears 2 (consumes 2 whole)))

overtaken-null :
    (overtaken.taken ≡ 1 ∷ []) × (overtaken.consumer ≡ outside) × (overtaken.queue.head ≡ 2)
unfolding mpsc_init enqueue_clear enqueue_swap enqueue_link dequeue_step consume
overtaken-null = (refl, refl, refl)

-- One request in the queue of the first version.
abbrev one : MpscQueue
one = mpsc_enqueue (mpsc_init raw) 1

one-Holds : Holds one (1 ∷ []) (1 ∷ [])
unfolding mpsc_init
one-Holds = mpsc_enqueue-Holds (mpsc_init raw) [] [] 1 (omega arith) refl (mpsc_init-Holds raw)

last_request_stuck_example : (Legacy.poll 5 one).0 ≡ none
last_request_stuck_example = last_request_stuck 5 one (1 ∷ []) 1 refl one-Holds

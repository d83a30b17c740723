-- ===== src/Queue/Legacy.antt =====
-- The consumer side of the queue in the first version, custom-test/test2-rdma.c, which does not put
-- the stub back behind the last node.
use mio_xcena.Base.{
  ℕ, zero, suc, ◌≡◌, refl, ◌≢◌, Option, none, some, List, [], ◌∷◌, arith, ◌==◌, if◌then◌else◌,
  ==_ne, false, ◌∙◌,
}
use mio_xcena.Queue.{MpscQueue, stub}
use mio_xcena.Queue.Chain.{has}
use mio_xcena.Queue.Sequential.{QueuePath, no_owed, Holds}

-- From `if (next != NULL)` on. Both answers to the test of `tail` are NULL.
unfoldable pub dequeue_node : ℕ → Option ℕ → MpscQueue → Option ℕ × MpscQueue
dequeue_node head none q = if head == q.tail then (none, q) else (none, q)
dequeue_node head (some n) q = (some head, record q { head = n })

unfoldable pub dequeue_stub : Option ℕ → MpscQueue → Option ℕ × MpscQueue
unfolding dequeue_node
dequeue_stub none q = (none, q)
dequeue_stub (some n) q = dequeue_node n (q.next n) (record q { head = n })

unfoldable pub mpsc_dequeue : MpscQueue → Option ℕ × MpscQueue
unfolding dequeue_stub dequeue_node
mpsc_dequeue q =
    if q.head == stub then dequeue_stub (q.next q.head) q else dequeue_node q.head (q.next q.head) q

-- The loop of `rnic_thread` up to its next node: at most `fuel` calls, as long as the answer is NULL.
unfoldable pub poll : ℕ → MpscQueue → Option ℕ × MpscQueue
poll zero q = (none, q)
poll (suc fuel) q =
    let (r, q') = mpsc_dequeue q in elim r [ some x ↦ (some x, q') | none ↦ poll fuel q' ]

-- Once the last node is `head` nothing moves.
dequeue-last : (q : MpscQueue) → q.head ≢ stub → QueuePath no_owed q [] → mpsc_dequeue q ≡ (none, q)
unfolding mpsc_dequeue
dequeue-last q ne p = rw (==_ne q.head stub ne, p.1) (ground arith)

-- The stub in front of the last node is stepped over, and nothing is returned.
dequeue-stub-last :
    (q : MpscQueue) (y : ℕ)
    → q.head ≡ stub
    → QueuePath no_owed q (y ∷ [])
    → mpsc_dequeue q ≡ (none, record q { head = y })
unfolding mpsc_dequeue
dequeue-stub-last q y e p = ground (arith, p.1, p.2)

poll-retry :
    (fuel : ℕ) (q q' : MpscQueue)
    → mpsc_dequeue q ≡ (none, q')
    → (poll (suc fuel) q).0 ≡ (poll fuel q').0
unfolding poll
poll-retry fuel q q' e = ground arith

poll-last :
    (fuel : ℕ) (q : MpscQueue) → q.head ≢ stub → QueuePath no_owed q [] → (poll fuel q).0 ≡ none
unfolding poll
poll-last zero q ne p = refl
poll-last (suc fuel) q ne p = poll-retry fuel q q (dequeue-last q ne p) ∙ poll-last fuel q ne p

-- In the first version a queue that holds one request never hands it out, however often the consumer
-- calls: the stub is not put back behind the last node.
pub last_request_stuck :
    (fuel : ℕ) (q : MpscQueue) (l : List ℕ) (x : ℕ)
    → has stub l ≡ false
    → Holds q l (x ∷ [])
    → (poll fuel q).0 ≡ none
unfolding poll
last_request_stuck zero q l x out h = refl
last_request_stuck (suc fuel) q [] x out h = poll-last (suc fuel) q (ground (arith, h.1)) h.0
last_request_stuck (suc fuel) q (y ∷ []) x out h =
    let at_stub : q.head ≡ stub = ground (arith, h.1) in
    poll-retry fuel q (record q { head = y }) (dequeue-stub-last q y at_stub h.0)
    ∙ (poll-last fuel (record q { head = y }) (ground arith) h.0.2)
last_request_stuck (suc fuel) q (y ∷ z ∷ l) x out h = ground (arith, h.1)

-- ===== src/Queue.antt =====
-- custom-test/test2-rdma-fin.c, `struct mpsc_queue`: the intrusive queue by which the reader threads
-- (producers) hand their requests to the one NIC thread (consumer).
--
-- Nodes are numbered: 0 is the sentinel `stub` inside the queue, and `suc i` is the node of reader
-- `i`. A pointer to a node is such a number, and NULL is `none`. Loads and stores take effect at once
-- and in the order of the steps (the acquire/release orders of the source are read as sequential
-- consistency). `mpsc_enqueue` is made of its three shared accesses, each a function of its own, and
-- `mpsc_dequeue` is a function of its steps (Queue.System), so that they can interleave.
pub mod Chain
pub mod Sequential
pub mod System
pub mod Consumed
pub mod Invariant
pub mod Delivery
pub mod Returned
pub mod Legacy
mod Tests
use mio_xcena.Base.{ℕ, zero, suc, Option, none, some, ◌==◌, if◌then◌else◌}

-- The two fields of `struct mpsc_node`, by node, and the two ends of `struct mpsc_queue`.
pub record MpscQueue : Type 0 where
  pub next : ℕ → Option ℕ
  pub req : ℕ → Option ℕ
  pub head : ℕ
  pub tail : ℕ

abbrev pub stub : ℕ
stub = 0

-- `&args[i].node_pool[0]`
abbrev pub node_of : ℕ → ℕ
node_of i = suc i

abbrev pub update : (ℕ → Option ℕ) → ℕ → Option ℕ → ℕ → Option ℕ
update f p v a = if p == a then v else f a

unfoldable pub mpsc_init : MpscQueue → MpscQueue
mpsc_init q = record q { next = update q.next stub none; head = stub; tail = stub }

-- `atomic_store(&node->next, NULL)`
unfoldable pub enqueue_clear : ℕ → MpscQueue → MpscQueue
enqueue_clear node q = record q { next = update q.next node none }

-- `prev_tail = atomic_exchange(&q->tail, node)`: the new queue; `prev_tail` is the old `tail`.
unfoldable pub enqueue_swap : ℕ → MpscQueue → MpscQueue
enqueue_swap node q = record q { tail = node }

-- `atomic_store(&prev_tail->next, node)`
unfoldable pub enqueue_link : ℕ → ℕ → MpscQueue → MpscQueue
enqueue_link prev_tail node q = record q { next = update q.next prev_tail (some node) }

-- All three with nobody in between. (It returns `true` always.)
unfoldable pub mpsc_enqueue : MpscQueue → ℕ → MpscQueue
unfolding enqueue_clear enqueue_swap enqueue_link
mpsc_enqueue q node =
    let cleared = enqueue_clear node q in
    let prev_tail = cleared.tail in enqueue_link prev_tail node (enqueue_swap node cleared)

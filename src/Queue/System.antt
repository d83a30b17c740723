-- ===== src/Queue/System.antt =====
-- The MPSC queue of custom-test/test2-rdma-fin.c under `n` producers and one consumer.
--
-- A producer is a reader thread that sends its one node by the three accesses of `mpsc_enqueue`; the
-- consumer is the NIC thread, which calls `mpsc_dequeue` again and again. A step is one access to what
-- both sides use (a `next` field, or `tail`), with what the thread does before its next one; `head` is the
-- consumer's own. The steps interleave in any order.
use mio_xcena.Base.{
  ℕ, zero, suc, ◌<◌, ◌≡◌, Option, none, some, List, [], ◌∷◌, ◌++◌, ◌==◌, if◌then◌else◌,
}
use mio_xcena.Queue.{MpscQueue, stub, node_of, mpsc_init, enqueue_clear, enqueue_swap, enqueue_link}

-- Where a producer stands in `mpsc_enqueue`.
pub data Stage : Type 0 where
  idle : Stage
  cleared : Stage
  swapped : (prev_tail : ℕ) → Stage
  sent : Stage

-- Where the consumer stands: outside of `mpsc_dequeue`, or in it before the load of `head->next` behind
-- the stub, before that of `tail`, in the `mpsc_enqueue` of the stub, before the last load of
-- `head->next`. `head` is the local variable.
pub data Consumer : Type 0 where
  outside : Consumer
  at_next : (head : ℕ) → Consumer
  at_tail : (head : ℕ) → Consumer
  rearming : (head : ℕ) → Consumer
  rearm_cleared : (head : ℕ) → Consumer
  rearm_swapped : (head prev_tail : ℕ) → Consumer
  at_recheck : (head : ℕ) → Consumer

-- What a step of the consumer leaves; `returned` is a node that the call returns in it.
pub record Turn : Type 0 where
  pub queue : MpscQueue
  pub consumer : Consumer
  pub returned : Option ℕ

-- `atomic_store(&q->head, next); return head;`
abbrev pub return_head : (head next : ℕ) → MpscQueue → Turn
return_head head next q = record {
  queue = record q { head = next };
  consumer = outside;
  returned = some head;
}

-- The call goes on, or ends with NULL.
abbrev pub go_on : Consumer → MpscQueue → Turn
go_on c q = record { queue = q; consumer = c; returned = none }

-- `if (head == &q->stub)`, with the first load of `head->next`.
abbrev pub over_stub : Option ℕ → MpscQueue → Turn
over_stub none q = go_on outside q
over_stub (some next) q = go_on (at_next next) (record q { head = next })

-- `if (next != NULL)`, with `head` off the stub.
abbrev pub found_next : (head : ℕ) → Option ℕ → MpscQueue → Turn
found_next head none q = go_on (at_tail head) q
found_next head (some next) q = return_head head next q

-- The last `if (next != NULL)`.
abbrev pub rechecked : (head : ℕ) → Option ℕ → MpscQueue → Turn
rechecked head none q = go_on outside q
rechecked head (some next) q = return_head head next q

-- One step of the consumer.
unfoldable pub dequeue_step : Consumer → MpscQueue → Turn
unfolding enqueue_clear enqueue_swap enqueue_link
dequeue_step outside q =
    if q.head == stub then over_stub (q.next q.head) q else found_next q.head (q.next q.head) q
dequeue_step (at_next head) q = found_next head (q.next head) q
dequeue_step (at_tail head) q = if head == q.tail then go_on (rearming head) q else go_on outside q
dequeue_step (rearming head) q = go_on (rearm_cleared head) (enqueue_clear stub q)
dequeue_step (rearm_cleared head) q = go_on (rearm_swapped head q.tail) (enqueue_swap stub q)
dequeue_step (rearm_swapped head prev_tail) q =
    go_on (at_recheck head) (enqueue_link prev_tail stub q)
dequeue_step (at_recheck head) q = rechecked head (q.next head) q

-- `order` and `taken` record the history: the nodes in the order of their exchanges, and the nodes
-- that `mpsc_dequeue` has returned, oldest first.
pub record System : Type 0 where
  pub queue : MpscQueue
  pub stage : ℕ → Stage
  pub consumer : Consumer
  pub order : List ℕ
  pub taken : List ℕ

abbrev pub set_stage : (ℕ → Stage) → ℕ → Stage → ℕ → Stage
set_stage f i s j = if i == j then s else f j

abbrev pub append_taken : List ℕ → Option ℕ → List ℕ
append_taken xs none = xs
append_taken xs (some x) = xs ++ x ∷ []

abbrev pub after_turn : Turn → System → System
after_turn u s = record s {
  queue = u.queue;
  consumer = u.consumer;
  taken = append_taken s.taken u.returned;
}

unfoldable pub consume : System → System
unfolding dequeue_step
consume s = after_turn (dequeue_step s.consumer s.queue) s

-- What the next step of the consumer returns.
unfoldable pub returned : System → Option ℕ
unfolding dequeue_step
returned s = (dequeue_step s.consumer s.queue).returned

pub data Step (n : ℕ) (s : System) : System → Type 0 where
  clear :
      (i : ℕ)
      → i < n
      → s.stage i ≡ idle
      → Step n s (record s {
        queue = enqueue_clear (node_of i) s.queue;
        stage = set_stage s.stage i cleared;
      })
  swap :
      (i : ℕ)
      → i < n
      → s.stage i ≡ cleared
      → Step n s (record s {
        queue = enqueue_swap (node_of i) s.queue;
        stage = set_stage s.stage i (swapped s.queue.tail);
        order = s.order ++ node_of i ∷ [];
      })
  link :
      (i prev_tail : ℕ)
      → i < n
      → s.stage i ≡ swapped prev_tail
      → Step n s (record s {
        queue = enqueue_link prev_tail (node_of i) s.queue;
        stage = set_stage s.stage i sent;
      })
  dequeue : Step n s (consume s)

-- `mpsc_init`, before any reader thread is created.
abbrev pub init : MpscQueue → System
init q = record {
  queue = mpsc_init q;
  stage = λ _. Stage.idle;
  consumer = outside;
  order = [];
  taken = [];
}

pub data Reach (n : ℕ) (q : MpscQueue) : System → Type 0 where
  start : Reach n q (init q)
  later : {s t : System} → Reach n q s → Step n s t → Reach n q t

-- The link that the producer of a node owes.
abbrev pub owes : Stage → Option ℕ
owes idle = none
owes cleared = none
owes (swapped prev_tail) = some prev_tail
owes sent = none

-- The consumer owes a link in the same way, that of the stub.
abbrev pub owes_stub : Consumer → Option ℕ
owes_stub outside = none
owes_stub (at_next _) = none
owes_stub (at_tail _) = none
owes_stub (rearming _) = none
owes_stub (rearm_cleared _) = none
owes_stub (rearm_swapped _ prev_tail) = some prev_tail
owes_stub (at_recheck _) = none

abbrev pub pending : (ℕ → Stage) → Option ℕ → ℕ → Option ℕ
pending f o zero = o
pending f o (suc i) = owes (f i)

-- ===== src/Phase.antt =====
-- The first phase of a sweep of custom-test/test2-rdma-fin.c: the readers send their requests through the
-- MPSC queue (`rdma_reader_thread` up to its gate), the card's thread takes and answers them
-- (`rnic_thread`), and each reader waits for its flag `response_ready`.
--
-- The steps of all threads interleave. The node of reader `i` carries its request, number `i`. The queue is
-- used as in Queue.System; the card's thread calls `mpsc_dequeue` until it returns a node, computes the
-- times, waits, and tells the reader, each in a step of its own. `n->stime`, `n->ntime` and `lag` are its
-- own, and are set together with the answer.
pub mod Nodes
pub mod Answered
pub mod Counted
pub mod Work
pub mod Progress
mod Tests
use mio_xcena.Base.{
  ℕ, suc, ◌-◌, ◌<◌, ◌≡◌, Bool, true, false, ◌==◌, if◌then◌else◌, Option, none, some, ◌∷◌, [], ◌++◌,
}
use mio_xcena.Queue.{MpscQueue, node_of, enqueue_clear, enqueue_swap, enqueue_link}
use mio_xcena.Queue.System.{
  Stage, idle, cleared, swapped, sent, System, set_stage, returned, consume, init,
}
use mio_xcena.Nic.Clock.{Time}
use mio_xcena.Nic.{RdmaReq, Nic, Answer, Device, stamp_request, calculate, dispatch}

-- Where `rnic_thread` stands: in `mpsc_dequeue`, behind it with a node, or before `response_ready` is set
-- with what it has computed.
pub data Card (D : Time) : Type 0 where
  polling : Card D
  calculating : (node : ℕ) → Card D
  delivering : (node : ℕ) (a : Answer D) → Card D

-- `through` are the readers that have left their waiting loop.
pub record Phase (D : Time) : Type 0 where
  pub sys : System
  pub req : ℕ → RdmaReq D
  pub card : Card D
  pub device : Device D
  pub through : ℕ → Bool

abbrev pub set {ℓ} : {A : Type ℓ} → (ℕ → A) → ℕ → A → ℕ → A
set f i v j = if i == j then v else f j

-- `node->req`, by its number.
abbrev pub req_of : ℕ → ℕ
req_of node = node - 1

module _ (D : Time) (delta : D.T) where
  -- `if (node == NULL) continue;`
  abbrev pub take_node : Option ℕ → Card D
  take_node none = polling
  take_node (some node) = calculating node

  -- A step of `rnic_thread` in `mpsc_dequeue`.
  unfoldable pub polled : Phase D → Phase D
  unfolding consume returned
  polled p = record p { sys = consume p.sys; card = take_node (returned p.sys) }

  -- From `struct rdma_req *req = node->req` to the waiting for the expiry.
  abbrev pub calculated : (node : ℕ) → Answer D → Phase D → Phase D
  calculated node a p = record p { req = set p.req (req_of node) a.req; card = delivering node a }

  -- The expiry has come: the reader is told.
  abbrev pub delivered : Answer D → Phase D → Phase D
  delivered a p = record p { card = polling; device = dispatch D p.device a }

  pub data Step (n : ℕ) (p : Phase D) : Phase D → Type 0 where
    -- A reader fills its request in, and begins `mpsc_enqueue`.
    clear :
        (i : ℕ) (t0 : D.T)
        → i < n
        → p.sys.stage i ≡ idle
        → Step n p (record p {
          sys = record p.sys {
            queue = enqueue_clear (node_of i) p.sys.queue;
            stage = set_stage p.sys.stage i cleared;
          };
          req = set p.req i (stamp_request D i t0);
        })
    swap :
        (i : ℕ)
        → i < n
        → p.sys.stage i ≡ cleared
        → Step n p (record p {
          sys = record p.sys {
            queue = enqueue_swap (node_of i) p.sys.queue;
            stage = set_stage p.sys.stage i (swapped p.sys.queue.tail);
            order = p.sys.order ++ node_of i ∷ [];
          };
        })
    link :
        (i prev_tail : ℕ)
        → i < n
        → p.sys.stage i ≡ swapped prev_tail
        → Step n p (record p {
          sys = record p.sys {
            queue = enqueue_link prev_tail (node_of i) p.sys.queue;
            stage = set_stage p.sys.stage i sent;
          };
        })
    poll : p.card ≡ polling → p.device.done < n → Step n p (polled p)
    calculates :
        (node : ℕ)
        → p.card ≡ calculating node
        → Step n p (calculated node (calculate D delta p.device.nic (p.req (req_of node))) p)
    deliver : (node : ℕ) (a : Answer D) → p.card ≡ delivering node a → Step n p (delivered a p)
    -- A reader that has sent finds its flag set.
    leave :
        (i : ℕ)
        → i < n
        → p.sys.stage i ≡ sent
        → p.device.response_ready i ≡ true
        → p.through i ≡ false
        → Step n p (record p { through = set p.through i true })

-- Before the readers are created.
abbrev pub init_phase : (D : Time) → System → Nic D → (ℕ → RdmaReq D) → Phase D
init_phase D s n r = record {
  sys = s;
  req = r;
  card = polling;
  device = record { nic = n; response_ready = λ _. false; done = 0 };
  through = λ _. false;
}

pub data Reach (D : Time) (delta : D.T) (n : ℕ) (q : MpscQueue) (nic : Nic D) (r : ℕ → RdmaReq D)
    : Phase D → Type 0 where
  start : Reach D delta n q nic r (init_phase D (init q) nic r)
  later :
      {s t : Phase D} → Reach D delta n q nic r s → Step D delta n s t → Reach D delta n q nic r t

-- Any further steps.
pub data Steps (D : Time) (delta : D.T) (n : ℕ) (p : Phase D) : Phase D → Type 0 where
  none_left : Steps D delta n p p
  more : {s t : Phase D} → Steps D delta n p s → Step D delta n s t → Steps D delta n p t

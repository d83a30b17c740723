-- ===== src/Queue/Invariant.antt =====
-- What holds of the queue of custom-test/test2-rdma-fin.c between any two steps of its producers and its
-- consumer, and that each step of a producer keeps it.
use mathlib.Core.Path.{subst}
use mathlib.Core.List.{append_assoc}
use mio_xcena.Base.{
  ℕ, zero, suc, ◌≡◌, ◌≢◌, refl, Bool, true, false, Option, none, some, List, [], ◌∷◌, ◌++◌, arith,
  fun_ext,
}
use mio_xcena.Queue.{
  MpscQueue, stub, node_of, update, mpsc_init, enqueue_clear, enqueue_swap, enqueue_link,
}
use mio_xcena.Queue.Chain.{
  has, has-append, has-prev, Chain, Chain-update, Chain-pend, Chain-swap, Chain-link,
}
use mio_xcena.Queue.Sequential.{QueuePath, contents, contents-swap}
use mio_xcena.Queue.System.{
  Stage, idle, cleared, swapped, sent, Consumer, outside, at_next, at_tail, rearming, rearm_cleared,
  rearm_swapped, at_recheck, System, set_stage, init, owes, owes_stub, pending,
}

-- The exchange of `tail` is still to come.
abbrev pub unsent : Stage → Bool
unsent idle = true
unsent cleared = true
unsent (swapped _) = false
unsent sent = false

-- The local `head` of a call that is under way.
abbrev pub holds : Consumer → Option ℕ
holds outside = none
holds (at_next h) = some h
holds (at_tail h) = some h
holds (rearming h) = some h
holds (rearm_cleared h) = some h
holds (rearm_swapped h _) = some h
holds (at_recheck h) = some h

-- The consumer is about to put the stub into the queue.
abbrev pub unarmed : Consumer → Bool
unarmed outside = false
unarmed (at_next _) = false
unarmed (at_tail _) = false
unarmed (rearming _) = true
unarmed (rearm_cleared _) = true
unarmed (rearm_swapped _ _) = false
unarmed (at_recheck _) = false

abbrev pub stub_cleared : Consumer → Bool
stub_cleared outside = false
stub_cleared (at_next _) = false
stub_cleared (at_tail _) = false
stub_cleared (rearming _) = false
stub_cleared (rearm_cleared _) = true
stub_cleared (rearm_swapped _ _) = false
stub_cleared (at_recheck _) = false

abbrev pub rechecking : Consumer → Bool
rechecking outside = false
rechecking (at_next _) = false
rechecking (at_tail _) = false
rechecking (rearming _) = false
rechecking (rearm_cleared _) = false
rechecking (rearm_swapped _ _) = false
rechecking (at_recheck _) = true

-- `rest` are the nodes behind `head`.
pub record Inv (s : System) : Type 0 where
  pub rest : List ℕ
  pub path : QueuePath (pending s.stage (owes_stub s.consumer)) s.queue rest
  pub log : s.order ≡ s.taken ++ contents s.queue rest
  pub owed : (i prev : ℕ) → s.stage i ≡ swapped prev → has (node_of i) rest ≡ true
  pub waiting : (i : ℕ) → unsent (s.stage i) ≡ true → has (node_of i) (s.queue.head ∷ rest) ≡ false
  pub blank : (i : ℕ) → s.stage i ≡ cleared → s.queue.next (node_of i) ≡ none
  pub held : (h : ℕ) → holds s.consumer ≡ some h → (s.queue.head ≡ h) × (h ≢ stub)
  pub stub_out : unarmed s.consumer ≡ true → has stub (s.queue.head ∷ rest) ≡ false
  pub stub_blank : stub_cleared s.consumer ≡ true → s.queue.next stub ≡ none
  pub stub_owed : (prev : ℕ) → owes_stub s.consumer ≡ some prev → has stub rest ≡ true
  pub rearmed : rechecking s.consumer ≡ true → has stub rest ≡ true

pending-set_stage :
    (f : ℕ → Stage) (o : Option ℕ) (i : ℕ) (s : Stage)
    → update (pending f o) (node_of i) (owes s) ≡ pending (set_stage f i s) o
pending-set_stage f o i s = fun_ext at
  where
    at : (a : ℕ) → update (pending f o) (node_of i) (owes s) a ≡ pending (set_stage f i s) o a
    at zero = ground arith
    at (suc a) = ground arith

-- A path along which what producer `i` owes has been updated is a path for its new stage.
restage :
    (next : ℕ → Option ℕ) (tail x : ℕ) (l : List ℕ) (f : ℕ → Stage) (o : Option ℕ) (i : ℕ)
    (s : Stage)
    → Chain next (update (pending f o) (node_of i) (owes s)) tail x l
    → Chain next (pending (set_stage f i s) o) tail x l
restage next tail x l f o i s p =
    subst (λ pend. Chain next pend tail x l) (pending-set_stage f o i s) p

pub init-Inv : (q : MpscQueue) → Inv (init q)
unfolding mpsc_init
init-Inv q = record {
  rest = [];
  path = ground arith;
  log = refl;
  owed = λ i prev e. cc;
  waiting = λ i e. ground arith;
  blank = λ i e. cc;
  held = λ h e. cc;
  stub_out = λ e. cc;
  stub_blank = λ e. cc;
  stub_owed = λ prev e. cc;
  rearmed = λ e. cc;
}

pub snoc-log : (t c xs : List ℕ) {o c' : List ℕ} → o ≡ t ++ c → c' ≡ c ++ xs → o ++ xs ≡ t ++ c'
snoc-log t c xs e e' = rw (e, e') (append_assoc t c xs)

module _ (s : System) (inv : Inv s) where
  open inv use {
    rest, path, log, owed, waiting, blank, held, stub_out, stub_blank, stub_owed, rearmed,
  }

  abbrev tail : ℕ
  tail = s.queue.tail

  abbrev head : ℕ
  head = s.queue.head

  abbrev o : Option ℕ
  o = owes_stub s.consumer

  pub clear-Inv :
      (i : ℕ)
      → s.stage i ≡ idle
      → Inv (record s {
        queue = enqueue_clear (node_of i) s.queue;
        stage = set_stage s.stage i cleared;
      })
  unfolding enqueue_clear
  clear-Inv i e = record {
    rest = rest;
    path = restage (update s.queue.next (node_of i) none) tail head rest s.stage o i cleared (
        Chain-pend (update s.queue.next (node_of i) none) (pending s.stage o) tail head rest
          (node_of i) none (ground (arith, waiting i))
          (Chain-update s.queue.next (pending s.stage o) tail head rest (node_of i) none
            (waiting i (ground arith)) path));
    log = log;
    owed = λ j prev o. ground (arith, owed j prev);
    waiting = λ j o. ground (arith, waiting j);
    blank = λ j o. ground (arith, blank j);
    held = held;
    stub_out = stub_out;
    stub_blank = λ c. ground (arith, stub_blank c);
    stub_owed = stub_owed;
    rearmed = rearmed;
  }

  pub swap-Inv :
      (i : ℕ)
      → s.stage i ≡ cleared
      → Inv (record s {
        queue = enqueue_swap (node_of i) s.queue;
        stage = set_stage s.stage i (swapped tail);
        order = s.order ++ node_of i ∷ [];
      })
  unfolding enqueue_swap
  swap-Inv i e = record {
    rest = rest ++ node_of i ∷ [];
    path =
        restage s.queue.next (node_of i) head (rest ++ node_of i ∷ []) s.stage o i (swapped tail) (
          Chain-swap s.queue.next (pending s.stage o) tail head rest (node_of i)
            (waiting i (ground arith)) (blank i e) path);
    log =
        snoc-log s.taken (contents s.queue rest) (node_of i ∷ []) log
          (contents-swap s.queue rest (node_of i) (ground arith));
    owed = λ j prev o. ground (arith, owed j prev, has-append (node_of j) rest (node_of i ∷ []));
    waiting = λ j o. ground (arith, waiting j, has-append (node_of j) rest (node_of i ∷ []));
    blank = λ j o. ground (arith, blank j);
    held = held;
    stub_out = λ c. ground (arith, stub_out c, has-append stub rest (node_of i ∷ []));
    stub_blank = stub_blank;
    stub_owed = λ prev c. ground (arith, stub_owed prev c, has-append stub rest (node_of i ∷ []));
    rearmed = λ c. ground (arith, rearmed c, has-append stub rest (node_of i ∷ []));
  }

  pub link-Inv :
      (i prev : ℕ)
      → s.stage i ≡ swapped prev
      → Inv (record s {
        queue = enqueue_link prev (node_of i) s.queue;
        stage = set_stage s.stage i sent;
      })
  unfolding enqueue_link
  link-Inv i prev e = record {
    rest = rest;
    path = restage (update s.queue.next prev (some (node_of i))) tail head rest s.stage o i sent (
        Chain-link s.queue.next (pending s.stage o) tail head rest (node_of i) prev (ground arith)
          (owed i prev e) path);
    log = log;
    owed = λ j prev o. ground (arith, owed j prev);
    waiting = λ j o. ground (arith, waiting j);
    blank = λ j c. ground (
      arith,
      blank j,
      waiting j,
      has-prev s.queue.next (pending s.stage o) tail head rest (node_of i) prev,
      owed i prev,
    );
    held = held;
    stub_out = stub_out;
    stub_blank = λ c. ground (
      arith,
      stub_blank c,
      unarmed-stub_cleared s.consumer c,
      stub_out (unarmed-stub_cleared s.consumer c),
      has-prev s.queue.next (pending s.stage o) tail head rest (node_of i) prev,
      owed i prev,
    );
    stub_owed = stub_owed;
    rearmed = rearmed;
  }
    where
      unarmed-stub_cleared : (c : Consumer) → stub_cleared c ≡ true → unarmed c ≡ true
      unarmed-stub_cleared c e = ground arith

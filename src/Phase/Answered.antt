-- ===== src/Phase/Answered.antt =====
-- Which readers the card of custom-test/test2-rdma-fin.c has answered, in every interleaving.
use mio_xcena.Base.{
  ℕ, ◌+◌, ◌≤◌, ◌<◌, ◌^◌, ◌≡◌, ◌⊎◌, inl, inr, refl, ap, ◌∙◌, Bool, true, false, not, ◌&&◌, ◌==◌,
  if◌then◌else◌, if_both, ==_refl, ==_ne, Option, none, some, List, [], ◌∷◌, ◌++◌, length,
  length-append, arith, eq_or_ne,
}
use mathlib.Core.Path.{subst}
use mio_xcena.Queue
use mio_xcena.Queue.{MpscQueue, node_of}
use mio_xcena.Queue.Chain.{has, has-append}
use mio_xcena.Queue.System.{
  Stage, idle, cleared, swapped, sent, System, Consumer, set_stage, append_taken, returned, consume,
  init,
}
use mio_xcena.Queue.Delivery.{Distinct, delivery_in_order}
use mio_xcena.Nic.Clock.{Time}
use mio_xcena.Nic.{RdmaReq, Nic, Answer, stamp_request, calculate}
use mio_xcena.Phase.{
  Phase, Card, polling, calculating, delivering, set, req_of, take_node, polled, calculated,
  delivered, Step, clear, swap, link, poll, calculates, deliver, leave, Reach, start, later,
}
use mio_xcena.Phase.Nodes.{
  AllNodes, AllNodes-append, AllNodes-snoc, AllNodes-has, has-last, Distinct-append, length-missing,
}

module _ (D : Time) (delta : D.T) where
  -- The queue and its users, taken alone, run as in Queue.System.
  pub queue-Reach :
      {n : ℕ} {q : MpscQueue} {nic : Nic D} {r : ℕ → RdmaReq D} {p : Phase D}
      → Reach D delta n q nic r p
      → Queue.System.Reach n q p.sys
  unfolding polled
  queue-Reach start = Queue.System.start
  queue-Reach (later h (clear i t0 lt e)) =
      Queue.System.later (queue-Reach h) (Queue.System.clear i lt e)
  queue-Reach (later h (swap i lt e)) =
      Queue.System.later (queue-Reach h) (Queue.System.swap i lt e)
  queue-Reach (later h (link i prev lt e)) =
      Queue.System.later (queue-Reach h) (Queue.System.link i prev lt e)
  queue-Reach (later h (poll e more)) = Queue.System.later (queue-Reach h) Queue.System.dequeue
  queue-Reach (later h (calculates node e)) = queue-Reach h
  queue-Reach (later h (deliver node a e)) = queue-Reach h
  queue-Reach (later h (leave i lt e ready t)) = queue-Reach h

-- The card has the node in hand.
abbrev pub in_hand : {D : Time} → Card D → ℕ → Bool
in_hand polling a = false
in_hand (calculating node) a = a == node
in_hand (delivering node _) a = a == node

abbrev pub hands : {D : Time} → Card D → ℕ
hands polling = 0
hands (calculating node) = 1
hands (delivering node _) = 1

-- The request of the node in hand is that of its reader.
abbrev pub HandOf : {D : Time} (n : ℕ) → (ℕ → RdmaReq D) → (taken : List ℕ) → Card D → Type 0
HandOf n req taken polling = Unit {0}
HandOf n req taken (calculating node) =
    (j : ℕ) × (j < n) × (node ≡ node_of j) × ((req j).req_id ≡ j) × (has node taken ≡ true)
HandOf n req taken (delivering node a) =
    (j : ℕ) × (j < n) × (node ≡ node_of j) × (a.req.req_id ≡ j) × (has node taken ≡ true)

HandOf-clear :
    {D : Time} (n : ℕ) (req : ℕ → RdmaReq D) (taken : List ℕ) (c : Card D) (i : ℕ) (t0 : D.T)
    → HandOf n req taken c
    → HandOf n (set req i (stamp_request D i t0)) taken c
HandOf-clear n req taken polling i t0 h = tt
HandOf-clear n req taken (calculating node) i t0 (j, lt, e, id, there) = (
  j,
  lt,
  e,
  elim (eq_or_ne i j) [ inl same ↦ rw (same, ==_refl j) refl | inr ne ↦ rw (==_ne i j ne) id ],
  there,
)
HandOf-clear n req taken (delivering node a) i t0 h = h

-- What holds of the readers and the card.
pub record Inv {D : Time} (n : ℕ) (p : Phase D) : Type 0 where
  pub ready :
      (i : ℕ)
      → p.device.response_ready i
        ≡ (has (node_of i) p.sys.taken && not (in_hand p.card (node_of i)))
  pub counted : p.device.done + hands p.card ≡ length p.sys.taken
  pub hand : HandOf n p.req p.sys.taken p.card
  pub stamped : (i : ℕ) → (p.sys.stage i ≡ idle) ⊎ ((p.req i).req_id ≡ i)
  pub outside : (i : ℕ) → n ≤ i → p.sys.stage i ≡ idle
  pub nodes : AllNodes n p.sys.order
  pub entered : (i : ℕ) → p.through i ≡ true → p.device.response_ready i ≡ true

-- The entries of a part of the order of the exchanges.
pub taken-nodes :
    {D : Time} (n : ℕ) (p : Phase D)
    → AllNodes n p.sys.order
    → (left : List ℕ) → p.sys.order ≡ p.sys.taken ++ left
    → AllNodes n p.sys.taken
taken-nodes n p a left e = AllNodes-append n p.sys.taken left (subst (AllNodes n) e a)

calculate-req_id :
    (D : Time) (delta : D.T) (nic : Nic D) (r : RdmaReq D)
    → (calculate D delta nic r).req.req_id ≡ r.req_id
unfolding calculate
calculate-req_id D delta nic r =
    let P : Answer D → Type 0 = λ a. a.req.req_id ≡ r.req_id in
    if_both P (D.ltb nic.ntime r.stime) _ _ refl
      (if_both P (D.ltb nic.ntime (D.add nic.stime delta)) _ _ refl refl)

Distinct-last : (xs : List ℕ) (x : ℕ) → Distinct (xs ++ x ∷ []) → has x xs ≡ false
Distinct-last [] x d = refl
Distinct-last (y ∷ ys) x d = ground (arith, Distinct-last ys x d.1, d.0, has-append y ys (x ∷ []))

module _ (D : Time) (delta : D.T) (n : ℕ) (small : n < 2 ^ 32) where
  clear-stamped :
      (p : Phase D) (i : ℕ) (t0 : D.T) (j : ℕ)
      → ((p.sys.stage j ≡ idle) ⊎ ((p.req j).req_id ≡ j))
      → (set_stage p.sys.stage i cleared j ≡ idle)
        ⊎ ((if i == j then stamp_request D i t0 else p.req j).req_id ≡ j)
  clear-stamped p i t0 j o = elim (eq_or_ne i j) [
    | inl e ↦ rw (e, ==_refl j) (inr refl)
    | inr ne ↦ rw (==_ne i j ne) o
  ]

  -- A node in the order belongs to a reader that has filled its request in.
  in_order-stamped :
      {q : MpscQueue} {nic : Nic D} {r : ℕ → RdmaReq D} (p : Phase D) (j : ℕ)
      → Reach D delta n q nic r p
      → Inv n p
      → has (node_of j) p.sys.order ≡ true
      → (p.req j).req_id ≡ j
  in_order-stamped p j h v there =
      let (left, e, d, listed) = delivery_in_order (queue-Reach D delta h) in
      ground (arith, v.stamped j, listed j)

  -- A step of `mpsc_dequeue`, which returns `o`.
  poll_step-Inv :
      (p : Phase D) (o : Option ℕ) (q : MpscQueue) (c : Consumer)
      → p.card ≡ polling
      → ((node : ℕ)
          → o ≡ some node
          → (j : ℕ) × (j < n)
            × (node ≡ node_of j)
            × ((p.req j).req_id ≡ j)
            × (has node p.sys.taken ≡ false))
      → Inv n p
      → Inv n (record p {
        sys = record p.sys { queue = q; consumer = c; taken = append_taken p.sys.taken o };
        card = take_node D delta o;
      })
  poll_step-Inv p none q c e own v = record {
    ready = λ i. rw e at v.ready i;
    counted = rw e at v.counted;
    hand = tt;
    stamped = v.stamped;
    outside = v.outside;
    nodes = v.nodes;
    entered = v.entered;
  }
  poll_step-Inv p (some node) q c e own v =
      let (j, lt, is, id, out) = own node refl in
      let ready : (i : ℕ)
          → p.device.response_ready i
            ≡ (has (node_of i) p.sys.taken && not (in_hand {D = D} polling (node_of i))) =
        λ i. rw e at v.ready i in
      let counted = rw e at v.counted in
      record {
        ready = λ i. ground (arith, ready i, out, has-append (node_of i) p.sys.taken (node ∷ []));
        counted = omega (arith, counted, length-append p.sys.taken (node ∷ []));
        hand = (j, lt, is, id, ground (arith, has-append node p.sys.taken (node ∷ [])));
        stamped = v.stamped;
        outside = v.outside;
        nodes = v.nodes;
        entered = v.entered;
      }

  -- A node that `mpsc_dequeue` returns is that of a reader, and was not returned before.
  returned-own :
      {q : MpscQueue} {nic : Nic D} {r : ℕ → RdmaReq D} (p : Phase D)
      → Reach D delta n q nic r p
      → Inv n p
      → (node : ℕ) → returned p.sys ≡ some node
      → (j : ℕ) × (j < n)
        × (node ≡ node_of j)
        × ((p.req j).req_id ≡ j)
        × (has node p.sys.taken ≡ false)
  unfolding consume returned
  returned-own p h v node e =
      let next = Queue.System.later (queue-Reach D delta h) Queue.System.dequeue in
      let (left, order, d, listed) = delivery_in_order next in
      let order' : p.sys.order ≡ (p.sys.taken ++ node ∷ []) ++ left =
        order ∙ ap (λ o. append_taken p.sys.taken o ++ left) e in
      let there = has-last node p.sys.taken left p.sys.order order' in
      let (j, lt, is) = AllNodes-has n node p.sys.order v.nodes there in
      (
        j,
        lt,
        is,
        in_order-stamped p j h v (subst (λ x. has x p.sys.order ≡ true) is there),
        Distinct-last p.sys.taken node
            (Distinct-append (p.sys.taken ++ node ∷ []) left (subst Distinct order' d)),
      )

  -- The times of the node in hand are computed.
  calculated-Inv :
      (p : Phase D) (node : ℕ) (j : ℕ) (a : Answer D)
      → p.card ≡ calculating node
      → j < n
      → node ≡ node_of j
      → a.req.req_id ≡ j
      → has node p.sys.taken ≡ true
      → Inv n p
      → Inv n (calculated D delta node a p)
  calculated-Inv p node j a e lt is id there v =
      let at : req_of node ≡ j = omega (arith, is) in
      record {
        ready = λ i. rw e at v.ready i;
        counted = rw e at v.counted;
        hand = (j, lt, is, id, there);
        stamped = λ i. elim (eq_or_ne j i) [
          | inl same ↦ rw (at, same, ==_refl i) (inr (id ∙ same))
          | inr ne ↦ rw (at, ==_ne j i ne) (v.stamped i)
        ];
        outside = v.outside;
        nodes = v.nodes;
        entered = v.entered;
      }

  delivered-Inv :
      (p : Phase D) (node : ℕ) (j : ℕ) (a : Answer D)
      → p.card ≡ delivering node a
      → j < n
      → node ≡ node_of j
      → a.req.req_id ≡ j
      → has node p.sys.taken ≡ true
      → length p.sys.taken ≤ n
      → Inv n p
      → Inv n (delivered D delta a p)
  delivered-Inv p node j a e lt is id there le v =
      let ready : (i : ℕ)
          → p.device.response_ready i
            ≡ (has (node_of i) p.sys.taken && not (in_hand (delivering node a) (node_of i))) =
        λ i. rw e at v.ready i in
      let counted = rw e at v.counted in
      record {
        ready = λ i. ground (arith, ready i);
        counted = omega (arith, counted);
        hand = tt;
        stamped = v.stamped;
        outside = v.outside;
        nodes = v.nodes;
        entered = λ i now. ground (arith, v.entered i);
      }

  pub taken-le :
      {q : MpscQueue} {nic : Nic D} {r : ℕ → RdmaReq D} (p : Phase D)
      → Reach D delta n q nic r p
      → Inv n p
      → length p.sys.taken ≤ n
  taken-le p h v =
      let (left, e, d, listed) = delivery_in_order (queue-Reach D delta h) in
      let own = taken-nodes n p v.nodes left e in
      omega (
        arith,
        length-missing n p.sys.taken own (Distinct-append p.sys.taken left (subst Distinct e d)),
      )

  Step-Inv :
      {q : MpscQueue} {nic : Nic D} {r : ℕ → RdmaReq D} {s t : Phase D}
      → Reach D delta n q nic r s
      → Step D delta n s t
      → Inv n s
      → Inv n t
  unfolding polled consume returned
  Step-Inv {s} h (clear i t0 lt e) v = record {
    ready = v.ready;
    counted = v.counted;
    hand = HandOf-clear n s.req s.sys.taken s.card i t0 v.hand;
    stamped = λ j. clear-stamped s i t0 j (v.stamped j);
    outside = λ j le. ground (arith, v.outside j);
    nodes = v.nodes;
    entered = v.entered;
  }
  Step-Inv {s} h (swap i lt e) v = record {
    ready = v.ready;
    counted = v.counted;
    hand = v.hand;
    stamped = λ j. ground (arith, v.stamped j);
    outside = λ j le. ground (arith, v.outside j);
    nodes = AllNodes-snoc n i s.sys.order lt v.nodes;
    entered = v.entered;
  }
  Step-Inv {s} h (link i prev lt e) v = record {
    ready = v.ready;
    counted = v.counted;
    hand = v.hand;
    stamped = λ j. ground (arith, v.stamped j);
    outside = λ j le. ground (arith, v.outside j);
    nodes = v.nodes;
    entered = v.entered;
  }
  Step-Inv {s} h (poll e more) v = poll_step-Inv s (returned s.sys) _ _ e (returned-own s h v) v
  Step-Inv {s} h (calculates node e) v =
      let (j, lt, is, id, there) = rw e at v.hand in
      let at : req_of node ≡ j = omega (arith, is) in
      calculated-Inv s node j _ e lt is
        (calculate-req_id D delta s.device.nic (s.req (req_of node))
          ∙ ap (λ k. (s.req k).req_id) at
          ∙ id)
        there v
  Step-Inv {s} h (deliver node a e) v =
      let (j, lt, is, id, there) = rw e at v.hand in
      delivered-Inv s node j a e lt is id there (taken-le s h v) v
  Step-Inv {s} h (leave i lt e ready t) v = record {
    ready = v.ready;
    counted = v.counted;
    hand = v.hand;
    stamped = v.stamped;
    outside = v.outside;
    nodes = v.nodes;
    entered = λ j now. ground (arith, v.entered j);
  }

  pub Reach-Inv :
      {q : MpscQueue} {nic : Nic D} {r : ℕ → RdmaReq D} {p : Phase D}
      → Reach D delta n q nic r p
      → Inv n p
  Reach-Inv start = record {
    ready = λ i. refl;
    counted = refl;
    hand = tt;
    stamped = λ i. inl refl;
    outside = λ i le. refl;
    nodes = tt;
    entered = λ i e. cc;
  }
  Reach-Inv (later h st) = Step-Inv h st (Reach-Inv h)

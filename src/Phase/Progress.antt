-- ===== src/Phase/Progress.antt =====
-- The first phase of a sweep of custom-test/test2-rdma-fin.c comes to its end: the readers and the card
-- never wait for each other for ever.
use mio_xcena.Base.{
  ℕ, zero, suc, ◌+◌, ◌*◌, ◌≤◌, ◌<◌, ◌^◌, ◌≡◌, ◌≢◌, ◌⊎◌, inl, inr, refl, sym, ap, ◌∙◌, Bool, true,
  false, not, Option, none, [], ◌∷◌, length-append, arith, total-le, find, eq_or_ne, Bool-cases,
}
use mathlib.Core.Path.{subst}
use native.Mathlib.Decide.{dec_lt}
use mio_xcena.Queue.{MpscQueue, node_of}
use mio_xcena.Queue.Chain.{has}
use mio_xcena.Queue.System.{Stage, idle, cleared, swapped, sent, System, owes, consume, returned}
use mio_xcena.Queue.Invariant.{unsent}
use mio_xcena.Queue.Delivery.{delivery_in_order}
use mio_xcena.Queue.Returned.{Returns, now, later_on, IsQuiet, quiet-Returns}
use mio_xcena.Nic.Clock.{Time}
use mio_xcena.Nic.{RdmaReq, Nic, Device}
use mio_xcena.Phase.{
  Phase, Card, polling, calculating, delivering, polled, take_node, Step, clear, swap, link, poll,
  calculates, deliver, leave, Reach, later, Steps, none_left, more,
}
use mio_xcena.Phase.Answered.{in_hand, hands, queue-Reach, Inv, Reach-Inv, taken-le}
use mio_xcena.Phase.Counted.{card_answers, all_taken}
use mio_xcena.Phase.Work.{
  rank, rank-le, bit, bit-le, card_rank, card_rank-le, work, stage-total, through-total,
}

is_sent : Stage → Bool
is_sent idle = false
is_sent cleared = false
is_sent (swapped _) = false
is_sent sent = true

is_sent-sent : (s : Stage) → is_sent s ≡ true → s ≡ sent
unfolding is_sent
is_sent-sent s e = ground arith

module _ (D : Time) (delta : D.T) (n : ℕ) where
  -- Further steps can be taken, which get work done.
  abbrev pub Moves : Phase D → Type 0
  Moves p = (t : Phase D) × Steps D delta n p t × (work n p < work n t)

  one : {s t : Phase D} → Step D delta n s t → Steps D delta n s t
  one st = more none_left st

  steps_append : {p s t : Phase D} → Steps D delta n p s → Steps D delta n s t → Steps D delta n p t
  steps_append before none_left = before
  steps_append before (more rest st) = more (steps_append before rest) st

  Reach-Steps :
      {q : MpscQueue} {nic : Nic D} {r : ℕ → RdmaReq D} {p t : Phase D}
      → Reach D delta n q nic r p
      → Steps D delta n p t
      → Reach D delta n q nic r t
  Reach-Steps h none_left = h
  Reach-Steps h (more rest st) = later (Reach-Steps h rest) st

  -- The card calls `mpsc_dequeue` until it gets a node.
  polls-Moves :
      {s : System} (req : ℕ → RdmaReq D) (device : Device D) (through : ℕ → Bool)
      → device.done < n
      → Returns s
      → Moves (record { sys = s; req = req; card = polling; device = device; through = through })
  unfolding polled consume returned
  polls-Moves {s} req device through more_left (now node e) =
      (_, one (poll refl more_left), rw e (omega (arith, length-append s.taken (node ∷ []))))
  polls-Moves {s} req device through more_left (later_on e rest) =
      let at : Option ℕ → Phase D = λ o. record {
        sys = consume s;
        req = req;
        card = take_node D delta o;
        device = device;
        through = through;
      } in
      let here : Phase D = record {
        sys = s;
        req = req;
        card = polling;
        device = device;
        through = through;
      } in
      let first : Step D delta n here (at none) =
        subst (λ o. Step D delta n here (at o)) e (poll refl more_left) in
      let same : work n (at none) ≡ work n here = rw e refl in
      let (t, steps, lt) = polls-Moves req device through more_left rest in
      (t, steps_append (one first) steps, omega (arith, same, lt))

module _ (D : Time) (delta : D.T) (n : ℕ) (small : n < 2 ^ 32) where
  -- A reader that has not sent its request yet goes on.
  producer-Moves :
      (p : Phase D) (i : ℕ) (s : Stage)
      → i < n
      → p.sys.stage i ≡ s
      → is_sent s ≡ false
      → Moves D delta n p
  unfolding is_sent
  producer-Moves p i idle lt e f = (
    _,
    one D delta n (clear i D.zero lt e),
    omega (arith, stage-total n p.sys.stage i cleared lt, ap rank e),
  )
  producer-Moves p i cleared lt e f = (
    _,
    one D delta n (swap i lt e),
    omega (arith, stage-total n p.sys.stage i (swapped p.sys.queue.tail) lt, ap rank e),
  )
  producer-Moves p i (swapped prev) lt e f = (
    _,
    one D delta n (link i prev lt e),
    omega (arith, stage-total n p.sys.stage i sent lt, ap rank e),
  )
  producer-Moves p i sent lt e f = cc

  -- No node is between its exchange and its link.
  all_sent-IsQuiet :
      (p : Phase D) → Inv n p → ((j : ℕ) → j < n → is_sent (p.sys.stage j) ≡ true) → IsQuiet p.sys
  unfolding is_sent
  all_sent-IsQuiet p v all i = elim (dec_lt i n) [
    | Dec.yes below ↦ ap owes (is_sent-sent _ (all i below))
    | Dec.no above ↦ ap owes (v.outside i (omega (arith, above)))
  ]

  -- The card goes on with the node that it has in hand, or calls `mpsc_dequeue`.
  card-Moves :
      (p : Phase D) (c : Card D)
      → p.card ≡ c
      → (p.card ≡ polling → p.device.done < n)
      → (p.card ≡ polling → Returns p.sys)
      → Moves D delta n p
  card-Moves p polling e more_left rs =
      let same : record p { card = polling } ≡ p = ap (λ c. record p { card = c }) (sym e) in
      subst (Moves D delta n) same
        (polls-Moves D delta n p.req p.device p.through (more_left e) (rs e))
  card-Moves p (calculating node) e more_left rs =
      (_, one D delta n (calculates node e), omega (arith, ap card_rank e))
  card-Moves p (delivering node a) e more_left rs =
      (_, one D delta n (deliver node a e), omega (arith, ap card_rank e))

  -- A reader that has sent and has not left its loop: it leaves, or the card goes on.
  waiting-Moves :
      {q : MpscQueue} {nic : Nic D} {r : ℕ → RdmaReq D} (p : Phase D) (i : ℕ)
      → Reach D delta n q nic r p
      → ((j : ℕ) → j < n → is_sent (p.sys.stage j) ≡ true)
      → i < n
      → p.through i ≡ false
      → Moves D delta n p
  unfolding is_sent
  waiting-Moves p i h all lt out = elim (Bool-cases (p.device.response_ready i)) [
    | inl ready ↦ (
      _,
      one D delta n (leave i lt (is_sent-sent _ (all i lt)) ready out),
      omega (arith, through-total n p.through i lt, ap bit out),
    )
    | inr not_yet ↦
        card-Moves p p.card refl (λ e. unfinished not_yet)
          (λ e.
            quiet-Returns p.sys (queue-Reach D delta h) (all_sent-IsQuiet p v all)
              (stuck not_yet e))
  ]
    where
      v : Inv n p
      v = Reach-Inv D delta n small h

      unfinished : p.device.response_ready i ≡ false → p.device.done < n
      unfinished e = elim (eq_or_ne p.device.done n) [
        | inl done ↦
            let ready = (card_answers D delta n small h).4 done i lt in
            absurd (ground (arith, ready))
        | inr ne ↦ let le = (card_answers D delta n small h).3 in omega (arith, le, ne)
      ]

      stuck : p.device.response_ready i ≡ false → p.card ≡ polling → p.sys.taken ≢ p.sys.order
      stuck e idle_card drained =
          let (left, o, d, listed) = delivery_in_order (queue-Reach D delta h) in
          let sends : p.sys.stage i ≡ sent = is_sent-sent _ (all i lt) in
          let there : has (node_of i) p.sys.order ≡ true =
            listed i ∙ ap (λ s. not (unsent s)) sends in
          let taken : has (node_of i) p.sys.taken ≡ true = ap (has (node_of i)) drained ∙ there in
          let hand : in_hand p.card (node_of i) ≡ false = rw idle_card refl in
          ground (arith, v.ready i, taken, e, hand)

  moves :
      {q : MpscQueue} {nic : Nic D} {r : ℕ → RdmaReq D} (p : Phase D)
      → Reach D delta n q nic r p
      → ((i : ℕ) → i < n → p.through i ≡ true) ⊎ Moves D delta n p
  moves p h = elim (find n (λ i. is_sent (p.sys.stage i))) [
    | inr (i, lt, e) ↦ inr (producer-Moves p i (p.sys.stage i) lt refl e)
    | inl all ↦ elim (find n p.through) [
      | inr (i, lt, e) ↦ inr (waiting-Moves p i h all lt e)
      | inl out ↦ inl out
    ]
  ]

  work-le :
      {q : MpscQueue} {nic : Nic D} {r : ℕ → RdmaReq D} (p : Phase D)
      → Reach D delta n q nic r p
      → work n p ≤ 7 * n + 2
  work-le p h =
      let taken = taken-le D delta n small p h (Reach-Inv D delta n small h) in
      omega (
        arith,
        total-le n 3 (λ i. rank (p.sys.stage i)) (λ i. rank-le (p.sys.stage i)),
        total-le n 1 (λ i. bit (p.through i)) (λ i. bit-le (p.through i)),
        card_rank-le p.card,
        taken,
      )

  finishes :
      {q : MpscQueue} {nic : Nic D} {r : ℕ → RdmaReq D} (fuel : ℕ) (origin p : Phase D)
      → Reach D delta n q nic r p
      → Steps D delta n origin p
      → 7 * n + 2 ≤ work n p + fuel
      → (t : Phase D) × Steps D delta n origin t
        × Reach D delta n q nic r t
        × ((i : ℕ) → i < n → t.through i ≡ true)
  finishes zero origin p h so_far enough = elim (moves p h) [
    | inl out ↦ (p, so_far, h, out)
    | inr (s, st, lt) ↦ absurd (omega (arith, work-le s (Reach-Steps D delta n h st), lt, enough))
  ]
  finishes (suc fuel) origin p h so_far enough = elim (moves p h) [
    | inl out ↦ (p, so_far, h, out)
    | inr (s, st, lt) ↦
        finishes fuel origin s (Reach-Steps D delta n h st) (steps_append D delta n so_far st)
          (omega (arith, lt, enough))
  ]

  -- All readers have left: the card delivers what it still has in hand.
  hands_over :
      (p : Phase D) (c : Card D)
      → p.card ≡ c
      → (t : Phase D) × Steps D delta n p t × (t.card ≡ polling) × (t.through ≡ p.through)
  hands_over p polling e = (p, none_left, e, refl)
  hands_over p (calculating node) e =
      (_, more (one D delta n (calculates node e)) (deliver node _ refl), refl, refl)
  hands_over p (delivering node a) e = (_, one D delta n (deliver node a e), refl, refl)

  -- From every reachable state of the phase, for fewer than 2^32 readers, there are steps after which
  -- all readers have left their waiting loops and the card's counter is their number, so that
  -- `rnic_thread` returns.
  pub phase_finishes :
      {q : MpscQueue} {nic : Nic D} {r : ℕ → RdmaReq D} {p : Phase D}
      → Reach D delta n q nic r p
      → (t : Phase D) × Steps D delta n p t
        × ((i : ℕ) → i < n → t.through i ≡ true)
        × (t.device.done ≡ n)
  phase_finishes {q} {nic} {r} {p} h =
      let (s, steps, there, out) = finishes (7 * n + 2) p p h none_left (omega arith) in
      let (t, over, idle_card, same) = hands_over s s.card refl in
      let all_out : (i : ℕ) → i < n → t.through i ≡ true = λ i lt. ap (λ f. f i) same ∙ out i lt in
      let (counted, all) = all_taken D delta n small t (Reach-Steps D delta n there over) all_out in
      let hand : hands t.card ≡ 0 = ap hands idle_card in
      (t, steps_append D delta n steps over, all_out, omega (arith, counted, hand))

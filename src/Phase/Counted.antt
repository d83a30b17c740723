-- ===== src/Phase/Counted.antt =====
-- What the counter of the card of custom-test/test2-rdma-fin.c says.
use mio_xcena.Base.{
  refl, ◌+◌, ◌&&◌, not, length, ℕ, ◌≤◌, ◌<◌, ◌^◌, ◌≡◌, ap, ◌∙◌, true, false, ◌||◌, arith,
}
use mathlib.Core.Path.{subst}
use mio_xcena.Queue.{MpscQueue, node_of}
use mio_xcena.Queue.Chain.{has, has-append}
use mio_xcena.Queue.Delivery.{Distinct, delivery_in_order}
use mio_xcena.Queue.Invariant.{unsent}
use mio_xcena.Nic.Clock.{Time}
use mio_xcena.Nic.{RdmaReq, Nic}
use mio_xcena.Phase.{Phase, Card, polling, calculating, delivering, Reach}
use mio_xcena.Phase.Nodes.{length-missing, none_missing, missing-zero, Distinct-append}
use mio_xcena.Phase.Answered.{in_hand, hands, queue-Reach, taken-nodes, Reach-Inv}

idle_hands : {D : Time} (c : Card D) → hands c ≡ 0 → (a : ℕ) → in_hand c a ≡ false
idle_hands polling e a = refl
idle_hands (calculating node) e a = absurd (omega (arith, e))
idle_hands (delivering node _) e a = absurd (omega (arith, e))

module _ (D : Time) (delta : D.T) (n : ℕ) (small : n < 2 ^ 32) where
  -- In every reachable state of the phase, for fewer than 2^32 readers: the card has answered exactly
  -- the readers whose nodes it has taken, but that of the node it has in hand, and only readers that
  -- have sent; a reader that has left its
  -- loop was answered; `done` is at most the number of readers; and when it is that number, so that
  -- `rnic_thread` returns, every reader is answered.
  pub card_answers :
      {q : MpscQueue} {nic : Nic D} {r : ℕ → RdmaReq D} {p : Phase D}
      → Reach D delta n q nic r p
      → ((i : ℕ)
          → p.device.response_ready i
            ≡ (has (node_of i) p.sys.taken && not (in_hand p.card (node_of i))))
        × ((i : ℕ) → p.device.response_ready i ≡ true → unsent (p.sys.stage i) ≡ false)
        × ((i : ℕ) → p.through i ≡ true → p.device.response_ready i ≡ true)
        × (p.device.done ≤ n)
        × (p.device.done ≡ n → (i : ℕ) → i < n → p.device.response_ready i ≡ true)
  card_answers {q} {nic} {r} {p} h =
      let v = Reach-Inv D delta n small h in
      let (left, e, d, listed) = delivery_in_order (queue-Reach D delta h) in
      let own = taken-nodes n p v.nodes left e in
      let sizes =
        length-missing n p.sys.taken own (Distinct-append p.sys.taken left (subst Distinct e d)) in
      let listed_in : (i : ℕ)
          → has (node_of i) p.sys.order ≡ (has (node_of i) p.sys.taken || has (node_of i) left) =
        λ i. ap (has (node_of i)) e ∙ has-append (node_of i) p.sys.taken left in
      (
        v.ready,
        λ i now. ground (arith, listed i, v.ready i, listed_in i),
        v.entered,
        omega (arith, sizes, v.counted),
        λ all i lt. ground (
          arith,
          v.ready i,
          none_missing n i p.sys.taken (omega (arith, sizes, v.counted)) lt,
          idle_hands p.card (omega (arith, sizes, v.counted)) (node_of i),
        ),
      )

  pub all_taken :
      {q : MpscQueue} {nic : Nic D} {r : ℕ → RdmaReq D} (p : Phase D)
      → Reach D delta n q nic r p
      → ((i : ℕ) → i < n → p.through i ≡ true)
      → (p.device.done + hands p.card ≡ n) × (length p.sys.taken ≡ n)
  all_taken p h out =
      let v = Reach-Inv D delta n small h in
      let (left, e, d, listed) = delivery_in_order (queue-Reach D delta h) in
      let own = taken-nodes n p v.nodes left e in
      let sizes =
        length-missing n p.sys.taken own (Distinct-append p.sys.taken left (subst Distinct e d)) in
      let none_out =
        missing-zero n p.sys.taken (λ i lt. ground (arith, v.ready i, v.entered i, out i)) in
      (omega (arith, sizes, none_out, v.counted), omega (arith, sizes, none_out))

-- ===== src/Queue/Returned.antt =====
-- When no producer of custom-test/test2-rdma-fin.c stands between its exchange and its link, the consumer
-- gets a node after finitely many of its steps, wherever in `mpsc_dequeue` it stands, if one is left.
use mathlib.Core.List.{append-nil}
use mio_xcena.Base.{
  ℕ, zero, suc, ◌≡◌, ◌≢◌, refl, sym, ap, ◌∙◌, false, none, some, List, [], ◌∷◌, ◌++◌, arith, ◌==◌,
  Option-cases, Bool-cases, inl, inr,
}
use mio_xcena.Queue.{MpscQueue, stub}
use mio_xcena.Queue.Sequential.{QueuePath, contents}
use mio_xcena.Queue.System.{
  Consumer, outside, at_next, at_tail, rearming, rearm_cleared, rearm_swapped, at_recheck, System,
  owes, owes_stub, pending, dequeue_step, returned, consume, dequeue, Reach, later,
}
use mio_xcena.Queue.Invariant.{Inv}
use mio_xcena.Queue.Delivery.{Reach-Inv}

-- Steps of the consumer that return nothing, up to one that does.
pub data Returns : System → Type 0 where
  now : {s : System} (node : ℕ) → returned s ≡ some node → Returns s
  later_on : {s : System} → returned s ≡ none → Returns (consume s) → Returns s

-- No producer owes a link.
abbrev pub IsQuiet : System → Type 0
IsQuiet s = (i : ℕ) → owes (s.stage i) ≡ none

head-next :
    (s : System) (l : List ℕ)
    → IsQuiet s
    → owes_stub s.consumer ≡ none
    → QueuePath (pending s.stage (owes_stub s.consumer)) s.queue l
    → l ≢ []
    → (y : ℕ) × (s.queue.next s.queue.head ≡ some y)
head-next s [] quiet c p ne = absurd (ne refl)
head-next s (zero ∷ l) quiet c p ne = (zero, ground (arith, c, p.1))
head-next s (suc i ∷ l) quiet c p ne = (suc i, ground (arith, quiet i, p.1))

not_alone : (s : System) (inv : Inv s) → s.queue.head ≢ s.queue.tail → inv.rest ≢ []
not_alone s inv ne = go inv.rest inv.path
  where
    go : (l : List ℕ) → QueuePath (pending s.stage (owes_stub s.consumer)) s.queue l → l ≢ []
    go [] p e = ne p.0
    go (y ∷ l) p e = cc

module _ {n : ℕ} {q : MpscQueue} where
  -- `head` is off the stub, and there are nodes behind it.
  module _ (s : System) (r : Reach n q s) (quiet : IsQuiet s) where
    linked :
        (h : ℕ)
        → owes_stub s.consumer ≡ none
        → s.queue.head ≡ h
        → (Reach-Inv r).rest ≢ []
        → (y : ℕ) × (s.queue.next h ≡ some y)
    linked h c e ne =
        let (y, at) = head-next s (Reach-Inv r).rest quiet c (Reach-Inv r).path ne in
        (y, rw (← e) at)

    outside-Returns :
        s.consumer ≡ outside → s.queue.head ≢ stub → (Reach-Inv r).rest ≢ [] → Returns s
    unfolding returned dequeue_step
    outside-Returns c off ne =
        let (y, at) = linked s.queue.head (rw c refl) refl ne in
        let is_off : (s.queue.head == stub) ≡ false = ground arith in
        now s.queue.head (rw (c, returned, is_off, at) refl)

    recheck-Returns : (h : ℕ) → s.consumer ≡ at_recheck h → Returns s
    unfolding returned dequeue_step
    recheck-Returns h c =
        let there = (Reach-Inv r).rearmed (rw c refl) in
        let (e, off) = (Reach-Inv r).held h (rw c refl) in
        let (y, at) = linked h (rw c refl) e (λ none_behind. ground (arith, there, none_behind)) in
        now h (rw (c, returned, at) refl)

  swapped-Returns :
      (s : System) (h prev : ℕ)
      → Reach n q s
      → IsQuiet s
      → s.consumer ≡ rearm_swapped h prev
      → Returns s
  unfolding consume returned dequeue_step
  swapped-Returns s h prev r quiet c =
      later_on (rw c refl) (recheck-Returns (consume s) (later r dequeue) quiet h (rw c refl))

  cleared-Returns :
      (s : System) (h : ℕ) → Reach n q s → IsQuiet s → s.consumer ≡ rearm_cleared h → Returns s
  unfolding consume returned dequeue_step
  cleared-Returns s h r quiet c =
      later_on (rw c refl)
        (swapped-Returns (consume s) h s.queue.tail (later r dequeue) quiet (rw c refl))

  rearming-Returns :
      (s : System) (h : ℕ) → Reach n q s → IsQuiet s → s.consumer ≡ rearming h → Returns s
  unfolding consume returned dequeue_step
  rearming-Returns s h r quiet c =
      later_on (rw c refl) (cleared-Returns (consume s) h (later r dequeue) quiet (rw c refl))

  tail-Returns : (s : System) (h : ℕ) → Reach n q s → IsQuiet s → s.consumer ≡ at_tail h → Returns s
  unfolding consume returned dequeue_step
  tail-Returns s h r quiet c = elim (Bool-cases (h == s.queue.tail)) [
    | inl e ↦
        later_on (rw (c, returned, e) refl)
          (rearming-Returns (consume s) h (later r dequeue) quiet (rw (c, e) refl))
    | inr e ↦
        let (at, off) = (Reach-Inv r).held h (rw c refl) in
        later_on (rw (c, returned, e) refl) (
          outside-Returns (consume s) (later r dequeue) quiet (rw (c, e) refl) (rw (c, e, at) off) (
            not_alone (consume s) (Reach-Inv (later r dequeue)) (λ same. ground (
              arith,
              e,
              at,
              (let f : (consume s).queue ≡ s.queue = rw (c, e) refl in
                  ap (λ k. k.head) (sym f) ∙ same ∙ ap (λ k. k.tail) f),
            ))))
  ]

  next-Returns : (s : System) (h : ℕ) → Reach n q s → IsQuiet s → s.consumer ≡ at_next h → Returns s
  unfolding consume returned dequeue_step
  next-Returns s h r quiet c = elim (Option-cases (s.queue.next h)) [
    | inl nothing ↦
        later_on (rw (c, returned, nothing) refl)
          (tail-Returns (consume s) h (later r dequeue) quiet (rw (c, nothing) refl))
    | inr (y, at) ↦ now h (rw (c, returned, at) refl)
  ]

  enter-Returns :
      (s : System)
      → (r : Reach n q s) → IsQuiet s
      → contents s.queue (Reach-Inv r).rest ≢ []
      → s.consumer ≡ outside
      → Returns s
  unfolding consume returned dequeue_step
  enter-Returns s r quiet left c = elim (Bool-cases (s.queue.head == stub)) [
    | inl e ↦
        let (y, at) =
          linked s r quiet s.queue.head (rw c refl) refl
            (λ none_behind. left (ground (arith, none_behind))) in
        later_on (rw (c, returned, e, at) refl)
          (next-Returns (consume s) y (later r dequeue) quiet (rw (c, e, at) refl))
    | inr e ↦ elim (Option-cases (s.queue.next s.queue.head)) [
      | inl nothing ↦
          later_on (rw (c, returned, e, nothing) refl) (
            tail-Returns (consume s) s.queue.head (later r dequeue) quiet (rw (c, e, nothing) refl))
      | inr (y, at) ↦ now s.queue.head (rw (c, returned, e, at) refl)
    ]
  ]

  any-Returns :
      (c : Consumer) (s : System)
      → (r : Reach n q s) → IsQuiet s
      → contents s.queue (Reach-Inv r).rest ≢ []
      → s.consumer ≡ c
      → Returns s
  any-Returns outside s r quiet left c = enter-Returns s r quiet left c
  any-Returns (at_next h) s r quiet left c = next-Returns s h r quiet c
  any-Returns (at_tail h) s r quiet left c = tail-Returns s h r quiet c
  any-Returns (rearming h) s r quiet left c = rearming-Returns s h r quiet c
  any-Returns (rearm_cleared h) s r quiet left c = cleared-Returns s h r quiet c
  any-Returns (rearm_swapped h prev) s r quiet left c = swapped-Returns s h prev r quiet c
  any-Returns (at_recheck h) s r quiet left c = recheck-Returns s r quiet h c

  -- In a reachable state in which no producer is between its exchange and its link, and some node that is
  -- in the order has not been returned, the consumer's own steps return one.
  pub quiet-Returns : (s : System) → Reach n q s → IsQuiet s → s.taken ≢ s.order → Returns s
  quiet-Returns s r quiet ne =
      any-Returns s.consumer s r quiet
        (λ e. ne (sym ((Reach-Inv r).log ∙ ap (λ c. s.taken ++ c) e ∙ append-nil s.taken))) refl

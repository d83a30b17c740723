-- ===== src/Queue/Consumed.antt =====
-- Each step of the consumer of custom-test/test2-rdma-fin.c keeps the invariant of the queue.
use mathlib.Core.Path.{subst}
use mathlib.Core.List.{append_assoc, append-nil}
use mio_xcena.Base.{
  ℕ, zero, suc, ◌≡◌, ◌≢◌, refl, sym, ap, ◌∙◌, true, false, Option, none, some, List, [], ◌∷◌, ◌++◌,
  arith, fun_ext, ◌==◌, Option-cases, Bool-cases, inl, inr,
}
use mio_xcena.Queue.{MpscQueue, stub, node_of, update, enqueue_clear, enqueue_swap, enqueue_link}
use mio_xcena.Queue.Chain.{
  has, items-append, has-append, has-tail, has-prev, Chain, Chain-update, Chain-swap, Chain-link,
}
use mio_xcena.Queue.Sequential.{QueuePath, contents}
use mio_xcena.Queue.System.{
  Consumer, outside, at_next, at_tail, rearming, rearm_cleared, rearm_swapped, at_recheck, System,
  owes_stub, pending, dequeue_step, after_turn, consume, go_on, return_head, found_next, rechecked,
}
use mio_xcena.Queue.Invariant.{Inv, holds, unarmed, stub_cleared, rechecking}

-- A node with a successor in its field `next` is followed by it, and nobody owes that link.
record Followed (pend : ℕ → Option ℕ) (q : MpscQueue) (l : List ℕ) (n : ℕ) : Type 0 where
  behind : List ℕ
  split : l ≡ n ∷ behind
  path : QueuePath pend (record q { head = n }) behind
  free : pend n ≡ none
  out : has q.head l ≡ false

next-Followed :
    (pend : ℕ → Option ℕ) (q : MpscQueue) (l : List ℕ) (n : ℕ)
    → QueuePath pend q l
    → q.next q.head ≡ some n
    → Followed pend q l n
next-Followed pend q [] n p e = cc
next-Followed pend q (y ∷ l) n p e = elim (Option-cases (pend y)) [
  | inl free ↦
      let same : y ≡ n = ground (arith, p.1) in
      record {
        behind = l;
        split = ap (λ a. a ∷ l) same;
        path = subst (λ a. Chain q.next pend q.tail a l) same p.2;
        free = ap pend (sym same) ∙ free;
        out = p.0;
      }
  | inr (prev, owed) ↦ absurd (ground (arith, p.1))
]

module _ (s : System) (inv : Inv s) where
  open inv use {rest, path, log, owed, waiting, blank, held, stub_out, stub_blank, stub_owed}

  -- `head` moves on to its successor.
  over_stub-Inv :
      (n : ℕ)
      → s.consumer ≡ outside
      → s.queue.head ≡ stub
      → s.queue.next s.queue.head ≡ some n
      → Inv (after_turn (go_on (at_next n) (record s.queue { head = n })) s)
  over_stub-Inv n c e found = record {
    rest = f.behind;
    path = f.path;
    log = log ∙ ap (λ ys. s.taken ++ ys) same;
    owed = λ i prev o. ground (arith, owed i prev o, f.split, f.free);
    waiting = λ i o. ground (arith, waiting i o, f.split);
    blank = blank;
    held = λ h o. ground (arith, f.out, f.split);
    stub_out = λ o. cc;
    stub_blank = λ o. cc;
    stub_owed = λ prev o. cc;
    rearmed = λ o. cc;
  }
    where
      f : Followed (pending s.stage none) s.queue rest n
      f = next-Followed (pending s.stage none) s.queue rest n (rw c at path) found

      same : contents s.queue rest ≡ contents (record s.queue { head = n }) f.behind
      same = ground (arith, f.split)

  return_head-Inv :
      (h n : ℕ)
      → owes_stub s.consumer ≡ none
      → s.queue.head ≡ h
      → h ≢ stub
      → s.queue.next h ≡ some n
      → Inv (after_turn (return_head h n s.queue) s)
  return_head-Inv h n c e ne found = record {
    rest = f.behind;
    path = f.path;
    log = log ∙ ap (λ ys. s.taken ++ ys) same ∙ sym (append_assoc s.taken (h ∷ []) _);
    owed = λ i prev o. ground (arith, owed i prev o, f.split, f.free);
    waiting = λ i o. ground (arith, waiting i o, f.split);
    blank = blank;
    held = λ h o. cc;
    stub_out = λ o. cc;
    stub_blank = λ o. cc;
    stub_owed = λ prev o. cc;
    rearmed = λ o. cc;
  }
    where
      f : Followed (pending s.stage none) s.queue rest n
      f = next-Followed (pending s.stage none) s.queue rest n (rw c at path) (rw e found)

      same : contents s.queue rest ≡ h ∷ contents (record s.queue { head = n }) f.behind
      same = ground (arith, f.split)

  -- Nothing but the consumer's place changes.
  place-Inv :
      (c : Consumer)
      → owes_stub s.consumer ≡ owes_stub c
      → ((h : ℕ) → holds c ≡ some h → (s.queue.head ≡ h) × (h ≢ stub))
      → (unarmed c ≡ true → has stub (s.queue.head ∷ rest) ≡ false)
      → stub_cleared c ≡ false
      → rechecking c ≡ false
      → owes_stub c ≡ none
      → Inv (after_turn (go_on c s.queue) s)
  place-Inv c same held' out' not_cleared not_rechecking none_owed = record {
    rest = rest;
    path = subst (λ o. QueuePath (pending s.stage o) s.queue rest) same path;
    log = log;
    owed = owed;
    waiting = waiting;
    blank = blank;
    held = held';
    stub_out = out';
    stub_blank = λ o. cc;
    stub_owed = λ prev o. cc;
    rearmed = λ o. cc;
  }

  -- The call ends with NULL.
  null-Inv : owes_stub s.consumer ≡ none → Inv (after_turn (go_on outside s.queue) s)
  null-Inv c = place-Inv outside c (λ h o. cc) (λ o. cc) refl refl refl

  found_next-Inv :
      (h : ℕ)
      → owes_stub s.consumer ≡ none
      → s.queue.head ≡ h
      → h ≢ stub
      → Inv (after_turn (found_next h (s.queue.next h) s.queue) s)
  found_next-Inv h c e ne = elim (Option-cases (s.queue.next h)) [
    | inl nothing ↦
        rw nothing (place-Inv (at_tail h) c (λ k o. ground arith) (λ o. cc) refl refl refl)
    | inr (n, found) ↦ rw found (return_head-Inv h n c e ne found)
  ]

  rechecked-Inv :
      (h : ℕ)
      → owes_stub s.consumer ≡ none
      → s.queue.head ≡ h
      → h ≢ stub
      → Inv (after_turn (rechecked h (s.queue.next h) s.queue) s)
  rechecked-Inv h c e ne = elim (Option-cases (s.queue.next h)) [
    | inl nothing ↦ rw nothing (null-Inv c)
    | inr (n, found) ↦ rw found (return_head-Inv h n c e ne found)
  ]

  -- `head` is `tail`: nothing lies behind it.
  alone :
      (l : List ℕ)
      → QueuePath (pending s.stage none) s.queue l
      → s.queue.head ≡ s.queue.tail
      → l ≡ []
  alone [] p e = refl
  alone (y ∷ l) p e =
      absurd
        (ground (arith, has-tail s.queue.next (pending s.stage none) s.queue.tail y l p.2, p.0))

  rearm-Inv :
      (h : ℕ)
      → s.consumer ≡ at_tail h
      → h ≡ s.queue.tail
      → Inv (after_turn (go_on (rearming h) s.queue) s)
  rearm-Inv h c e =
      place-Inv (rearming h) (rw c refl) (λ k o. ground (arith, held h))
        (λ o. ground (arith, held h, nothing)) refl refl refl
    where
      nothing : rest ≡ []
      nothing = alone rest (rw c at path) (ground (arith, held h))

  clear_stub-Inv :
      (h : ℕ)
      → s.consumer ≡ rearming h
      → Inv (after_turn (go_on (rearm_cleared h) (enqueue_clear stub s.queue)) s)
  unfolding enqueue_clear
  clear_stub-Inv h c = record {
    rest = rest;
    path =
        Chain-update s.queue.next (pending s.stage none) s.queue.tail s.queue.head rest stub none
          (stub_out (rw c refl)) (rw c at path);
    log = log;
    owed = owed;
    waiting = waiting;
    blank = λ i o. ground (arith, blank i o);
    held = λ k o. ground (arith, held h);
    stub_out = λ o. stub_out (rw c refl);
    stub_blank = λ o. ground arith;
    stub_owed = λ prev o. cc;
    rearmed = λ o. cc;
  }

  -- What the consumer owes, in the pending links.
  owes-stub :
      (o : Option ℕ) (o' : Option ℕ) → update (pending s.stage o) stub o' ≡ pending s.stage o'
  owes-stub o o' = fun_ext at
    where
      at : (a : ℕ) → update (pending s.stage o) stub o' a ≡ pending s.stage o' a
      at zero = ground arith
      at (suc a) = ground arith

  swap_stub-Inv :
      (h : ℕ)
      → s.consumer ≡ rearm_cleared h
      → Inv (after_turn (go_on (rearm_swapped h s.queue.tail) (enqueue_swap stub s.queue)) s)
  unfolding enqueue_swap
  swap_stub-Inv h c = record {
    rest = rest ++ stub ∷ [];
    path =
        subst (λ pend. Chain s.queue.next pend stub s.queue.head (rest ++ stub ∷ []))
          (owes-stub none (some s.queue.tail))
          (Chain-swap s.queue.next (pending s.stage none) s.queue.tail s.queue.head rest stub
            (stub_out (rw c refl)) (stub_blank (rw c refl)) (rw c at path));
    log =
        log
        ∙ ap (λ ys. s.taken ++ ys)
            (sym (append-nil (contents s.queue rest))
              ∙ sym (items-append (s.queue.head ∷ rest) (stub ∷ [])));
    owed = λ i prev o. ground (arith, owed i prev o, has-append (node_of i) rest (stub ∷ []));
    waiting = λ i o. ground (arith, waiting i o, has-append (node_of i) rest (stub ∷ []));
    blank = blank;
    held = λ k o. ground (arith, held h);
    stub_out = λ o. cc;
    stub_blank = λ o. cc;
    stub_owed = λ prev o. ground (arith, has-append stub rest (stub ∷ []));
    rearmed = λ o. cc;
  }

  link_stub-Inv :
      (h prev : ℕ)
      → s.consumer ≡ rearm_swapped h prev
      → Inv (after_turn (go_on (at_recheck h) (enqueue_link prev stub s.queue)) s)
  unfolding enqueue_link
  link_stub-Inv h prev c = record {
    rest = rest;
    path =
        subst
          (λ pend. Chain (update s.queue.next prev (some stub)) pend s.queue.tail s.queue.head rest)
          (owes-stub (some prev) none)
          (Chain-link s.queue.next (pending s.stage (some prev)) s.queue.tail s.queue.head rest stub
            prev refl (stub_owed prev (rw c refl)) (rw c at path));
    log = log;
    owed = owed;
    waiting = waiting;
    blank = λ i o. ground (
      arith,
      blank i o,
      waiting i,
      has-prev s.queue.next (pending s.stage (some prev)) s.queue.tail s.queue.head rest stub prev
          refl (stub_owed prev (rw c refl)) (rw c at path),
    );
    held = λ k o. ground (arith, held h);
    stub_out = λ o. cc;
    stub_blank = λ o. cc;
    stub_owed = λ prev o. cc;
    rearmed = λ o. stub_owed prev (rw c refl);
  }

  enter-Inv : s.consumer ≡ outside → Inv (after_turn (dequeue_step outside s.queue) s)
  unfolding dequeue_step
  enter-Inv c = elim (Bool-cases (s.queue.head == stub)) [
    | inl e ↦ elim (Option-cases (s.queue.next s.queue.head)) [
      | inl nothing ↦ rw (e, nothing) (null-Inv (rw c refl))
      | inr (n, found) ↦ rw (e, found) (over_stub-Inv n c (ground arith) found)
    ]
    | inr e ↦ rw e (found_next-Inv s.queue.head (rw c refl) refl (ground arith))
  ]

  tail-Inv :
      (h : ℕ) → s.consumer ≡ at_tail h → Inv (after_turn (dequeue_step (at_tail h) s.queue) s)
  unfolding dequeue_step
  tail-Inv h c = elim (Bool-cases (h == s.queue.tail)) [
    | inl e ↦ rw e (rearm-Inv h c (ground arith))
    | inr e ↦ rw e (null-Inv (rw c refl))
  ]

  step-Inv : (c : Consumer) → s.consumer ≡ c → Inv (after_turn (dequeue_step c s.queue) s)
  unfolding dequeue_step
  step-Inv outside c = enter-Inv c
  step-Inv (at_next h) c = let (e, ne) = held h (rw c refl) in found_next-Inv h (rw c refl) e ne
  step-Inv (at_tail h) c = tail-Inv h c
  step-Inv (rearming h) c = clear_stub-Inv h c
  step-Inv (rearm_cleared h) c = swap_stub-Inv h c
  step-Inv (rearm_swapped h prev) c = link_stub-Inv h prev c
  step-Inv (at_recheck h) c = let (e, ne) = held h (rw c refl) in rechecked-Inv h (rw c refl) e ne

  pub consume-Inv : Inv (consume s)
  unfolding consume
  consume-Inv = step-Inv s.consumer refl

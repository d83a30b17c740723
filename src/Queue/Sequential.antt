-- ===== src/Queue/Sequential.antt =====
-- The nodes of a queue of custom-test/test2-rdma-fin.c, as a path on which links may be owed, and whole calls
-- of `mpsc_init` and `mpsc_enqueue` on a queue at rest.
use mathlib.Core.Path.{subst}
use mio_xcena.Base.{
  ℕ, ◌≡◌, ◌≢◌, false, Option, none, some, List, [], ◌∷◌, ◌++◌, arith, fun_ext, ap, ◌∙◌,
}
use mio_xcena.Queue.{MpscQueue, stub, update, mpsc_init, mpsc_enqueue}
use mio_xcena.Queue.Chain.{
  has, items, Chain, Chain-update, Chain-swap, Chain-link, has-append, items-append,
}

abbrev pub QueuePath : (pend : ℕ → Option ℕ) → MpscQueue → List ℕ → Type 0
QueuePath pend q l = Chain q.next pend q.tail q.head l

-- The requests that wait in a queue with the nodes `l` behind `head`, oldest first.
abbrev pub contents : MpscQueue → List ℕ → List ℕ
contents q l = items (q.head ∷ l)

pub contents-swap :
    (q : MpscQueue) (l : List ℕ) (n : ℕ)
    → n ≢ stub
    → contents q (l ++ n ∷ []) ≡ contents q l ++ n ∷ []
contents-swap q l n ne = items-append (q.head ∷ l) (n ∷ []) ∙ ground arith

abbrev pub no_owed : ℕ → Option ℕ
no_owed _ = none

-- A queue at rest with the nodes `l` behind `head`, no producer in the middle of an insertion.
abbrev pub Holds : MpscQueue → List ℕ → List ℕ → Type 0
Holds q l xs = QueuePath no_owed q l × (contents q l ≡ xs)

pub mpsc_init-Holds : (q : MpscQueue) → Holds (mpsc_init q) [] []
unfolding mpsc_init
mpsc_init-Holds q = ground arith

-- A whole `mpsc_enqueue` of a node that is not in the queue appends it.
pub mpsc_enqueue-Holds :
    (q : MpscQueue) (l xs : List ℕ) (n : ℕ)
    → n ≢ stub
    → has n (q.head ∷ l) ≡ false
    → Holds q l xs
    → Holds (mpsc_enqueue q n) (l ++ n ∷ []) (xs ++ n ∷ [])
unfolding mpsc_enqueue
mpsc_enqueue-Holds q l xs n ne out h = (
  subst (λ pend. Chain linked pend n q.head (l ++ n ∷ [])) paid
      (Chain-link cleared (update no_owed n (some q.tail)) n q.head (l ++ n ∷ []) n q.tail
        (ground arith) (ground (arith, has-append n l (n ∷ []))) swapped),
  contents-swap q l n ne ∙ ap (λ ys. ys ++ n ∷ []) h.1,
)
  where
    cleared : ℕ → Option ℕ
    cleared = update q.next n none

    linked : ℕ → Option ℕ
    linked = update cleared q.tail (some n)

    swapped : Chain cleared (update no_owed n (some q.tail)) n q.head (l ++ n ∷ [])
    swapped =
        Chain-swap cleared no_owed q.tail q.head l n out (ground arith)
          (Chain-update q.next no_owed q.tail q.head l n none out h.0)

    paid : update (update no_owed n (some q.tail)) n none ≡ no_owed
    paid = fun_ext λ a. ground arith

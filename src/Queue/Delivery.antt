-- ===== src/Queue/Delivery.antt =====
-- What every interleaving of the producers and the consumer of custom-test/test2-rdma-fin.c delivers: the
-- nodes reach the NIC thread in the order of the exchanges of `tail`, each once, and none is lost.
use mio_xcena.Base.{ℕ, ◌≡◌, refl, false, List, [], ◌∷◌, ◌++◌, arith, not}
use mio_xcena.Queue.{MpscQueue, node_of}
use mio_xcena.Queue.Chain.{has, has-append}
use mio_xcena.Queue.Sequential.{contents}
use mio_xcena.Queue.System.{System, Step, clear, swap, link, dequeue, consume, Reach, start, later}
use mio_xcena.Queue.Invariant.{Inv, unsent, init-Inv, clear-Inv, swap-Inv, link-Inv}
use mio_xcena.Queue.Consumed.{consume-Inv}

Step-Inv : {n : ℕ} {s t : System} → Step n s t → Inv s → Inv t
Step-Inv {s} (clear i lt e) inv = clear-Inv s inv i e
Step-Inv {s} (swap i lt e) inv = swap-Inv s inv i e
Step-Inv {s} (link i prev lt e) inv = link-Inv s inv i prev e
Step-Inv {s} dequeue inv = consume-Inv s inv

pub Reach-Inv : {n : ℕ} {q : MpscQueue} {s : System} → Reach n q s → Inv s
Reach-Inv {q} start = init-Inv q
Reach-Inv (later r st) = Step-Inv st (Reach-Inv r)

abbrev pub Distinct : List ℕ → Type 0
Distinct [] = Unit
Distinct (x ∷ xs) = (has x xs ≡ false) × Distinct xs

Distinct-snoc : (xs : List ℕ) (n : ℕ) → has n xs ≡ false → Distinct xs → Distinct (xs ++ n ∷ [])
Distinct-snoc [] n out d = ground arith
Distinct-snoc (x ∷ xs) n out d =
    (ground (arith, has-append x xs (n ∷ []), d.0), Distinct-snoc xs n (ground arith) d.1)

-- The history lists the nodes of exactly the producers that have made their exchange, each once.
pub record History (s : System) : Type 0 where
  pub distinct : Distinct s.order
  pub listed : (i : ℕ) → has (node_of i) s.order ≡ not (unsent (s.stage i))

Step-History : {n : ℕ} {s t : System} → Step n s t → History s → History t
unfolding consume
Step-History (clear i lt e) h = record {
  distinct = h.distinct;
  listed = λ j. ground (arith, h.listed j);
}
Step-History {s} (swap i lt e) h = record {
  distinct = Distinct-snoc s.order (node_of i) (ground (arith, h.listed i)) h.distinct;
  listed = λ j. ground (arith, h.listed j, has-append (node_of j) s.order (node_of i ∷ []));
}
Step-History (link i prev lt e) h = record {
  distinct = h.distinct;
  listed = λ j. ground (arith, h.listed j);
}
Step-History {s} dequeue h = record { distinct = h.distinct; listed = h.listed }

Reach-History : {n : ℕ} {q : MpscQueue} {s : System} → Reach n q s → History s
Reach-History start = record { distinct = tt; listed = λ i. refl }
Reach-History (later r st) = Step-History st (Reach-History r)

-- In every reachable state of any number of producers, the nodes that `mpsc_dequeue` has returned
-- are the first ones of the order in which the producers exchanged `tail`; that order names no node
-- twice, and names exactly the producers that have made their exchange.
pub delivery_in_order :
    {n : ℕ} {q : MpscQueue} {s : System}
    → Reach n q s
    → (left : List ℕ) × (s.order ≡ s.taken ++ left)
      × Distinct s.order
      × ((i : ℕ) → has (node_of i) s.order ≡ not (unsent (s.stage i)))
delivery_in_order {s} r =
    let inv = Reach-Inv r in
    let h = Reach-History r in (contents s.queue inv.rest, inv.log, h.distinct, h.listed)

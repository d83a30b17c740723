-- ===== src/Queue/Chain.antt =====
-- The chain of nodes from `head` to `tail` of an MPSC queue (custom-test/test2-rdma-fin.c), where a
-- link may still be owed by a producer that has exchanged `tail` and has not stored `next` yet.
use mathlib.Core.Path.{subst₂}
use mio_xcena.Base.{
  ℕ, ◌≡◌, refl, sym, Bool, true, false, ◌||◌, Option, none, some, List, [], ◌∷◌, ◌++◌, arith, ◌==◌,
  if◌then◌else◌, Bool-cases, inl, inr,
}
use mio_xcena.Queue.{stub, update}

abbrev pub has : ℕ → List ℕ → Bool
has a [] = false
has a (x ∷ xs) = (a == x) || has a xs

-- The nodes that carry requests.
abbrev pub items : List ℕ → List ℕ
items [] = []
items (x ∷ xs) = if x == stub then items xs else x ∷ items xs

-- `pend y ≡ some x`: a producer owes the store `x->next = y`.
abbrev pub Linked : (next pend : ℕ → Option ℕ) → ℕ → ℕ → Type 0
Linked next pend x y = elim (pend y) [ none ↦ next x ≡ some y | some p ↦ (p ≡ x) × (next x ≡ none) ]

-- From `x` through the distinct nodes `l` to `tail`, which has no successor.
abbrev pub Chain : (next pend : ℕ → Option ℕ) (tail x : ℕ) → List ℕ → Type 0
Chain next pend tail x [] = (x ≡ tail) × (next x ≡ none)
Chain next pend tail x (y ∷ l) =
    (has x (y ∷ l) ≡ false) × Linked next pend x y × Chain next pend tail y l

pub has-append : (a : ℕ) (xs ys : List ℕ) → has a (xs ++ ys) ≡ (has a xs || has a ys)
has-append a [] ys = refl
has-append a (x ∷ xs) ys = ground (arith, has-append a xs ys)

pub items-append : (xs ys : List ℕ) → items (xs ++ ys) ≡ items xs ++ items ys
items-append [] ys = refl
items-append (x ∷ xs) ys = ground (arith, items-append xs ys)

-- A change of `next` at a node outside the path.
pub Chain-update :
    (next pend : ℕ → Option ℕ) (tail x : ℕ) (l : List ℕ) (n : ℕ) (v : Option ℕ)
    → has n (x ∷ l) ≡ false
    → Chain next pend tail x l
    → Chain (update next n v) pend tail x l
Chain-update next pend tail x [] n v out p = ground arith
Chain-update next pend tail x (y ∷ l) n v out p =
    (p.0, ground arith, Chain-update next pend tail y l n v (ground arith) p.2)

-- A change of what the producer of a node outside the path owes.
pub Chain-pend :
    (next pend : ℕ → Option ℕ) (tail x : ℕ) (l : List ℕ) (n : ℕ) (v : Option ℕ)
    → has n l ≡ false
    → Chain next pend tail x l
    → Chain next (update pend n v) tail x l
Chain-pend next pend tail x [] n v out p = p
Chain-pend next pend tail x (y ∷ l) n v out p =
    (p.0, ground arith, Chain-pend next pend tail y l n v (ground arith) p.2)

pub has-tail :
    (next pend : ℕ → Option ℕ) (tail x : ℕ) (l : List ℕ)
    → Chain next pend tail x l
    → has tail (x ∷ l) ≡ true
has-tail next pend tail x [] p = ground arith
has-tail next pend tail x (y ∷ l) p = ground (arith, has-tail next pend tail y l p.2)

-- The node behind which an owed link belongs lies on the path.
pub has-prev :
    (next pend : ℕ → Option ℕ) (tail x : ℕ) (l : List ℕ) (y prev : ℕ)
    → pend y ≡ some prev
    → has y l ≡ true
    → Chain next pend tail x l
    → has prev (x ∷ l) ≡ true
has-prev next pend tail x [] y prev e m p = cc
has-prev next pend tail x (z ∷ l) y prev e m p =
    ground (arith, p.1, has-prev next pend tail z l y prev e)

-- The exchange of `tail` puts a node at the end; its producer owes the link.
pub Chain-swap :
    (next pend : ℕ → Option ℕ) (tail x : ℕ) (l : List ℕ) (n : ℕ)
    → has n (x ∷ l) ≡ false
    → next n ≡ none
    → Chain next pend tail x l
    → Chain next (update pend n (some tail)) n x (l ++ n ∷ [])
Chain-swap next pend tail x [] n out e p = ground arith
Chain-swap next pend tail x (y ∷ l) n out e p = (
  ground (arith, has-append x l (n ∷ [])),
  ground arith,
  Chain-swap next pend tail y l n (ground arith) e p.2,
)

pub has-head :
    (next pend : ℕ → Option ℕ) (tail x : ℕ) (l : List ℕ)
    → Chain next pend tail x l
    → has x l ≡ false
has-head next pend tail x [] p = refl
has-head next pend tail x (y ∷ l) p = p.0

-- The store of an owed link.
pub Chain-link :
    (next pend : ℕ → Option ℕ) (tail x : ℕ) (l : List ℕ) (y prev : ℕ)
    → pend y ≡ some prev
    → has y l ≡ true
    → Chain next pend tail x l
    → Chain (update next prev (some y)) (update pend y none) tail x l
Chain-link next pend tail x [] y prev e m p = cc
Chain-link next pend tail x (z ∷ l) y prev e m p = elim (Bool-cases (y == z)) [
  | inl here ↦
      (let yz : y ≡ z = ground arith in
        let xp : prev ≡ x = ground (arith, p.1) in
        (
          p.0,
          ground arith,
          subst₂ (λ a b. Chain (update next a (some b)) (update pend b none) tail z l) (sym xp)
              (sym yz)
              (Chain-pend (update next x (some z)) pend tail z l z none
                (has-head next pend tail z l p.2)
                (Chain-update next pend tail z l x (some z) p.0 p.2)),
        ))
  | inr later ↦ (
    p.0,
    ground (arith, has-prev next pend tail z l y prev e),
    Chain-link next pend tail z l y prev e (ground arith) p.2,
  )
]

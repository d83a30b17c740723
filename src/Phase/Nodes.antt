-- ===== src/Phase/Nodes.antt =====
-- Lists of nodes of the queue of custom-test/test2-rdma-fin.c: a list of different nodes of `n` readers
-- that has `n` entries has them all.
use mio_xcena.Base.{
  ℕ, zero, suc, ◌+◌, ◌≤◌, ◌<◌, ◌≡◌, refl, true, false, if◌then◌else◌, List, [], ◌∷◌, ◌++◌, length,
  arith, eq_or_ne, inl, inr, ◌∙◌,
}
use mio_xcena.Queue.{node_of}
use mio_xcena.Queue.Chain.{has, has-append}
use mio_xcena.Queue.Delivery.{Distinct}

-- All entries are nodes of the readers below `n`.
abbrev pub AllNodes : ℕ → List ℕ → Type 0
AllNodes n [] = Unit {0}
AllNodes n (x ∷ xs) = ((i : ℕ) × (i < n) × (x ≡ node_of i)) × AllNodes n xs

-- How many of the readers below `n` have no node in the list.
abbrev pub missing : ℕ → List ℕ → ℕ
missing zero xs = 0
missing (suc n) xs = (if has (node_of n) xs then 0 else 1) + missing n xs

missing-nil : (n : ℕ) → missing n [] ≡ n
missing-nil zero = refl
missing-nil (suc n) = omega (arith, missing-nil n)

missing-beyond : (n i : ℕ) (xs : List ℕ) → n ≤ i → missing n (node_of i ∷ xs) ≡ missing n xs
missing-beyond zero i xs le = refl
missing-beyond (suc n) i xs le = ground (arith, missing-beyond n i xs)

missing-cons :
    (n i : ℕ) (xs : List ℕ)
    → i < n
    → has (node_of i) xs ≡ false
    → missing n (node_of i ∷ xs) + 1 ≡ missing n xs
missing-cons zero i xs lt out = omega arith
missing-cons (suc n) i xs lt out = elim (eq_or_ne n i) [
  | inl e ↦ ground (arith, missing-beyond n i xs)
  | inr ne ↦ ground (arith, missing-cons n i xs)
]

pub length-missing :
    (n : ℕ) (xs : List ℕ) → AllNodes n xs → Distinct xs → length xs + missing n xs ≡ n
length-missing n [] all d = omega (arith, missing-nil n)
length-missing n (x ∷ xs) ((i, lt, e), all) d =
    rw e (omega (arith, missing-cons n i xs lt (rw (← e) d.0), length-missing n xs all d.1))

pub none_missing : (n i : ℕ) (xs : List ℕ) → missing n xs ≡ 0 → i < n → has (node_of i) xs ≡ true
none_missing zero i xs e lt = absurd (omega arith)
none_missing (suc n) i xs e lt = elim (eq_or_ne n i) [
  | inl same ↦ ground arith
  | inr ne ↦ ground (arith, none_missing n i xs)
]

pub missing-zero :
    (n : ℕ) (xs : List ℕ) → ((i : ℕ) → i < n → has (node_of i) xs ≡ true) → missing n xs ≡ 0
missing-zero zero xs all = refl
missing-zero (suc n) xs all = ground (arith, all n, missing-zero n xs (λ i lt. all i (omega arith)))

pub AllNodes-append : (n : ℕ) (xs ys : List ℕ) → AllNodes n (xs ++ ys) → AllNodes n xs
AllNodes-append n [] ys a = tt
AllNodes-append n (x ∷ xs) ys a = (a.0, AllNodes-append n xs ys a.1)

pub AllNodes-snoc :
    (n i : ℕ) (xs : List ℕ) → i < n → AllNodes n xs → AllNodes n (xs ++ node_of i ∷ [])
AllNodes-snoc n i [] lt a = ((i, lt, refl), tt)
AllNodes-snoc n i (x ∷ xs) lt a = (a.0, AllNodes-snoc n i xs lt a.1)

pub Distinct-append : (xs ys : List ℕ) → Distinct (xs ++ ys) → Distinct xs
Distinct-append [] ys d = tt
Distinct-append (x ∷ xs) ys d = (ground (arith, has-append x xs ys, d.0), Distinct-append xs ys d.1)

pub AllNodes-has :
    (n x : ℕ) (xs : List ℕ) → AllNodes n xs → has x xs ≡ true → (i : ℕ) × (i < n) × (x ≡ node_of i)
AllNodes-has n x [] a h = cc
AllNodes-has n x (y ∷ ys) a h = elim (eq_or_ne x y) [
  | inl e ↦ let (i, lt, is) = a.0 in (i, lt, e ∙ is)
  | inr ne ↦ AllNodes-has n x ys a.1 (ground arith)
]

pub has-last : (x : ℕ) (xs ys zs : List ℕ) → zs ≡ (xs ++ x ∷ []) ++ ys → has x zs ≡ true
has-last x xs ys zs e =
    rw e (ground (arith, has-append x (xs ++ x ∷ []) ys, has-append x xs (x ∷ [])))

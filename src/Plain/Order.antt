-- ===== src/Plain/Order.antt =====
-- Sums over the readers of a sweep in the order in which they publish (custom-test/test2.c).
use mio_xcena.Base.{
  ℕ, ◌+◌, ◌*◌, ◌<◌, ◌≡◌, refl, sym, ◌∙◌, if◌then◌else◌, ◌==◌, List, [], ◌∷◌, length, arith, total,
  total-set, total-same, total-ones, total-const, ==_refl, ==_ne,
}
use mio_xcena.Sweep.Totals.{AllBelow, sum_of}
use mio_xcena.Bench.Counters.{occurrences}

-- The requests below `n`, each once.
abbrev pub IsOrder : ℕ → List ℕ → Type 0
IsOrder n order = AllBelow n order × ((i : ℕ) → i < n → occurrences i order ≡ 1)

sum_of-total :
    (n : ℕ) (f : ℕ → ℕ) (order : List ℕ)
    → AllBelow n order
    → sum_of f order ≡ total n (λ i. occurrences i order * f i)
unfolding sum_of
sum_of-total n f [] below =
    let none_there : total n (λ i. occurrences i [] * f i) ≡ total n (λ i. 0) =
      total-same n _ (λ i. 0) (λ i lt. omega arith) in
    omega (arith, none_there, total-const n 0)
sum_of-total n f (o ∷ os) (lt, below) =
    let here : ((if o == o then 1 else 0) + occurrences o os) * f o ≡ f o + occurrences o os * f o =
      rw (==_refl o) (grind arith) in
    omega (
      arith,
      sum_of-total n f os below,
      total-set n o (f o + occurrences o os * f o) (λ i. occurrences i os * f i)
          (λ i. occurrences i (o ∷ os) * f i) lt here (λ i ne. rw (==_ne o i ne) (omega arith)),
    )

-- A sum over such an order is the sum over the requests.
pub sum_of-IsOrder :
    (n : ℕ) (f : ℕ → ℕ) (order : List ℕ) → IsOrder n order → sum_of f order ≡ total n f
sum_of-IsOrder n f order (below, once) =
    sum_of-total n f order below ∙ total-same n _ f (λ i lt. rw (once i lt) (omega arith))

length-sum_of : (order : List ℕ) → sum_of (λ i. 1) order ≡ length order
unfolding sum_of
length-sum_of [] = refl
length-sum_of (o ∷ os) = omega (arith, length-sum_of os)

pub length-IsOrder : (n : ℕ) (order : List ℕ) → IsOrder n order → length order ≡ n
length-IsOrder n order h =
    sym (length-sum_of order)
    ∙ sum_of-IsOrder n (λ i. 1) order h
    ∙ total-ones n (λ i. 1) (λ i lt. refl)

-- ===== src/Base/Totals.antt =====
-- Sums over the numbers below a bound, such as one term for each thread, and the search for one of them.
use Prim.Native.Nat.{ℕ, zero, suc, ◌+◌, ◌*◌, ◌≤◌, ◌<◌}
use mathlib.Core.Path.{◌≡◌, refl, ap}
use mathlib.Core.Logic.{◌≢◌, ◌⊎◌, inl, inr}
use mathlib.Core.Bool.{Bool, true, false}
use native.Mathlib.Omega.{arith}
use mio_xcena.Base.Tests.{◌==◌, if◌then◌else◌, ==_refl, ==_ne, eq_or_ne, Bool-cases}

-- The sum of `f 0, ..., f (n - 1)`.
abbrev pub total : ℕ → (ℕ → ℕ) → ℕ
total zero f = 0
total (suc n) f = f n + total n f

pub total-same : (n : ℕ) (f g : ℕ → ℕ) → ((i : ℕ) → i < n → f i ≡ g i) → total n f ≡ total n g
total-same zero f g e = refl
total-same (suc n) f g e =
    omega (arith, e n (omega arith), total-same n f g (λ i lt. e i (omega arith)))

-- One term is changed.
pub total-set :
    (n i v : ℕ) (f g : ℕ → ℕ)
    → i < n
    → g i ≡ v
    → ((j : ℕ) → i ≢ j → g j ≡ f j)
    → total n g + f i ≡ total n f + v
total-set zero i v f g lt at others = absurd (omega arith)
total-set (suc n) i v f g lt at others = elim (eq_or_ne i n) [
  | inl e ↦
      let rest = total-same n g f (λ j l. others j (omega arith)) in
      omega (arith, rest, at, ap f e, ap g e)
  | inr ne ↦ omega (arith, others n ne, total-set n i v f g (omega arith) at others)
]

pub total-le : (n b : ℕ) (f : ℕ → ℕ) → ((i : ℕ) → f i ≤ b) → total n f ≤ n * b
total-le zero b f le = omega arith
total-le (suc n) b f le = grind (arith, le n, total-le n b f le)

pub total-ones : (n : ℕ) (f : ℕ → ℕ) → ((i : ℕ) → i < n → f i ≡ 1) → total n f ≡ n
total-ones zero f ones = refl
total-ones (suc n) f ones =
    omega (arith, ones n (omega arith), total-ones n f (λ i lt. ones i (omega arith)))

pub total-const : (n v : ℕ) → total n (λ i. v) ≡ n * v
total-const zero v = omega arith
total-const (suc n) v = grind (arith, total-const n v)

-- All of the first `n`, or one that is not.
pub find :
    (n : ℕ) (f : ℕ → Bool) → ((i : ℕ) → i < n → f i ≡ true) ⊎ ((i : ℕ) × (i < n) × (f i ≡ false))
find zero f = inl (λ i lt. absurd (omega arith))
find (suc n) f = elim (find n f) [
  | inr (i, lt, e) ↦ inr (i, omega arith, e)
  | inl all ↦ elim (Bool-cases (f n)) [
    | inr e ↦ inr (n, omega arith, e)
    | inl e ↦
        inl (λ i lt. elim (eq_or_ne i n) [ inl same ↦ rw same e | inr ne ↦ all i (omega arith) ])
  ]
]

-- One thing of each number, with that of `i` replaced.
module _ {ℓ} {A : Type ℓ} where
  abbrev pub set_at : (ℕ → A) → ℕ → A → ℕ → A
  set_at f i v j = if i == j then v else f j

  -- A property of all of them, when one is replaced.
  pub each {κ} :
      (P : ℕ → A → Type κ) (f : ℕ → A) (i : ℕ) (v : A)
      → P i v
      → ((j : ℕ) → P j (f j))
      → (j : ℕ) → P j (set_at f i v j)
  each P f i v here others j = elim (eq_or_ne i j) [
    | inl e ↦ rw (← e) (rw (==_refl i) here)
    | inr ne ↦ rw (==_ne i j ne) (others j)
  ]

  -- A sum over them, when one is replaced.
  pub total-set_at :
      (g : A → ℕ) (n : ℕ) (f : ℕ → A) (i : ℕ) (v : A)
      → i < n
      → total n (λ j. g (set_at f i v j)) + g (f i) ≡ total n (λ j. g (f j)) + g v
  total-set_at g n f i v lt =
      total-set n i (g v) (λ j. g (f j)) (λ j. g (set_at f i v j)) lt (rw (==_refl i) refl)
        (λ j ne. rw (==_ne i j ne) refl)

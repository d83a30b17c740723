-- ===== src/Bench/Counters.antt =====
-- How often an offset comes up in the nested counting loops of src/benchmark.cpp.
use native.Mathlib.Decide.{dec_lt}
use mio_xcena.Base.{
  ℕ, zero, suc, ◌+◌, ◌*◌, ◌<◌, ◌≡◌, ◌≢◌, refl, ◌==◌, if◌then◌else◌, List, [], ◌∷◌, ◌++◌, ap, ◌∙◌,
  arith, lt→ltb, le→ltb,
}
use mio_xcena.Bench.Stride.{counter, concat_map}

abbrev pub occurrences : ℕ → List ℕ → ℕ
occurrences u [] = 0
occurrences u (x ∷ xs) = (if x == u then 1 else 0) + occurrences u xs

abbrev pub sum_over : (ℕ → ℕ) → List ℕ → ℕ
sum_over f [] = 0
sum_over f (x ∷ xs) = f x + sum_over f xs

pub occurrences-append :
    (u : ℕ) (xs ys : List ℕ) → occurrences u (xs ++ ys) ≡ occurrences u xs + occurrences u ys
occurrences-append u [] ys = omega arith
occurrences-append u (x ∷ xs) ys = omega (arith, occurrences-append u xs ys)

pub occurrences-concat_map :
    (u : ℕ) (f : ℕ → List ℕ) (xs : List ℕ)
    → occurrences u (concat_map f xs) ≡ sum_over (λ x. occurrences u (f x)) xs
occurrences-concat_map u f [] = refl
occurrences-concat_map u f (x ∷ xs) =
    omega (arith, occurrences-append u (f x) (concat_map f xs), occurrences-concat_map u f xs)

pub sum_over-none :
    (f : ℕ → ℕ) (fuel at last step : ℕ)
    → ((k : ℕ) → at + k * step < last → f (at + k * step) ≡ 0)
    → sum_over f (counter fuel at last step) ≡ 0
unfolding counter
sum_over-none f zero at last step zeros = refl
sum_over-none f (suc fuel) at last step zeros = elim (dec_lt at last) [
  | no over ↦ rw (le→ltb at last (omega arith)) refl
  | yes below ↦
      let here : f at ≡ 0 = ap f (omega arith) ∙ zeros 0 (omega arith) in
      let rest = sum_over-none f fuel (at + step) last step (λ k lt.
        let e : at + step + k * step ≡ at + suc k * step = grind arith in
        ap f e ∙ zeros (suc k) (omega (arith, e))) in
      rw (lt→ltb at last below) (omega (arith, here, rest))
]

-- Just one of the counter's values contributes.
pub sum_over-one :
    (f : ℕ → ℕ) (m fuel at last step : ℕ)
    → m < fuel
    → at + m * step < last
    → ((k : ℕ) → k ≢ m → at + k * step < last → f (at + k * step) ≡ 0)
    → sum_over f (counter fuel at last step) ≡ f (at + m * step)
unfolding counter
sum_over-one f m zero at last step enough inside zeros = absurd (omega arith)
sum_over-one f zero (suc fuel) at last step enough inside zeros =
    let rest = sum_over-none f fuel (at + step) last step (λ k lt.
      let e : at + step + k * step ≡ at + suc k * step = grind arith in
      ap f e ∙ zeros (suc k) (omega arith) (omega (arith, e))) in
    let here : f at ≡ f (at + 0 * step) = ap f (omega arith) in
    rw (lt→ltb at last (omega arith)) (omega (arith, here, rest))
sum_over-one f (suc m) (suc fuel) at last step enough inside zeros =
    let shift : at + step + m * step ≡ at + suc m * step = grind arith in
    let rest =
      sum_over-one f m fuel (at + step) last step (omega arith) (omega (arith, shift))
        (λ k other lt.
          let e : at + step + k * step ≡ at + suc k * step = grind arith in
          ap f e ∙ zeros (suc k) (λ same. other (omega arith)) (omega (arith, e))) in
    let here : f at ≡ 0 = ap f (omega arith) ∙ zeros 0 (omega arith) (omega (arith, shift)) in
    rw (lt→ltb at last (omega (arith, shift))) (omega (arith, here, rest, ap f shift))

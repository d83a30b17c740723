-- ===== src/Sweep/Schedule.antt =====
-- The sweep loop of `main` (custom-test/test2-rdma-fin.c) ends and runs the powers of two between
-- `sweep_min` and `sweep_max`, in order.
use native.Mathlib.Nat.{pow-suc}
use mio_xcena.Base.{
  ℕ, zero, suc, ◌*◌, ◌<◌, ◌≤◌, ◌^◌, ◌≡◌, refl, ◌&&◌, leb, if◌then◌else◌, some, List, [], ◌∷◌, u32,
  arith, sym, ◌∙◌,
}
use mio_xcena.Sweep.{active_counts}

-- `n` numbers from `p` on, each twice the one before.
abbrev pub doublings : ℕ → ℕ → List ℕ
doublings zero p = []
doublings (suc n) p = p ∷ doublings n (p * 2)

abbrev pub between : ℕ → ℕ → List ℕ → List ℕ
between lo hi [] = []
between lo hi (p ∷ ps) = if leb lo p && leb p hi then p ∷ between lo hi ps else between lo hi ps

between-above : (lo hi n p : ℕ) → hi < p → between lo hi (doublings n p) ≡ []
between-above lo hi zero p h = refl
between-above lo hi (suc n) p h = ground (arith, between-above lo hi n (p * 2))

pow-ge : (n : ℕ) → 1 ≤ 2 ^ n
pow-ge zero = omega arith
pow-ge (suc n) = omega (arith, pow-ge n, pow-suc 2 n)

pow_step : (p n : ℕ) → p * 2 ^ suc n ≡ p * 2 * 2 ^ n
pow_step p n = rw (pow-suc 2 n) (omega arith)

mul_ge : (a b : ℕ) → 1 ≤ b → a ≤ a * b
mul_ge a b pos = grind arith

-- The loop at `p`, with `n` more doublings below 2 ^ 32.
counts-from :
    (n fuel lo hi p : ℕ)
    → n < fuel
    → 1 ≤ p
    → p * 2 ^ suc n ≡ 2 ^ 32
    → active_counts fuel lo hi p ≡ some (between lo hi (doublings (suc n) p))
unfolding active_counts
counts-from n zero lo hi p f pos e = absurd (omega arith)
counts-from zero (suc fuel) lo hi p f pos e =
    let top : p ≡ 2 ^ 31 = omega (arith, pow_step p 0) in ground arith
counts-from (suc n) (suc fuel) lo hi p f pos e =
    let e' : p * 2 * 2 ^ suc n ≡ 2 ^ 32 = sym (pow_step p (suc n)) ∙ e in
    let small : p * 2 ≤ 2 ^ 31 =
      omega (arith, e', pow_step (p * 2) n, mul_ge (p * 2 * 2) (2 ^ n) (pow-ge n)) in
    let exact : u32 (p * 2) ≡ p * 2 = omega arith in
    let rest = counts-from n fuel lo hi (p * 2) (omega arith) (omega arith) e' in
    let next : active_counts fuel lo hi (u32 (p * 2))
        ≡ some (between lo hi (doublings (suc n) (p * 2))) =
      rw exact rest in
    ground (arith, next, between-above lo hi (suc n) (p * 2))

-- The sweep loop ends, and runs exactly the powers of two below 2 ^ 32 that lie between `lo` and `hi`,
-- in increasing order; 32 rounds are enough.
pub active_counts_lem :
    (fuel lo hi : ℕ)
    → 32 ≤ fuel
    → active_counts fuel lo hi 1 ≡ some (between lo hi (doublings 32 1))
active_counts_lem fuel lo hi enough = counts-from 31 fuel lo hi 1 (omega arith) (omega arith) refl

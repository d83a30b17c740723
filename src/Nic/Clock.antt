-- ===== src/Nic/Clock.antt =====
-- The type `double` as custom-test/test2-rdma-fin.c uses it for times in nanoseconds: its operations,
-- and laws that they have where no operand is a NaN.
use mio_xcena.Base.{ℕ, ◌<◌, ◌≡◌, Bool, true, false}

pub record Time : Type 1 where
  pub T : Type 0
  pub zero : T
  pub of_nat : ℕ → T
  pub add : T → T → T
  pub sub : T → T → T
  pub mul : T → T → T
  pub div : T → T → T
  pub ltb : T → T → Bool
  pub eqb : T → T → Bool
  pub ltb_irrefl : (a : T) → ltb a a ≡ false
  pub ltb_asym : (a b : T) → ltb a b ≡ true → ltb b a ≡ false
  pub le_trans : (a b c : T) → ltb b a ≡ false → ltb c b ≡ false → ltb c a ≡ false
  pub eqb-le : (a b : T) → eqb a b ≡ true → ltb b a ≡ false
  pub of_nat-nonneg : (n : ℕ) → ltb (of_nat n) zero ≡ false
  pub mul-nonneg : (a b : T) → ltb a zero ≡ false → ltb b zero ≡ false → ltb (mul a b) zero ≡ false
  pub div-nonneg : (a b : T) → ltb a zero ≡ false → ltb b zero ≡ false → ltb (div a b) zero ≡ false
  pub sub-nonneg : (a b : T) → ltb a b ≡ false → ltb (sub a b) zero ≡ false
  pub add-le : (a b : T) → ltb b zero ≡ false → ltb (add a b) a ≡ false
  pub add-mono_right : (a b c : T) → ltb c b ≡ false → ltb (add a c) (add a b) ≡ false
  pub add-mono_left : (a b c : T) → ltb b a ≡ false → ltb (add b c) (add a c) ≡ false
  pub mul-window : (n : ℕ) (a : T) → 0 < n → ltb a zero ≡ false → ltb (mul (of_nat n) a) a ≡ false

-- `a` is at most `b`.
abbrev pub AtMost : (D : Time) → D.T → D.T → Type 0
AtMost D a b = D.ltb b a ≡ false

-- ===== src/Args/Sizes.antt =====
-- The size arguments of custom-test/test2-rdma-fin.c: `parse_size`, `parse_u32_arg` and
-- `checked_mul_u64` never wrap.
use mio_xcena.Base.{
  ℕ, ◌*◌, ◌/◌, ◌<◌, ◌≤◌, ◌^◌, ◌≡◌, refl, ◌==◌, ltb, if◌then◌else◌, Option, none, some, List, [],
  ◌∷◌, arith, drop, uint64_max,
}
use mio_xcena.Args.{Strtoull, parse_suffix, parse_size, parse_u32_arg, checked_mul_u64}

-- The unit that a suffix stands for.
abbrev pub unit_of : List ℕ → Option ℕ
unit_of [] = some 1
unit_of (c ∷ []) =
    if c == b'k'
    then some (2 ^ 10)
    else if c == b'K'
    then some (2 ^ 10)
    else if c == b'm'
    then some (2 ^ 20)
    else if c == b'M'
    then some (2 ^ 20)
    else if c == b'g'
    then some (2 ^ 30)
    else if c == b'G'
    then some (2 ^ 30)
    else none
unit_of (c ∷ d ∷ cs) = none

-- The value in that unit, if it fits 64 bits.
abbrev pub in_unit : ℕ → Option ℕ → Option ℕ
in_unit v none = none
in_unit v (some unit) = if ltb (v * unit) (2 ^ 64) then some (v * unit) else none

parse_suffix-eq : (v : ℕ) (s : List ℕ) → v < 2 ^ 64 → parse_suffix v s ≡ in_unit v (unit_of s)
unfolding parse_suffix
parse_suffix-eq v [] small = ground arith
parse_suffix-eq v (c ∷ []) small = ground arith
parse_suffix-eq v (c ∷ d ∷ cs) small = refl

-- What the code relies on: `strtoull` answers with an `unsigned long long`.
abbrev pub ReturnsU64 : Strtoull → Type 0
ReturnsU64 strtoull = (s : List ℕ) → (strtoull s).value < 2 ^ 64

module _ (strtoull : Strtoull) (u64_value : ReturnsU64 strtoull) where
  -- `parse_size` gives the converted number in the unit of its suffix, as an exact product, whenever
  -- the conversion succeeds, the suffix is known and the product fits 64 bits; otherwise it fails.
  pub parse_size_lem :
      (s : List ℕ)
      → let c = strtoull s in
        parse_size strtoull s ≡ (
          if c.failed
          then none
          else if c.used == 0
          then none
          else in_unit c.value (unit_of (drop c.used s)))
  unfolding parse_size
  parse_size_lem s =
      let c = strtoull s in ground (arith, parse_suffix-eq c.value (drop c.used s) (u64_value s))

  -- What `parse_u32_arg` stores is the size that was parsed, between 1 and UINT32_MAX.
  pub parse_u32_arg_bounds :
      (s : List ℕ) (v : ℕ)
      → parse_u32_arg strtoull s ≡ some v
      → (parse_size strtoull s ≡ some v) × (1 ≤ v) × (v < 2 ^ 32)
  unfolding parse_u32_arg
  parse_u32_arg_bounds s v e = ground arith

-- The guard by a division finds exactly the products that are too large.
div_guard : (a b m : ℕ) → 0 < a → m / a < b → m < a * b
div_guard a b m pos h = grind arith

fits : (a b m : ℕ) → b ≤ m / a → a * b ≤ m
fits a b m h = grind arith

-- `checked_mul_u64` gives the exact product when it fits 64 bits, and fails when it does not.
pub checked_mul_u64_lem :
    (a b : ℕ) → checked_mul_u64 a b ≡ (if ltb (a * b) (2 ^ 64) then some (a * b) else none)
unfolding checked_mul_u64
checked_mul_u64_lem a b = ground (arith, div_guard a b uint64_max, fits a b uint64_max)

pub checked_mul_u64-some :
    (a b : ℕ) {v : ℕ} → checked_mul_u64 a b ≡ some v → (v ≡ a * b) × (v < 2 ^ 64)
checked_mul_u64-some a b e = ground (arith, checked_mul_u64_lem a b)

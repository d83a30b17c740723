-- ===== src/Base/Ints.antt =====
-- `int` and `long`, and their conversions to `size_t` and `int`.
use Prim.Native.Nat.{ℕ, ◌-◌, ◌%◌, ◌^◌}
use mathlib.Core.Bool.{Bool, true, false}
use mio_xcena.Base.Tests.{◌==◌, ltb, if◌then◌else◌}
use mio_xcena.Base.Words.{u64, u32}

-- `negsuc k` is -(k + 1).
pub data ℤ : Type 0 where
  pos negsuc : ℕ → ℤ

abbrev pub is_negative : ℤ → Bool
is_negative (pos n) = false
is_negative (negsuc k) = true

-- `n <= 0`.
abbrev pub is_not_positive : ℤ → Bool
is_not_positive (pos n) = n == 0
is_not_positive (negsuc k) = true

-- The conversion of a negative number goes round modulo 2 ^ 64.
abbrev pub to_size : ℤ → ℕ
to_size (pos n) = u64 n
to_size (negsuc k) = u64 (2 ^ 64 - 1 - k % 2 ^ 64)

-- The conversion of `n` to a 32-bit `int`.
abbrev pub to_int : ℕ → ℤ
to_int n = if ltb (u32 n) (2 ^ 31) then pos (u32 n) else negsuc (2 ^ 32 - 1 - u32 n)

abbrev pub lt_int : ℤ → ℤ → Bool
lt_int (pos m) (pos n) = ltb m n
lt_int (pos m) (negsuc k) = false
lt_int (negsuc j) (pos n) = true
lt_int (negsuc j) (negsuc k) = ltb k j

-- ===== src/Base/Int.antt =====
-- Signed integers, and the bounds of 64-bit unsigned numbers.
use Prim.Native.Nat.{ℕ, ◌%◌}

-- `negsuc n` is -(n + 1).
pub data ℤ : Type 0 where
  pos : ℕ → ℤ
  negsuc : ℕ → ℤ

abbrev pub u64_max : ℕ
u64_max = 18446744073709551615

abbrev pub u64 : ℕ → ℕ
u64 n = n % 18446744073709551616

-- ===== src/Prelude/Words.antt =====
-- Unsigned 64-bit arithmetic as Rust has it: wrapping, saturating and truncating.
use Prim.Native.Nat.{ℕ, ◌+◌, ◌*◌, ◌%◌, min}

-- 2 ^ 64.
abbrev pub u64_mod : ℕ
u64_mod = 18446744073709551616

-- u64::MAX.
abbrev pub u64_max : ℕ
u64_max = 18446744073709551615

-- `x as u64`, and the wrap-around of an operation.
abbrev pub u64 : ℕ → ℕ
u64 n = n % u64_mod

-- saturating_add and saturating_mul.
abbrev pub sat_add : ℕ → ℕ → ℕ
sat_add a b = min (a + b) u64_max

abbrev pub sat_mul : ℕ → ℕ → ℕ
sat_mul a b = min (a * b) u64_max

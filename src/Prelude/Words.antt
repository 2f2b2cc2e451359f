-- ===== src/Prelude/Words.antt =====
-- The saturating operations of Rust's `u32` and `u64`. A value is a number; that it is in range is
-- a hypothesis or an invariant where it matters.
use Prim.Native.Nat.{ℕ, ◌+◌, ◌*◌, ◌^◌, ◌%◌, min}

abbrev pub u32_max : ℕ
u32_max = 4294967295

abbrev pub u64_max : ℕ
u64_max = 18446744073709551615

-- `a.saturating_add(b)`, `a.saturating_mul(b)` and `a.saturating_pow(b)` at the maximum `m`.
abbrev pub saturating_add : ℕ → ℕ → ℕ → ℕ
saturating_add m a b = min (a + b) m

abbrev pub saturating_mul : ℕ → ℕ → ℕ → ℕ
saturating_mul m a b = min (a * b) m

abbrev pub saturating_pow : ℕ → ℕ → ℕ → ℕ
saturating_pow m a b = min (a ^ b) m

-- `isize::MAX` on a 64-bit machine.
abbrev pub isize_max : ℕ
isize_max = 9223372036854775807

-- `a.wrapping_add(1)` of a `u64`.
abbrev pub wrapping_suc : ℕ → ℕ
wrapping_suc a = (a + 1) % 18446744073709551616

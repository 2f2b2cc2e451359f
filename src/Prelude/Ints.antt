-- ===== src/Prelude/Ints.antt =====
-- Integers over native numbers: `negsuc n` is `-(n + 1)`.
use Prim.Native.Nat.{ℕ}

pub data ℤ : Type 0 where
  pos negsuc : (n : ℕ) → ℤ

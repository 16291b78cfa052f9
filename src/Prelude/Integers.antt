-- ===== src/Prelude/Integers.antt =====
-- The signed numbers that callers may pass where the tables hold none below zero.
use Prim.Native.Nat.{ℕ}

-- `negsuc n` is -(n + 1).
pub data ℤ : Type 0 where
  pos : ℕ → ℤ
  negsuc : ℕ → ℤ

-- ===== src/Prelude/Int.antt =====
-- Python's `int`, where the program compares one with 0.
use Prim.Native.Nat.{ℕ}

-- `negsuc n` is -(n + 1).
pub data ℤ : Type 0 where
  pos : ℕ → ℤ
  negsuc : ℕ → ℤ

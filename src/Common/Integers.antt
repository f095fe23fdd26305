-- ===== src/Common/Integers.antt =====
-- Numbers that may be negative, over the native naturals: `negsuc n` is -(n + 1).
use Prim.Native.Nat.{ℕ}

pub data ℤ : Type 0 where
  pos negsuc : ℕ → ℤ

-- ===== src/Base/Int.antt =====
-- The C type `int`, as an integer.
use Prim.Native.Nat.{ℕ}

pub data ℤ : Type 0 where
  pos negsuc : ℕ → ℤ

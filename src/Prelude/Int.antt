-- ===== src/Prelude/Int.antt =====
-- Signed amounts: only their sign and their size are read.
use Prim.Native.Nat.{ℕ}

-- `negsuc n` is -(n + 1)
pub data ℤ : Type 0 where
  pos : ℕ → ℤ
  negsuc : ℕ → ℤ

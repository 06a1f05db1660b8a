-- ===== src/Common/Integers.antt =====
-- Python integers where the source lets them be negative.
use Prim.Native.Nat.{ℕ}

-- `negsuc n` is -(n + 1).
pub data ℤ : Type 0 where
  pos : ℕ → ℤ
  negsuc : ℕ → ℤ

-- `max(0, x)`
abbrev pub nonneg : ℤ → ℕ
nonneg (pos n) = n
nonneg (negsuc n) = 0

-- ===== src/Common/Int.antt =====
-- The numbers of type `int`.
use Prim.Native.Nat.{ℕ, suc}

-- `negsuc n` is the number -(n + 1).
pub data ℤ : Type 0 where
  pos negsuc : ℕ → ℤ

abbrev pub magnitude : ℤ → ℕ
magnitude (pos n) = n
magnitude (negsuc n) = suc n

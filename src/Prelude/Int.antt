-- ===== src/Prelude/Int.antt =====
-- Signed integers, for the numbers that a caller may give below zero. `negsuc n` is -(n + 1).
use Prim.Native.Nat.{ℕ}

pub data ℤ : Type 0 where
  pos : ℕ → ℤ
  negsuc : ℕ → ℤ

-- max(m, z) for a bound m that is not negative
abbrev pub clamp_below : ℕ → ℤ → ℕ
clamp_below m (pos n) = Prim.Native.Nat.max m n
clamp_below m (negsuc n) = m

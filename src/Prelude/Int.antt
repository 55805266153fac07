-- ===== src/Prelude/Int.antt =====
-- Go's int64 values: `negsuc n` is -(n + 1).
use Prim.Native.Nat.{ℕ, zero, suc}
use mathlib.Core.Bool.{Bool, true, false}

pub data ℤ : Type 0 where
  pos : ℕ → ℤ
  negsuc : ℕ → ℤ

-- i > 0
abbrev pub is_pos : ℤ → Bool
is_pos (pos zero) = false
is_pos (pos (suc _)) = true
is_pos (negsuc _) = false

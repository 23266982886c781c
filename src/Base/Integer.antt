-- ===== src/Base/Integer.antt =====
-- Signed numbers, as an int32_t that is a status or a result of `sscanf`.
use Prim.Native.Nat.{ℕ}
use mathlib.Core.Bool.{Bool, true, false}
use nvol.Base.Tests.{◌==◌}

-- `negsuc n` is the number - (n + 1).
pub data ℤ : Type 0 where
  pos negsuc : ℕ → ℤ

-- `x < 0`
unfoldable pub is_negative : ℤ → Bool
is_negative (pos n) = false
is_negative (negsuc n) = true

infix 50 ◌==ℤ◌
unfoldable pub ◌==ℤ◌ : ℤ → ℤ → Bool
pos n ==ℤ pos m = n == m
negsuc n ==ℤ negsuc m = n == m
pos n ==ℤ negsuc m = false
negsuc n ==ℤ pos m = false

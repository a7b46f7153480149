-- ===== src/Common/Int.antt =====
-- Integers over the native numbers, and the texts that `int` reads.
use Prim.Native.Nat.{ℕ, zero, suc}
use mathlib.Core.Bool.{Bool, true}
use dyod_ws1718_sprint.Common.Tests.{ltb}

-- `negsuc n` is -(n + 1).
pub data ℤ : Type 0 where
  pos : ℕ → ℤ
  negsuc : ℕ → ℤ

unfoldable pub negate : ℕ → ℤ
negate zero = pos 0
negate (suc n) = negsuc n

-- A natural number is above an integer.
unfoldable pub is_above : ℕ → ℤ → Bool
is_above n (pos k) = ltb k n
is_above n (negsuc k) = true

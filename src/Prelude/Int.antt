-- ===== src/Prelude/Int.antt =====
-- Signed integers over the native numbers, under the library's names (its ℤ stands on the unary ℕ).
-- They are the raw inputs of the program: a checked value goes on as a natural number.
use Prim.Native.Nat.{ℕ}
use mathlib.Core.Option.{Option, none, some}

-- `negsuc n` is -(n + 1).
pub data ℤ : Type 0 where
  pos : ℕ → ℤ
  negsuc : ℕ → ℤ

-- The value of an integer that is not negative.
abbrev pub to_ℕ? : ℤ → Option ℕ
to_ℕ? (pos n) = some n
to_ℕ? (negsuc n) = none

-- ===== src/Base/Numbers.antt =====
-- Python's `int` where it may be negative, and what the code does with a `float`.
use Prim.Native.Nat.{ℕ}
use mathlib.Core.Bool.{Bool}
use mathlib.Core.List.{List}

-- `negsuc n` is -(n + 1).
pub data ℤ : Type 0 where
  pos : ℕ → ℤ
  negsuc : ℕ → ℤ

-- A float is a value of an abstract type, with what the code does with floats: 0.0, `+`, `>=`, `>`,
-- `sum(xs) / len(xs)` of a list that is not empty, `a / b` of two ints where b is not 0, and `int((end - start).total_seconds() * 1000)` of
-- two readings of the clock.
pub record Float (F : Type 0) : Type 0 where
  pub nought : F
  pub add : F → F → F
  pub ge : F → F → Bool
  pub gt : F → F → Bool
  pub mean : List F → F
  pub ratio : ℕ → ℕ → F
  pub millis : ℕ → ℕ → ℤ

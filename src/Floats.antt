-- ===== src/Floats.antt =====
-- The floating-point numbers of the program, which this development does not define: a type with
-- the operations that the program applies to them. The values come from JSON, so they are finite.
pub mod Micros
use scribeflow.Prelude.{ℕ, Bool}
use scribeflow.Prelude.Int.{ℤ}

pub record Floats : Type 1 where
  pub Number : Type 0
  -- a numeral of the source
  pub of_ℕ : ℕ → Number
  -- `a * b`
  pub times : Number → Number → Number
  -- `Math.round(a)` and `Math.floor(a)`, at a finite number
  pub round : Number → ℤ
  pub floor : Number → ℤ
  -- `a` as a condition: false at 0 only
  pub truthy : Number → Bool

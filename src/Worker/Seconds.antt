-- ===== src/Worker/Seconds.antt =====
-- The floating-point numbers of the worker as an argument: Python's operations on them, and what the
-- planning of chunks relies on. Whole numbers are exact below 2 ^ 53.
pub mod Micros
use scribeflow.Prelude.{ℕ, ◌+◌, ◌≤◌, ◌<◌, ◌≡◌, Bool, true, false, ltb, if◌then◌else◌}

abbrev pub exact_below : ℕ
exact_below = 9007199254740992

pub record Seconds : Type 1 where
  pub Number : Type 0
  -- a whole number
  pub of_ℕ : ℕ → Number
  -- `a < b`
  pub lt : Number → Number → Bool
  pub plus : Number → Number → Number
  pub minus : Number → Number → Number
  pub divide : Number → Number → Number
  -- `round(a, 2)`
  pub round_2 : Number → Number
  -- the least natural number that is not below `a`
  pub ceil : Number → ℕ
  pub lt-of_ℕ : (n : ℕ) (a : Number) → n < exact_below → lt (of_ℕ n) a ≡ ltb n (ceil a)
  pub ceil_le : (n : ℕ) (a : Number) → n < exact_below → lt a (of_ℕ n) ≡ true → ceil a ≤ n
  -- rounding keeps the order: where `a` is not below m + n, `a - m` is not below n
  pub minus_fits :
      (m n : ℕ) (a : Number)
      → m + n < exact_below
      → lt a (of_ℕ (m + n)) ≡ false
      → lt (minus a (of_ℕ m)) (of_ℕ n) ≡ false

-- Python's `min(a, b)`.
abbrev pub min_of : (P : Seconds) → P.Number → P.Number → P.Number
min_of P a b = if P.lt b a then b else a

-- ===== src/Worker/Seconds/Micros.antt =====
-- Millionths, at which the theorems of the worker are tried.
use scribeflow.Prelude.{ℕ, ◌+◌, ◌-◌, ◌*◌, ◌/◌, ◌≤◌, ◌<◌, ◌≡◌, true, false, ltb, arith}
use scribeflow.Worker.Seconds.{Seconds, exact_below}

pub lt-of_ℕ : (n a : ℕ) → n < exact_below → ltb (n * 1000000) a ≡ ltb n ((a + 999999) / 1000000)
lt-of_ℕ n a h = ground arith

pub ceil_le : (n a : ℕ) → n < exact_below → ltb a (n * 1000000) ≡ true → (a + 999999) / 1000000 ≤ n
ceil_le n a h e = ground arith

pub minus_fits :
    (m n a : ℕ)
    → m + n < exact_below
    → ltb a ((m + n) * 1000000) ≡ false
    → ltb (a - m * 1000000) (n * 1000000) ≡ false
minus_fits m n a h e = ground arith

abbrev pub seconds : Seconds
seconds = record {
  Number = ℕ;
  of_ℕ = λ n. n * 1000000;
  lt = ltb;
  plus = λ a b. a + b;
  minus = λ a b. a - b;
  divide = λ a b. a * 1000000 / b;
  round_2 = λ a. (a + 5000) / 10000 * 10000;
  ceil = λ a. (a + 999999) / 1000000;
  lt-of_ℕ = lt-of_ℕ;
  ceil_le = ceil_le;
  minus_fits = minus_fits;
}

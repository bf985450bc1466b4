-- ===== src/Floats/Micros.antt =====
-- Numbers with six decimals, as a value of `Floats` at which the theorems are tried.
use scribeflow.Prelude.{ℕ, ◌+◌, ◌*◌, ◌/◌, not, ◌==◌}
use scribeflow.Prelude.Int.{pos}
use scribeflow.Floats.{Floats}

abbrev pub micros : Floats
micros = record {
  Number = ℕ;
  of_ℕ = λ n. n * 1000000;
  times = λ a b. a * b / 1000000;
  round = λ a. pos ((a + 500000) / 1000000);
  floor = λ a. pos (a / 1000000);
  truthy = λ a. not (a == 0);
}

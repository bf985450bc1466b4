-- ===== src/Worker/Progress.antt =====
-- `make_progress_reporter` of worker/main.py: which of the fractions that the pipeline passes to it are
-- written to the table. The step is a float near 0.1; `is_step last fraction` is the comparison
-- `fraction - last >= PROGRESS_REPORT_STEP`.
pub mod Writes
use scribeflow.Prelude.{Bool, List, [], ◌∷◌, map, if◌then◌else◌}
use scribeflow.Worker.Seconds.{Seconds}

module _ (P : Seconds) (is_step : P.Number → P.Number → Bool) where
  open P use {Number, of_ℕ, round_2}

  -- The fractions that pass the throttle after the one that was reported last.
  unfoldable pub throttled : Number → List Number → List Number
  throttled last [] = []
  throttled last (fraction ∷ fractions) =
      let reported = fraction ∷ throttled fraction fractions in
      let skipped = throttled last fractions in if is_step last fraction then reported else skipped

  -- What is written, for a new reporter.
  unfoldable pub reported : List Number → List Number
  unfolding throttled
  reported fractions = map round_2 (throttled (of_ℕ 0) fractions)

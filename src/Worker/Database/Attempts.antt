-- ===== src/Worker/Database/Attempts.antt =====
-- The column of attempts under the updates.
use scribeflow.Prelude.{ℕ, ◌+◌, ◌≡◌, refl, Option, arith, inl, inr, Option-cases}
use mathlib.Core.Option
use scribeflow.Text.{Text}
use scribeflow.Text.Equality.{text_eq_refl}
use scribeflow.Jobs.{JobStatus, Job}
use scribeflow.Store.{JobStore}
use scribeflow.Worker.Database.{
  update, mark_processing, as_processing, with_progress, update_progress, record_retry, as_queued,
  fail, as_failed,
}
use scribeflow.Worker.Database.Lookup.{find_one_by-update, find_one_by-update_progress}

module _ {Number : Type 0} (S : JobStore Number) where
  open S use {Rows, find_one_by}

  unfoldable pub get_attempts : Text → Rows → Option ℕ
  get_attempts id rows = Option.map (λ job. job.attempts) (find_one_by id rows)

  get_attempts-update :
      (id : Text) (more : ℕ) (change : Job Number → Job Number) (rows : Rows)
      → ((job : Job Number) → (change job).id ≡ job.id)
      → ((job : Job Number) → (change job).attempts ≡ job.attempts + more)
      → get_attempts id (update S id change rows)
        ≡ Option.map (λ a. a + more) (get_attempts id rows)
  unfolding get_attempts
  get_attempts-update id more change rows keeps counts = elim (Option-cases (find_one_by id rows)) [
    | inl e ↦ ground (arith, e, find_one_by-update S id id change rows keeps, text_eq_refl id)
    | inr (job, e) ↦
        ground (arith, e, find_one_by-update S id id change rows keeps, text_eq_refl id, counts job)
  ]

  pub get_attempts-mark_processing :
      (zero : Number) (now : ℕ) (id : Text) (rows : Rows)
      → get_attempts id (mark_processing S zero now id rows)
        ≡ Option.map (λ a. a + 1) (get_attempts id rows)
  unfolding mark_processing
  get_attempts-mark_processing zero now id rows =
      get_attempts-update id 1 (as_processing S zero now) rows (λ job. refl) (λ job. refl)

  pub get_attempts-record_retry :
      (now : ℕ) (id error : Text) (rows : Rows)
      → get_attempts id (record_retry S now id error rows)
        ≡ Option.map (λ a. a + 0) (get_attempts id rows)
  unfolding record_retry
  get_attempts-record_retry now id error rows =
      get_attempts-update id 0 (as_queued S now error) rows (λ job. refl) (λ job. omega arith)

  pub get_attempts-fail :
      (now : ℕ) (id error : Text) (rows : Rows)
      → get_attempts id (fail S now id error rows) ≡ Option.map (λ a. a + 0) (get_attempts id rows)
  unfolding fail
  get_attempts-fail now id error rows =
      get_attempts-update id 0 (as_failed S now error) rows (λ job. refl) (λ job. omega arith)

  with_progress-attempts :
      (now : ℕ) (progress : Number) (status : JobStatus) (job : Job Number)
      → (with_progress S now progress status job).attempts ≡ job.attempts
  with_progress-attempts now progress status job = ground arith

  pub get_attempts-update_progress :
      (now : ℕ) (id : Text) (progress : Number) (rows : Rows)
      → get_attempts id (update_progress S now id progress rows) ≡ get_attempts id rows
  unfolding get_attempts
  get_attempts-update_progress now id progress rows = elim (Option-cases (find_one_by id rows)) [
    | inl e ↦
        ground (arith, e, find_one_by-update_progress S id id now progress rows, text_eq_refl id)
    | inr (job, e) ↦ ground (
      arith,
      e,
      find_one_by-update_progress S id id now progress rows,
      text_eq_refl id,
      with_progress-attempts now progress job.status job,
    )
  ]

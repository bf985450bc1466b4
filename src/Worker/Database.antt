-- ===== src/Worker/Database.antt =====
-- worker/db.py, over the table of `Store`: an UPDATE changes the row with the id, if there is one,
-- and leaves the others. `now` is the time of the database.
pub mod Lookup
pub mod Attempts
use scribeflow.Prelude.{ℕ, ◌+◌, Option, none, some}
use mathlib.Core.Option
use scribeflow.Text.{Text}
use scribeflow.Jobs.{JobStatus, queued, processing, completed, failed, Transcript, Job}
use scribeflow.Store.{JobStore}

module _ {Number : Type 0} (S : JobStore Number) where
  open S use {Rows, find_one_by, save}

  -- `UPDATE jobs SET … WHERE id = $1`
  unfoldable pub update : Text → (Job Number → Job Number) → Rows → Rows
  update id change rows = elim (find_one_by id rows) [
    | none ↦ rows
    | some job ↦ save (change job) rows
  ]

  unfoldable pub get_status : Text → Rows → Option JobStatus
  get_status id rows = Option.map (λ job. job.status) (find_one_by id rows)

  abbrev pub as_processing : Number → ℕ → Job Number → Job Number
  as_processing zero now job = record job {
    status = processing;
    attempts = job.attempts + 1;
    progress = zero;
    updated_at = now;
  }

  unfoldable pub mark_processing : Number → ℕ → Text → Rows → Rows
  mark_processing zero now id rows = update id (as_processing zero now) rows

  -- `AND status = 'processing'`
  abbrev pub with_progress : ℕ → Number → JobStatus → Job Number → Job Number
  with_progress now progress processing job = record job { progress = progress; updated_at = now }
  with_progress now progress _ job = job

  unfoldable pub update_progress : ℕ → Text → Number → Rows → Rows
  update_progress now id progress rows =
      update id (λ job. with_progress now progress job.status job) rows

  abbrev pub as_completed : Number → ℕ → Transcript Number → Job Number → Job Number
  as_completed one now transcript job = record job {
    status = completed;
    transcript = some transcript;
    language = some transcript.language;
    duration_sec = some transcript.duration;
    progress = one;
    error = none;
    updated_at = now;
  }

  unfoldable pub complete : Number → ℕ → Text → Transcript Number → Rows → Rows
  complete one now id transcript rows = update id (as_completed one now transcript) rows

  abbrev pub as_queued : ℕ → Text → Job Number → Job Number
  as_queued now error job = record job { status = queued; error = some error; updated_at = now }

  unfoldable pub record_retry : ℕ → Text → Text → Rows → Rows
  record_retry now id error rows = update id (as_queued now error) rows

  abbrev pub as_failed : ℕ → Text → Job Number → Job Number
  as_failed now error job = record job { status = failed; error = some error; updated_at = now }

  unfoldable pub fail : ℕ → Text → Text → Rows → Rows
  fail now id error rows = update id (as_failed now error) rows

-- ===== src/Worker/Database/Lookup.antt =====
-- What the updates of one row do to each lookup.
use scribeflow.Prelude.{ℕ, ◌≡◌, refl, ap, ◌∙◌, none, arith, inl, inr, Option-cases, if◌then◌else◌}
use mathlib.Core.Option
use scribeflow.Text.{Text, text_eq}
use scribeflow.Text.Equality.{text_eq_iff}
use scribeflow.Jobs.{JobStatus, queued, processing, completed, failed, Transcript, Job}
use scribeflow.Store.{JobStore}
use scribeflow.Worker.Database.{
  update, get_status, mark_processing, as_processing, with_progress, update_progress, complete,
  as_completed, record_retry, as_queued, fail, as_failed,
}

module _ {Number : Type 0} (S : JobStore Number) where
  open S use {Rows, find_one_by, save}

  -- A change that keeps the id changes the row of that id and no other.
  pub find_one_by-update :
      (id other : Text) (change : Job Number → Job Number) (rows : Rows)
      → ((job : Job Number) → (change job).id ≡ job.id)
      → find_one_by other (update S id change rows) ≡ (
          if text_eq id other
          then Option.map change (find_one_by other rows)
          else find_one_by other rows)
  unfolding update
  find_one_by-update id other change rows keeps = elim (Option-cases (find_one_by id rows)) [
    | inl e ↦ rw (e, update) (ground (arith, e, text_eq_iff id other))
    | inr (job, e) ↦
        let same : (change job).id ≡ id = keeps job ∙ S.find_one_by-id id rows job e in
        rw (e, update)
          (ground
            (arith, e, same, S.find_one_by-save other (change job) rows, text_eq_iff id other))
  ]

  with_progress-id :
      (now : ℕ) (progress : Number) (status : JobStatus) (job : Job Number)
      → (with_progress S now progress status job).id ≡ job.id
  with_progress-id now progress status job = ground arith

  with_progress-status :
      (now : ℕ) (progress : Number) (status : JobStatus) (job : Job Number)
      → (with_progress S now progress status job).status ≡ job.status
  with_progress-status now progress status job = ground arith

  pub find_one_by-update_progress :
      (id other : Text) (now : ℕ) (progress : Number) (rows : Rows)
      → find_one_by other (update_progress S now id progress rows) ≡ (
          if text_eq id other
          then Option.map
              (λ job. with_progress S now progress job.status job)
              (find_one_by other rows)
          else find_one_by other rows)
  unfolding update_progress
  find_one_by-update_progress id other now progress rows =
      find_one_by-update id other (λ job. with_progress S now progress job.status job) rows
        (λ job. with_progress-id now progress job.status job)

  -- An update that sets the status sets it where the id has a row.
  get_status-update :
      (id other : Text) (status : JobStatus) (change : Job Number → Job Number) (rows : Rows)
      → ((job : Job Number) → (change job).id ≡ job.id)
      → ((job : Job Number) → (change job).status ≡ status)
      → get_status S other (update S id change rows) ≡ (
          if text_eq id other
          then Option.map (λ s. status) (get_status S other rows)
          else get_status S other rows)
  unfolding get_status
  get_status-update id other status change rows keeps sets =
      elim (Option-cases (find_one_by other rows)) [
        | inl e ↦ ground (arith, e, find_one_by-update id other change rows keeps)
        | inr (job, e) ↦ ground (arith, e, find_one_by-update id other change rows keeps, sets job)
      ]

  pub get_status-mark_processing :
      (zero : Number) (now : ℕ) (id other : Text) (rows : Rows)
      → get_status S other (mark_processing S zero now id rows) ≡ (
          if text_eq id other
          then Option.map (λ s. processing) (get_status S other rows)
          else get_status S other rows)
  unfolding mark_processing
  get_status-mark_processing zero now id other rows =
      get_status-update id other processing (as_processing S zero now) rows (λ job. refl)
        (λ job. refl)

  pub get_status-complete :
      (one : Number) (now : ℕ) (id other : Text) (transcript : Transcript Number) (rows : Rows)
      → get_status S other (complete S one now id transcript rows) ≡ (
          if text_eq id other
          then Option.map (λ s. completed) (get_status S other rows)
          else get_status S other rows)
  unfolding complete
  get_status-complete one now id other transcript rows =
      get_status-update id other completed (as_completed S one now transcript) rows (λ job. refl)
        (λ job. refl)

  pub get_status-record_retry :
      (now : ℕ) (id other error : Text) (rows : Rows)
      → get_status S other (record_retry S now id error rows) ≡ (
          if text_eq id other
          then Option.map (λ s. queued) (get_status S other rows)
          else get_status S other rows)
  unfolding record_retry
  get_status-record_retry now id other error rows =
      get_status-update id other queued (as_queued S now error) rows (λ job. refl) (λ job. refl)

  pub get_status-fail :
      (now : ℕ) (id other error : Text) (rows : Rows)
      → get_status S other (fail S now id error rows) ≡ (
          if text_eq id other
          then Option.map (λ s. failed) (get_status S other rows)
          else get_status S other rows)
  unfolding fail
  get_status-fail now id other error rows =
      get_status-update id other failed (as_failed S now error) rows (λ job. refl) (λ job. refl)

  -- Progress never changes a status, whenever it is written.
  pub get_status-update_progress :
      (now : ℕ) (id other : Text) (progress : Number) (rows : Rows)
      → get_status S other (update_progress S now id progress rows) ≡ get_status S other rows
  unfolding get_status
  get_status-update_progress now id other progress rows =
      elim (Option-cases (find_one_by other rows)) [
        | inl e ↦ ground (arith, e, find_one_by-update_progress id other now progress rows)
        | inr (job, e) ↦ ground (
          arith,
          e,
          find_one_by-update_progress id other now progress rows,
          with_progress-status now progress job.status job,
        )
      ]

  pub get_status-same :
      (id : Text) (rows rows' : Rows)
      → find_one_by id rows' ≡ find_one_by id rows
      → get_status S id rows' ≡ get_status S id rows
  unfolding get_status
  get_status-same id rows rows' e = ap (Option.map (λ job. job.status)) e

  pub get_status-none :
      (id : Text) (rows : Rows) → find_one_by id rows ≡ none → get_status S id rows ≡ none
  unfolding get_status
  get_status-none id rows e = rw e

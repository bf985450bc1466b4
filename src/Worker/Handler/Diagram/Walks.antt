-- ===== src/Worker/Handler/Diagram/Walks.antt =====
-- The walks along the diagram of README.md that the updates of worker/db.py make.
use scribeflow.Prelude.{ℕ, ◌≡◌, refl, ◌∙◌, List, [], ◌∷◌, some, inl, inr, arith, Option-cases}
use scribeflow.Text.{Text}
use scribeflow.Jobs.{JobStatus, queued, processing, completed, failed, Transcript, Job}
use scribeflow.Store.{JobStore}
use scribeflow.Store.Journal.{Journal, journaled}
use scribeflow.Worker.Database.{
  update, get_status, mark_processing, as_processing, update_progress, with_progress, complete,
  as_completed, record_retry, as_queued, fail, as_failed,
}
use scribeflow.Worker.Database.Lookup.{get_status-update_progress}
use scribeflow.Worker.Message.{Python}
use scribeflow.Worker.Handler.{Fates, Constants, report}

-- The arrows of the diagram between statuses.
infix 40 ◌⟶◌
pub data ◌⟶◌ : JobStatus → JobStatus → Type 0 where
  begin : queued ⟶ processing
  again : processing ⟶ processing
  finish : processing ⟶ completed
  wait : processing ⟶ queued
  give_up : processing ⟶ failed

-- The rows that are written, the last one first, are rows of the job, and the status of each is an
-- arrow from that of the row before.
pub data Walk {Number : Type 0} (id : Text) (from : JobStatus)
    : List (Job Number) → JobStatus → Type 0 where
  here : Walk id from [] from
  step :
      {rows : List (Job Number)} {s t : JobStatus} (row : Job Number)
      → Walk id from rows s
      → row.id ≡ id
      → row.status ≡ t
      → s ⟶ t
      → Walk id from (row ∷ rows) t

module _ {Number : Type 0} (S : JobStore Number) (id : Text) (from : JobStatus) where
  update-Walk :
      (change : Job Number → Job Number) (s t : JobStatus) (j : Journal S)
      → ((job : Job Number) → (change job).id ≡ job.id)
      → ((job : Job Number) → job.status ≡ s → (change job).status ≡ t)
      → s ⟶ t
      → get_status (journaled S) id j ≡ some s
      → Walk id from j.written s
      → Walk id from (update (journaled S) id change j).written t
  unfolding update get_status
  update-Walk change s t j keeps sets arrow e walk = elim (Option-cases (S.find_one_by id j.rows)) [
    | inl q ↦ absurd (ground (arith, q, e))
    | inr (job, q) ↦
        rw (q, update)
          (step (change job) walk (keeps job ∙ S.find_one_by-id id j.rows job q)
            (sets job (ground (arith, q, e))) arrow)
  ]

  pub mark_processing-Walk :
      (zero : Number) (now : ℕ) (s : JobStatus) (j : Journal S)
      → s ⟶ processing
      → get_status (journaled S) id j ≡ some s
      → Walk id from j.written s
      → Walk id from (mark_processing (journaled S) zero now id j).written processing
  unfolding mark_processing
  mark_processing-Walk zero now s j =
      update-Walk (as_processing (journaled S) zero now) s processing j (λ job. refl)
        (λ job e. refl)

  update_progress-Walk :
      (now : ℕ) (progress : Number) (j : Journal S)
      → get_status (journaled S) id j ≡ some processing
      → Walk id from j.written processing
      → Walk id from (update_progress (journaled S) now id progress j).written processing
  unfolding update_progress
  update_progress-Walk now progress j =
      update-Walk (λ job. with_progress (journaled S) now progress job.status job) processing
        processing j (λ job. ground arith) (λ job e. ground (arith, e)) again

  pub complete-Walk :
      (one : Number) (now : ℕ) (transcript : Transcript Number) (j : Journal S)
      → get_status (journaled S) id j ≡ some processing
      → Walk id from j.written processing
      → Walk id from (complete (journaled S) one now id transcript j).written completed
  unfolding complete
  complete-Walk one now transcript j =
      update-Walk (as_completed (journaled S) one now transcript) processing completed j
        (λ job. refl) (λ job e. refl) finish

  pub record_retry-Walk :
      (now : ℕ) (error : Text) (j : Journal S)
      → get_status (journaled S) id j ≡ some processing
      → Walk id from j.written processing
      → Walk id from (record_retry (journaled S) now id error j).written queued
  unfolding record_retry
  record_retry-Walk now error j =
      update-Walk (as_queued (journaled S) now error) processing queued j (λ job. refl)
        (λ job e. refl) wait

  pub fail-Walk :
      (now : ℕ) (error : Text) (j : Journal S)
      → get_status (journaled S) id j ≡ some processing
      → Walk id from j.written processing
      → Walk id from (fail (journaled S) now id error j).written failed
  unfolding fail
  fail-Walk now error j =
      update-Walk (as_failed (journaled S) now error) processing failed j (λ job. refl)
        (λ job e. refl) give_up

module _ {Number : Type 0} (S : JobStore Number) (P : Python) (K : Constants Number)
    (o : Fates Number) (id : Text) (from : JobStatus) where
  pub report-Walk :
      (reported : List Number) (j : Journal S)
      → get_status (journaled S) id j ≡ some processing
      → Walk id from j.written processing
      → Walk id from (report (journaled S) P K o id reported j).written processing
  report-Walk [] j e walk = walk
  report-Walk (p ∷ reported) j e walk =
      report-Walk reported (update_progress (journaled S) K.now id p j)
        (get_status-update_progress (journaled S) K.now id id p j ∙ e)
        (update_progress-Walk S id from K.now p j e walk)

-- ===== src/Jobs/Disclosure.antt =====
-- What a client can learn of a job.
use scribeflow.Prelude.{◌≡◌, ◌≢◌, ◌⊎◌, ◌↔◌, arith}
use scribeflow.Jobs.{completed, failed, Job, to_job_detail}

-- The jobs agree on what a summary holds; on the error if the job has failed; and on the
-- transcript if it is completed.
pub record LooksAlike {Number : Type 0} (a b : Job Number) : Type 0 where
  pub id : a.id ≡ b.id
  pub status : a.status ≡ b.status
  pub original_name : a.original_name ≡ b.original_name
  pub language : a.language ≡ b.language
  pub duration_sec : a.duration_sec ≡ b.duration_sec
  pub progress : a.progress ≡ b.progress
  pub attempts : a.attempts ≡ b.attempts
  pub created_at : a.created_at ≡ b.created_at
  pub updated_at : a.updated_at ≡ b.updated_at
  pub error : (a.status ≢ failed) ⊎ (a.error ≡ b.error)
  pub transcript : (a.status ≢ completed) ⊎ (a.transcript ≡ b.transcript)

-- Two jobs have the same detail exactly when they agree on the nine properties of a summary, on the
-- error if they have failed and on the transcript if they are completed: the path of the file, the
-- content hash, the error of a job that has not failed and the transcript of one that is not
-- completed do not show.
pub to_job_detail-eq_iff :
    {Number : Type 0} (a b : Job Number) → (to_job_detail a ≡ to_job_detail b) ↔ LooksAlike a b
unfolding to_job_detail
to_job_detail-eq_iff a b = (λ e. ground arith, λ l. ground arith)

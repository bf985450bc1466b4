-- ===== src/Controller/Listing.antt =====
-- The answers of `GET /v1/transcriptions`.
use scribeflow.Prelude.{
  ℕ, suc, true, ◌≤◌, ◌≡◌, refl, ap, List, [], ◌∷◌, map, some, length, All, All-weaken, arith,
}
use scribeflow.Floats.{Floats}
use scribeflow.Jobs.{Job, JobSummaryDto, to_job_summary}
use scribeflow.Store.{JobStore, desc, IsNewestFirst}
use scribeflow.Service.{ok, Outcomes, Platform, World, list}
use scribeflow.Controller.{list_jobs}

-- Newer summaries stand before older ones.
abbrev pub IsNewestFirstSummary : {Number : Type 0} → List (JobSummaryDto Number) → Type 0
IsNewestFirstSummary [] = Unit
IsNewestFirstSummary (a ∷ rest) =
    All (λ b. b.created_at ≤ a.created_at) rest × IsNewestFirstSummary rest

module _ {Number : Type 0} where
  length-summaries : (jobs : List (Job Number)) → length (map to_job_summary jobs) ≡ length jobs
  length-summaries [] = refl
  length-summaries (job ∷ jobs) = ap (λ n. suc n) (length-summaries jobs)

  All-summaries :
      (Q : JobSummaryDto Number → Type 0) (jobs : List (Job Number))
      → All (λ job. Q (to_job_summary job)) jobs
      → All Q (map to_job_summary jobs)
  All-summaries Q [] h = tt
  All-summaries Q (job ∷ jobs) (q, h) = (q, All-summaries Q jobs h)

  summaries-IsNewestFirst :
      (jobs : List (Job Number))
      → IsNewestFirst jobs
      → IsNewestFirstSummary (map to_job_summary jobs)
  unfolding to_job_summary
  summaries-IsNewestFirst [] h = tt
  summaries-IsNewestFirst (job ∷ jobs) (h, hs) =
      (All-summaries (λ b. b.created_at ≤ job.created_at) jobs h, summaries-IsNewestFirst jobs hs)

module _ (F : Floats) where
  open F use {Number}

  module _ (S : JobStore Number) (P : Platform Number) (o : Outcomes) (limit offset : ℕ)
      (w : World S) where
    abbrev pub IsSummaryOfRow : JobSummaryDto Number → Type 0
    IsSummaryOfRow s =
        (job : Job Number) × (S.find_one_by s.id w.rows ≡ some job) × (s ≡ to_job_summary job)

    -- If the table can be read, a list of jobs is answered with 200 and the summaries of the jobs
    -- that a query with this limit and offset finds, the newest first: at most `limit`, each of them
    -- the summary of the row that its id leads to; and nothing changes.
    pub list_jobs-eq_ok :
        o.finds ≡ true
        → (page : List (JobSummaryDto Number)) × (list_jobs F S P o limit offset w
            ≡ (ok (record { status = 200; headers = []; body = page }), w))
          × (page ≡ map to_job_summary (S.find desc limit offset w.rows))
          × (length page ≤ limit)
          × IsNewestFirstSummary page
          × All IsSummaryOfRow page
    unfolding list_jobs list to_job_summary
    list_jobs-eq_ok f =
        let jobs = S.find desc limit offset w.rows in
        (
          map to_job_summary jobs,
          rw f refl,
          refl,
          ground (arith, length-summaries jobs, S.length-find desc limit offset w.rows),
          summaries-IsNewestFirst jobs (S.find-IsNewestFirst limit offset w.rows),
          All-summaries IsSummaryOfRow jobs
              (All-weaken jobs (λ job e. (job, e, refl)) (S.find-rows desc limit offset w.rows)),
        )

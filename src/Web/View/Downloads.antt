-- ===== src/Web/View/Downloads.antt =====
-- The downloads that the page offers for a job, against what the API answers to their requests.
use scribeflow.Prelude.{◌≡◌, ◌⊎◌, refl, Bool, true, List, [], ◌∷◌, ◌++◌, Option, none, some, arith}
use scribeflow.Floats.{Floats}
use scribeflow.Text.{Text, codes}
use scribeflow.Subtitles.{SubtitleFormat, srt, vtt}
use scribeflow.Jobs.{JobDetailDto, Job, to_job_detail, to_job_summary}
use scribeflow.Store.{JobStore}
use scribeflow.Service.{Outcomes, Platform, World}
use scribeflow.Controller.{format_text, export_job}
use scribeflow.Controller.Query.{export_query, format_of}
use scribeflow.Controller.Export.{answered, export-found}
use scribeflow.Web.Page.{PageJob}
use scribeflow.Web.View.{Link, Detail, progress_bar, failure, result, nothing, card_of}

-- The property of an object that was sent as JSON: null and a missing one are both none.
abbrev pub present : {A : Type 0} → Option (Option A) → Option A
present none = none
present (some value) = value

module _ (F : Floats) where
  open F use {Number}

  -- The page's job, from the body of `GET /v1/transcriptions/:id`.
  unfoldable pub page_job : JobDetailDto Number → PageJob Number
  page_job dto = record {
    id = some dto.summary.id;
    status = some dto.summary.status;
    original_name = some dto.summary.original_name;
    progress = some dto.summary.progress;
    duration_sec = dto.summary.duration_sec;
    language = dto.summary.language;
    error = present dto.error;
    transcript = present dto.transcript;
  }

  abbrev pub links_of : Detail → List Link
  links_of (progress_bar _ _) = []
  links_of (failure _) = []
  links_of (result links _ _) = links
  links_of nothing = []

  abbrev pub offered : Job Number → List Link
  offered job = links_of (card_of F (page_job (to_job_detail job))).detail

  abbrev pub download : Text → Text → SubtitleFormat → Link
  download id caption format = record {
    href = codes "/api/transcriptions/" ++ (id ++ (codes "/export?format=" ++ format_text format));
    caption = caption;
  }

  offered-export_job :
      (format : SubtitleFormat) (job : Job Number)
      → ((answered (export_job F format job) ≡ 200)
          × (offered job
              ≡ download job.id (codes "Download SRT") srt
                ∷ download job.id (codes "Download VTT") vtt
                ∷ []))
        ⊎ ((answered (export_job F format job) ≡ 409) × (offered job ≡ []))
  unfolding card_of page_job to_job_detail to_job_summary
  offered-export_job format job = ground arith

  module _ (S : JobStore Number) (P : Platform Number) (o : Outcomes) (is_uuid : Text → Bool)
      (w : World S) where
    export_query-found :
        (format : SubtitleFormat) (job : Job Number)
        → is_uuid job.id ≡ true
        → o.finds ≡ true
        → S.find_one_by job.id w.rows ≡ some job
        → (export_query F S P o is_uuid job.id (some (format_text format)) w).0
          ≡ export_job F format job
    unfolding export_query format_of
    export_query-found srt job u f e = rw (export-found F S P o is_uuid job.id srt w job u f e) refl
    export_query-found vtt job u f e = rw (export-found F S P o is_uuid job.id vtt w job u f e) refl

    -- The page that got a job from `GET :id` offers its subtitles as SRT and VTT exactly when the API
    -- answers the requests of these links with 200. If it answers 409, the page offers nothing. This
    -- holds if the job is a row of the table with a UUID and the table can be read.
    pub offered-export_query :
        (format : SubtitleFormat) (job : Job Number)
        → is_uuid job.id ≡ true
        → o.finds ≡ true
        → S.find_one_by job.id w.rows ≡ some job
        → let status =
            answered (export_query F S P o is_uuid job.id (some (format_text format)) w).0 in
          ((status ≡ 200)
            × (offered job
                ≡ download job.id (codes "Download SRT") srt
                  ∷ download job.id (codes "Download VTT") vtt
                  ∷ []))
          ⊎ ((status ≡ 409) × (offered job ≡ []))
    offered-export_query format job u f e =
        rw (export_query-found format job u f e) (offered-export_job format job)

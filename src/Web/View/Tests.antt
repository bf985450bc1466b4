-- ===== src/Web/View/Tests.antt =====
-- The page for a completed job and for a queued one.
use scribeflow.Prelude.{ℕ, ◌≡◌, ◌⊎◌, refl, true, none, some, [], ◌∷◌, ◌++◌}
use scribeflow.Floats.Micros.{micros}
use scribeflow.Text.{codes, text_eq, to_string}
use scribeflow.Subtitles.{srt, vtt}
use scribeflow.Jobs.{queued, Job, to_job_detail, to_job_summary}
use scribeflow.Store.Memory.{memory}
use scribeflow.Queue.Publisher.{acked}
use scribeflow.Service.Samples.{platform, resolves, jobs, start, id, done_job, done}
use scribeflow.Controller.Export.{answered}
use scribeflow.Controller.Query.{export_query}
use scribeflow.Web.Clock.{format_clock}
use scribeflow.Web.Page.{blank}
use scribeflow.Web.View.{result, progress_bar, card_of, view}
use scribeflow.Web.View.Downloads.{page_job, offered, download, offered-export_query}

abbrev half_done : Job ℕ
half_done = record done_job { status = queued; progress = 456000; transcript = none }

result_shown :
    (card_of micros (page_job micros (to_job_detail done_job))).detail
    ≡ result
        (offered micros done_job)
        (codes "language: en " ++ 0xb7 ∷ (codes " 00:04 " ++ 0xb7 ∷ codes " 1 segments"))
        (record { time = codes "00:00"; words = codes "Hello." } ∷ [])
unfolding card_of page_job to_job_detail to_job_summary format_clock
result_shown = refl

progress_shown :
    (card_of micros (page_job micros (to_job_detail half_done))).detail
    ≡ progress_bar (codes "46%") (codes "Waiting for a worker" ++ 0x2026 ∷ [])
unfolding card_of page_job to_job_detail to_job_summary to_string
progress_shown = refl

blank_shown : (view micros 0 (blank 0)).zone.opens ≡ true
unfolding view
blank_shown = refl

offered-export_query_example :
    let status =
      answered
        (export_query micros jobs platform
          (resolves acked)
          (λ s. true)
          id
          (some (codes "vtt"))
          done).0 in
    ((status ≡ 200)
      × (offered micros done_job
          ≡ download micros id (codes "Download SRT") srt
            ∷ download micros id (codes "Download VTT") vtt
            ∷ []))
    ⊎ ((status ≡ 409) × (offered micros done_job ≡ []))
unfolding memory start done text_eq
offered-export_query_example =
    offered-export_query micros jobs platform (resolves acked) (λ s. true) done vtt done_job refl
      refl refl

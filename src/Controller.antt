-- ===== src/Controller.antt =====
-- api/src/transcriptions/transcriptions.controller.ts, and the upload options of
-- transcriptions.module.ts. The framework answers an exception with its status; a handler gives the
-- status, the headers that it sets and the body.
pub mod Uploads
pub mod Export
pub mod Listing
pub mod Query
mod Tests
use scribeflow.Prelude.{ℕ, ◌*◌, Bool, List, [], ◌∷◌, ◌++◌, map, Option, none, some, if◌then◌else◌}
use scribeflow.Floats.{Floats}
use scribeflow.Text.{Text, codes}
use scribeflow.Subtitles.{SubtitleFormat, srt, vtt, to_srt, to_vtt}
use scribeflow.Upload.{validate_upload, UploadRejection}
use scribeflow.Jobs.{
  JobStatus, completed, status_text, Transcript, Job, CreatedJobDto, JobSummaryDto, JobDetailDto,
  to_job_summary, to_job_detail,
}
use scribeflow.Store.{JobStore}
use scribeflow.Service.{
  MulterFile, CreateResult, Failure, http, Result, ok, err, M, ◌>>=◌, return, throw, Outcomes,
  Platform, create, find_by_id, list,
}

-- `limits.fileSize` in bytes.
unfoldable pub file_size_limit : ℕ → ℕ
file_size_limit max_upload_mb = max_upload_mb * 1024 * 1024

abbrev pub filtered : Option UploadRejection → Option Failure
filtered none = none
filtered (some rejection) = some (http 415 rejection.reason)

-- `fileFilter`: the error that the upload is refused with, before any bytes are stored.
unfoldable pub file_filter : (Text → Text) → Text → Text → Option Failure
file_filter unicode_lower original_name mime_type =
    filtered (validate_upload unicode_lower original_name mime_type)

pub record Response (A : Type 0) : Type 0 where
  pub status : ℕ
  pub headers : List (Text × Text)
  pub body : A

abbrev pub format_text : SubtitleFormat → Text
format_text srt = codes "srt"
format_text vtt = codes "vtt"

abbrev pub content_type : SubtitleFormat → Text
content_type vtt = codes "text/vtt; charset=utf-8"
content_type srt = codes "application/x-subrip; charset=utf-8"

module _ (F : Floats) where
  open F use {Number}

  -- `query.format === 'vtt' ? toVtt(segments) : toSrt(segments)`.
  abbrev pub render : SubtitleFormat → Transcript Number → Text
  render vtt transcript = to_vtt F transcript.segments
  render srt transcript = to_srt F transcript.segments

  -- The answer with the subtitles of a transcript.
  abbrev pub subtitle_file : SubtitleFormat → Text → Transcript Number → Response Text
  subtitle_file format id transcript = record {
    status = 200;
    headers =
        (codes "Content-Type", content_type format)
        ∷ (
          codes "Content-Disposition",
          codes "attachment; filename=\"" ++ (id ++ b'.' ∷ (format_text format ++ codes "\"")),
        )
        ∷ [];
    body = render format transcript;
  }

  -- The body of `export` behind the lookup of the job.
  abbrev pub export_job : SubtitleFormat → Job Number → Result (Response Text)
  export_job format job = export_as job.status job.transcript
    where
      export_as : JobStatus → Option (Transcript Number) → Result (Response Text)
      export_as completed (some transcript) = ok (subtitle_file format job.id transcript)
      export_as status transcript = err (
          http 409 (
            codes "Job is "
            ++ (status_text job.status ++ codes "; export requires a completed transcription")))

  module _ (S : JobStore Number) (P : Platform Number) (o : Outcomes) where
    -- `res.status(deduplicated ? 200 : 202)` and the body.
    abbrev pub created_response : CreateResult Number → Response CreatedJobDto
    created_response r = record {
      status = if r.deduplicated then 200 else 202;
      headers = [];
      body = record { id = r.job.id; status = r.job.status };
    }

    -- `POST /v1/transcriptions`, with the file that multer has stored.
    unfoldable pub post : Text → ℕ → Option MulterFile → M S (Response CreatedJobDto)
    post job_id now none = throw (http 400 (codes "Multipart field \"file\" is required"))
    post job_id now (some file) = do r ← create S P o job_id now file; return (created_response r)

    -- `ParseUUIDPipe`: `is_uuid` says whether it takes the text.
    abbrev pub parse_uuid : (Text → Bool) → Text → M S Text
    parse_uuid is_uuid id =
        if is_uuid id
        then return id
        else throw (http 400 (codes "Validation failed (uuid is expected)"))

    -- `GET /v1/transcriptions/:id`.
    unfoldable pub get : (Text → Bool) → Text → M S (Response (JobDetailDto Number))
    get is_uuid param = do
      id ← parse_uuid is_uuid param
      job ← find_by_id S P o id
      return (record { status = 200; headers = []; body = to_job_detail job })

    -- `GET /v1/transcriptions/:id/export`.
    unfoldable pub export : (Text → Bool) → Text → SubtitleFormat → M S (Response Text)
    export is_uuid param format = do
      id ← parse_uuid is_uuid param
      job ← find_by_id S P o id
      λ w. (export_job format job, w)

    -- `GET /v1/transcriptions`, with the query's values.
    unfoldable pub list_jobs : ℕ → ℕ → M S (Response (List (JobSummaryDto Number)))
    list_jobs limit offset = do
      jobs ← list S P o limit offset
      return (record { status = 200; headers = []; body = map to_job_summary jobs })

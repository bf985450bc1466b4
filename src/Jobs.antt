-- ===== src/Jobs.antt =====
-- api/src/transcriptions/entities/job.entity.ts and dto/job-response.dto.ts. Dates are numbers of
-- milliseconds; columns and properties that can be null are options.
pub mod Disclosure
mod Tests
use scribeflow.Prelude.{ℕ, List, [], Option, none, some}
use scribeflow.Text.{Text, codes}
use scribeflow.Subtitles.{TranscriptSegment}

pub data JobStatus : Type 0 where
  queued processing completed failed : JobStatus

-- The text of a status, as it is stored and shown.
abbrev pub status_text : JobStatus → Text
status_text queued = codes "queued"
status_text processing = codes "processing"
status_text completed = codes "completed"
status_text failed = codes "failed"

pub record Transcript (Number : Type 0) : Type 0 where
  pub text : Text
  pub language : Text
  pub duration : Number
  pub segments : List (TranscriptSegment Number)

pub record Job (Number : Type 0) : Type 0 where
  pub id : Text
  pub status : JobStatus
  pub original_name : Text
  pub file_path : Text
  pub content_hash : Option Text
  pub language : Option Text
  pub duration_sec : Option Number
  pub progress : Number
  pub attempts : ℕ
  pub error : Option Text
  pub transcript : Option (Transcript Number)
  pub created_at : ℕ
  pub updated_at : ℕ

pub record CreatedJobDto : Type 0 where
  pub id : Text
  pub status : JobStatus

pub record JobSummaryDto (Number : Type 0) : Type 0 where
  pub id : Text
  pub status : JobStatus
  pub original_name : Text
  pub language : Option Text
  pub duration_sec : Option Number
  pub progress : Number
  pub attempts : ℕ
  pub created_at : ℕ
  pub updated_at : ℕ

-- Of `error` and `transcript` the outer option says whether the property is there.
pub record JobDetailDto (Number : Type 0) : Type 0 where
  pub summary : JobSummaryDto Number
  pub open summary use *
  pub error : Option (Option Text)
  pub transcript : Option (Option (Transcript Number))

abbrev pub error_of : JobStatus → Option Text → Option (Option Text)
error_of failed error = some error
error_of _ error = none

module _ {Number : Type 0} where
  unfoldable pub to_job_summary : Job Number → JobSummaryDto Number
  to_job_summary job = record {
    id = job.id;
    status = job.status;
    original_name = job.original_name;
    language = job.language;
    duration_sec = job.duration_sec;
    progress = job.progress;
    attempts = job.attempts;
    created_at = job.created_at;
    updated_at = job.updated_at;
  }

  abbrev pub transcript_of :
      JobStatus → Option (Transcript Number) → Option (Option (Transcript Number))
  transcript_of completed transcript = some transcript
  transcript_of _ transcript = none

  unfoldable pub to_job_detail : Job Number → JobDetailDto Number
  unfolding to_job_summary
  to_job_detail job = record {
    summary = to_job_summary job;
    error = error_of job.status job.error;
    transcript = transcript_of job.status job.transcript;
  }

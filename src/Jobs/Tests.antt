-- ===== src/Jobs/Tests.antt =====
-- The disclosure theorem at two jobs.
use scribeflow.Prelude.{ℕ, ◌≡◌, ◌↔◌, none, some}
use scribeflow.Text.{codes}
use scribeflow.Jobs.{processing, Job, to_job_detail}
use scribeflow.Jobs.Disclosure.{LooksAlike, to_job_detail-eq_iff}

abbrev retried : Job ℕ
retried = record {
  id = codes "j1";
  status = processing;
  original_name = codes "a.mp3";
  file_path = codes "/data/audio/j1.mp3";
  content_hash = some (codes "00ff");
  language = none;
  duration_sec = none;
  progress = 0;
  attempts = 2;
  error = some (codes "ffmpeg timed out after 600s");
  transcript = none;
  created_at = 5;
  updated_at = 9;
}

to_job_detail-eq_iff_example :
    (to_job_detail retried ≡ to_job_detail (record retried { error = none }))
    ↔ LooksAlike retried (record retried { error = none })
to_job_detail-eq_iff_example = to_job_detail-eq_iff retried (record retried { error = none })

-- ===== src/Service/Stages.antt =====
-- `create` of api/src/transcriptions/transcriptions.service.ts an `await` at a time: each stage is a
-- call that a request waits for, and requests, deliveries and whatever else happens may come in between.
pub mod Whole
use scribeflow.Prelude.{ℕ, zero, suc, true, false, Option, none, some, if◌then◌else◌}
use scribeflow.Text.{Text, codes}
use scribeflow.Upload.{UploadRejection, extension_of, validate_upload}
use scribeflow.Storage.{promote, sha256}
use scribeflow.Queue.Topology.{JobMessage}
use scribeflow.Queue.Publisher.{PublishError, publish_job}
use scribeflow.Jobs.{Job}
use scribeflow.Store.{JobStore}
use scribeflow.Service.{
  MulterFile, CreateResult, http, internal, Result, ok, err, Outcomes, Platform, World, expect,
  discard, moved, row_of, insert, delete_row,
}

-- An upload, with the id and the time that a job of it has.
pub record Creation : Type 0 where
  pub job_id : Text
  pub now : ℕ
  pub file : MulterFile

-- What a request waits for. `confirming` holds how the broker answers a message that it has or has
-- not taken.
pub data Stage (Number : Type 0) : Type 0 where
  rejecting : Text → Stage Number
  hashing : Stage Number
  looking_up : Text → Stage Number
  reusing : Job Number → Stage Number
  promoting : Text → Stage Number
  saving : Job Number → Stage Number
  publishing : Job Number → Stage Number
  confirming : Job Number → Option PublishError → Stage Number
  deleting : Job Number → Stage Number
  discarding : Job Number → Stage Number
  settled : Result (CreateResult Number) → Stage Number

module _ {Number : Type 0} where
  abbrev pub when_ok : {A W : Type 0} → Result A × W → (A → Stage Number) → Stage Number × W
  when_ok (ok a, w) next = (next a, w)
  when_ok (err failure, w) next = (settled (err failure), w)

  abbrev pub admitted : Option UploadRejection → Stage Number
  admitted none = hashing
  admitted (some rejection) = rejecting rejection.reason

  abbrev pub looked_up : Text → Option (Job Number) → Stage Number
  looked_up content_hash none = promoting content_hash
  looked_up content_hash (some existing) = reusing existing

module _ {Number : Type 0} (S : JobStore Number) (P : Platform Number) where
  open S use {find_completed, save, delete}

  -- The first call of `create`, after the validation.
  unfoldable pub first_stage : MulterFile → Stage Number
  first_stage file = admitted (validate_upload P.unicode_lower file.original_name file.mime_type)

  -- The call ends, and the request goes on to the next one.
  unfoldable pub proceed : Outcomes → Creation → Stage Number → World S → Stage Number × World S
  proceed o c (rejecting reason) w =
      when_ok (discard S P o c.file.path w) (λ _. settled (err (http 415 reason)))
  proceed o c hashing w =
      when_ok (expect (sha256 P.digest o.reads c.file.path w.files) w) looking_up
  proceed o c (looking_up content_hash) w =
      when_ok (if o.finds then (ok (find_completed content_hash w.rows), w) else (err internal, w))
        (looked_up content_hash)
  proceed o c (reusing existing) w =
      when_ok (discard S P o c.file.path w)
        (λ _. settled (ok (record { job = existing; deduplicated = true })))
  proceed o c (promoting content_hash) w =
      when_ok
        (moved S P o
          (promote o.renames P.audio_dir c.file.path c.job_id
            (extension_of P.unicode_lower c.file.original_name) w.files)
          w)
        (λ file_path. saving (row_of S P o c.job_id c.now c.file file_path content_hash))
  proceed o c (saving job) w = when_ok (insert S P o job w) (λ _. publishing job)
  proceed o c (publishing job) w =
      let message : JobMessage = record {
        job_id = job.id;
        file_path = job.file_path;
        attempt = 0;
      } in
      let (e, taken) = publish_job w.publisher o.confirm message w.taken in
      (confirming job e, record w { taken = taken })
  proceed o c (confirming job none) w =
      (settled (ok (record { job = job; deduplicated = false })), w)
  proceed o c (confirming job (some e)) w = (deleting job, w)
  proceed o c (deleting job) w = when_ok (delete_row S P o job.id w) (λ _. discarding job)
  proceed o c (discarding job) w =
      when_ok (discard S P o job.file_path w)
        (λ _. settled (err (http 503 (codes "Transcription queue unavailable"))))
  proceed o c (settled result) w = (settled result, w)

  -- So many calls in a row, with nothing in between.
  unfoldable pub proceed_times :
      ℕ → Outcomes → Creation → Stage Number → World S → Stage Number × World S
  unfolding proceed
  proceed_times zero o c stage w = (stage, w)
  proceed_times (suc n) o c stage w =
      let (stage, w) = proceed o c stage w in proceed_times n o c stage w

-- ===== src/Service.antt =====
-- api/src/transcriptions/transcriptions.service.ts, over the table of jobs, the files of the volume
-- and the publisher. A call that can fail has its outcome in `Outcomes`.
pub mod Create
pub mod Failures
pub mod Backed
pub mod Stages
pub mod Samples
mod Tests
use scribeflow.Prelude.{
  ℕ, Bool, true, false, List, [], ◌∷◌, ◌++◌, Option, none, some, if◌then◌else◌,
}
use scribeflow.Text.{Text, codes}
use scribeflow.Text.Utf8.{Bytes}
use scribeflow.Upload.{UploadRejection, extension_of, validate_upload}
use scribeflow.Storage.{Files, remove, promote, sha256}
use scribeflow.Queue.Topology.{JobMessage}
use scribeflow.Queue.Publisher.{Publisher, Confirm, PublishError, publish_job}
use scribeflow.Jobs.{queued, Job}
use scribeflow.Store.{JobStore, desc}

-- What multer tells of a file that it has put into the directory of uploads.
pub record MulterFile : Type 0 where
  pub original_name : Text
  pub mime_type : Text
  pub path : Text

pub record CreateResult (Number : Type 0) : Type 0 where
  pub job : Job Number
  pub deduplicated : Bool

-- An HttpException with its status and message, or any other error, which is answered with 500.
pub data Failure : Type 0 where
  http : ℕ → Text → Failure
  internal : Failure

pub data Result (A : Type 0) : Type 0 where
  ok : A → Result A
  err : Failure → Result A

-- How the calls of one request end: true if they resolve.
pub record Outcomes : Type 0 where
  pub reads : Bool
  pub finds : Bool
  pub renames : Bool
  pub saves : Bool
  pub deletes : Bool
  pub unlinks : Bool
  pub confirm : Confirm

-- What the service is configured with or takes from its platform: the tables behind `toLowerCase`,
-- the SHA-256 digest, AUDIO_DIR and the column default of `progress`.
pub record Platform (Number : Type 0) : Type 0 where
  pub unicode_lower : Text → Text
  pub digest : Bytes → Text
  pub audio_dir : Text
  pub zero : Number

pub record World {Number : Type 0} (S : JobStore Number) : Type 0 where
  pub rows : S.Rows
  pub files : Files
  -- the job messages that the exchange has taken, the last one at the end
  pub taken : List JobMessage
  pub publisher : Publisher

module _ {Number : Type 0} (S : JobStore Number) where
  abbrev pub M : Type 0 → Type 0
  M A = World S → Result A × World S

module _ {Number : Type 0} {S : JobStore Number} where
  abbrev pub then_with : {A B : Type 0} → Result A × World S → (A → M S B) → Result B × World S
  then_with (ok a, w) f = f a w
  then_with (err e, w) f = (err e, w)

  infixl 5 ◌>>=◌ ◌>>◌
  abbrev pub ◌>>=◌ : {A B : Type 0} → M S A → (A → M S B) → M S B
  ◌>>=◌ m f w = then_with (m w) f

  abbrev pub ◌>>◌ : {B : Type 0} → M S (Unit {0}) → M S B → M S B
  ◌>>◌ m k w = then_with (m w) (λ _. k)

  abbrev pub return : {A : Type 0} → A → M S A
  return a w = (ok a, w)

  abbrev pub throw : {A : Type 0} → Failure → M S A
  throw e w = (err e, w)

  -- A promise that resolves, or rejects with an error of the library.
  abbrev pub expect : {A : Type 0} → Option A → M S A
  expect none w = (err internal, w)
  expect (some a) w = (ok a, w)

module _ {Number : Type 0} (S : JobStore Number) (P : Platform Number) (o : Outcomes) where
  open S use {find_one_by, find_completed, save, delete, find}

  -- `this.storage.remove(path)`.
  abbrev pub discard : Text → M S (Unit {0})
  discard path w = (ok tt, record w { files = remove o.unlinks path w.files })

  abbrev pub moved : Option (Text × Files) → M S Text
  moved none w = (err internal, w)
  moved (some (path, files)) w = (ok path, record w { files = files })

  abbrev pub row_of : Text → ℕ → MulterFile → Text → Text → Job Number
  row_of job_id now file file_path content_hash = record {
    id = job_id;
    status = queued;
    original_name = file.original_name;
    file_path = file_path;
    content_hash = some content_hash;
    language = none;
    duration_sec = none;
    progress = P.zero;
    attempts = 0;
    error = none;
    transcript = none;
    created_at = now;
    updated_at = now;
  }

  -- `this.jobs.save(job)` and `this.jobs.delete(jobId)`.
  abbrev pub insert : Job Number → M S (Unit {0})
  insert job w = if o.saves then (ok tt, record w { rows = save job w.rows }) else (err internal, w)

  abbrev pub delete_row : Text → M S (Unit {0})
  delete_row id w =
      if o.deletes then (ok tt, record w { rows = delete id w.rows }) else (err internal, w)

  -- The handler of a failure to publish.
  unfoldable pub undo : Text → Text → M S (Unit {0})
  undo job_id file_path = do
    delete_row job_id
    discard file_path
    throw (http 503 (codes "Transcription queue unavailable"))

  abbrev pub caught : Text → Text → Option PublishError → M S (Unit {0})
  caught job_id file_path none = return tt
  caught job_id file_path (some e) = undo job_id file_path

  -- `try { await this.publisher.publishJob(…) } catch …`.
  unfoldable pub enqueue : Text → Text → M S (Unit {0})
  unfolding undo
  enqueue job_id file_path w =
      let message : JobMessage = record { job_id = job_id; file_path = file_path; attempt = 0 } in
      let (e, taken) = publish_job w.publisher o.confirm message w.taken in
      caught job_id file_path e (record w { taken = taken })

  -- From `randomUUID()`, which gives `job_id`, on.
  unfoldable pub accept : Text → ℕ → MulterFile → Text → M S (CreateResult Number)
  unfolding enqueue
  accept job_id now file content_hash = do
    file_path ← λ w.
        moved
          (promote o.renames P.audio_dir file.path job_id
            (extension_of P.unicode_lower file.original_name) w.files)
          w
    let job = row_of job_id now file file_path content_hash
    insert job
    enqueue job_id file_path
    return (record { job = job; deduplicated = false })

  abbrev pub reuse_or :
      Option (Job Number) → Text → M S (CreateResult Number) → M S (CreateResult Number)
  reuse_or (some existing) path otherwise = do
    discard path
    return (record { job = existing; deduplicated = true })
  reuse_or none path otherwise = otherwise

  unfoldable pub admit : Text → ℕ → MulterFile → M S (CreateResult Number)
  unfolding accept
  admit job_id now file = do
    content_hash ← λ w. expect (sha256 P.digest o.reads file.path w.files) w
    existing ←
        λ w. if o.finds then (ok (find_completed content_hash w.rows), w) else (err internal, w)
    reuse_or existing file.path (accept job_id now file content_hash)

  abbrev pub unless_rejected :
      Option UploadRejection → Text → M S (CreateResult Number) → M S (CreateResult Number)
  unless_rejected (some rejection) path otherwise = do
    discard path
    throw (http 415 rejection.reason)
  unless_rejected none path otherwise = otherwise

  -- `create(file)`, with the new id and the time that it may use.
  unfoldable pub create : Text → ℕ → MulterFile → M S (CreateResult Number)
  unfolding admit
  create job_id now file =
      unless_rejected (validate_upload P.unicode_lower file.original_name file.mime_type) file.path
        (admit job_id now file)

  abbrev pub found_or_404 : Option (Job Number) → Text → Result (Job Number)
  found_or_404 none id = err (http 404 (codes "No transcription job with id " ++ id))
  found_or_404 (some job) id = ok job

  unfoldable pub find_by_id : Text → M S (Job Number)
  find_by_id id w = (if o.finds then found_or_404 (find_one_by id w.rows) id else err internal, w)

  unfoldable pub list : ℕ → ℕ → M S (List (Job Number))
  list limit offset w = (if o.finds then ok (find desc limit offset w.rows) else err internal, w)

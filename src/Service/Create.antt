-- ===== src/Service/Create.antt =====
-- What `create` has done when it returns a job.
use scribeflow.Prelude.{
  ℕ, ◌≡◌, ap, ◌⊎◌, inl, inr, true, false, ◌&&◌, [], ◌∷◌, ◌++◌, none, some, arith, if◌then◌else◌,
  Option-cases,
}
use mathlib.Core.Option
use scribeflow.Text.{Text, text_eq}
use scribeflow.Text.Equality.{text_eq_refl}
use scribeflow.Storage.Files.{file_at-rename, file_at-remove}
use scribeflow.Text.Utf8.{Bytes}
use scribeflow.Upload.{extension_of, validate_upload}
use scribeflow.Storage.{file_at, rename, final_path, remove, promote, sha256}
use scribeflow.Queue.Topology.{JobMessage}
use scribeflow.Queue.Publisher.{acked, publish_job, is_connected}
use scribeflow.Jobs.{queued, completed, Job}
use scribeflow.Store.{JobStore}
use scribeflow.Service.{
  MulterFile, CreateResult, ok, Outcomes, Platform, World, row_of, accept, admit, create,
}

module _ {Number : Type 0} (S : JobStore Number) (P : Platform Number) (o : Outcomes)
    (job_id : Text) (now : ℕ) (file : MulterFile) where
  abbrev pub target : Text
  target = final_path P.audio_dir job_id (extension_of P.unicode_lower file.original_name)

  abbrev pub message : JobMessage
  message = record { job_id = job_id; file_path = target; attempt = 0 }

  -- A new job: the upload is moved to the file of the job, its row is there, and then its message.
  pub record IsAccepted (w : World S) (bytes : Bytes) (r : CreateResult Number) (w' : World S)
      : Type 0 where
    pub fresh : S.find_completed (P.digest bytes) w.rows ≡ none
    pub result : r ≡ record {
      job = row_of S P o job_id now file target (P.digest bytes);
      deduplicated = false;
    }
    pub moved : rename file.path target w.files ≡ some w'.files
    pub stored : w'.rows ≡ S.save r.job w.rows
    pub sent : w'.taken ≡ w.taken ++ message ∷ []
    pub connected : is_connected w.publisher ≡ true
    pub confirmed : o.confirm ≡ acked

  accept-IsAccepted :
      (w w' : World S) (bytes : Bytes) (r : CreateResult Number)
      → S.find_completed (P.digest bytes) w.rows ≡ none
      → accept S P o job_id now file (P.digest bytes) w ≡ (ok r, w')
      → IsAccepted w bytes r w'
  unfolding accept promote publish_job
  accept-IsAccepted w w' bytes r fresh e = ground arith

  -- A duplicate: the job is a completed one with the hash of the upload, and only the upload goes.
  pub record IsDuplicate (w : World S) (bytes : Bytes) (r : CreateResult Number) (w' : World S)
      : Type 0 where
    pub existing : S.find_completed (P.digest bytes) w.rows ≡ some r.job
    pub flagged : r.deduplicated ≡ true
    pub unchanged : w' ≡ record w { files = remove o.unlinks file.path w.files }

  -- The ways in which `create` returns a job, for an upload with the given bytes.
  pub record IsCreated (w : World S) (r : CreateResult Number) (w' : World S) : Type 0 where
    pub bytes : Bytes
    pub uploaded : file_at file.path w.files ≡ some bytes
    pub valid : validate_upload P.unicode_lower file.original_name file.mime_type ≡ none
    pub cases : IsAccepted w bytes r w' ⊎ IsDuplicate w bytes r w'

  admit-cases :
      (w w' : World S) (bytes : Bytes) (r : CreateResult Number)
      → file_at file.path w.files ≡ some bytes
      → admit S P o job_id now file w ≡ (ok r, w')
      → IsAccepted w bytes r w' ⊎ IsDuplicate w bytes r w'
  unfolding admit sha256
  admit-cases w w' bytes r u e = elim (Option-cases (S.find_completed (P.digest bytes) w.rows)) [
    | inl fresh ↦ inl (accept-IsAccepted w w' bytes r fresh (ground arith))
    | inr (job, found) ↦ inr (ground arith)
  ]

  admit-uploaded :
      (w w' : World S) (r : CreateResult Number)
      → admit S P o job_id now file w ≡ (ok r, w')
      → (bytes : Bytes) × (file_at file.path w.files ≡ some bytes)
  unfolding admit sha256
  admit-uploaded w w' r e = ground arith

  pub create-IsCreated :
      (w w' : World S) (r : CreateResult Number)
      → create S P o job_id now file w ≡ (ok r, w')
      → IsCreated w r w'
  unfolding create
  create-IsCreated w w' r e =
      elim (Option-cases (validate_upload P.unicode_lower file.original_name file.mime_type)) [
        | inl valid ↦
            let admitted : admit S P o job_id now file w ≡ (ok r, w') = ground arith in
            let (bytes, u) = admit-uploaded w w' r admitted in
            record {
              bytes = bytes;
              uploaded = u;
              valid = valid;
              cases = admit-cases w w' bytes r u admitted;
            }
        | inr (rejection, invalid) ↦ absurd (ground arith)
      ]

-- The outcome of an upload that is answered as new.
pub record IsQueued {Number : Type 0} (S : JobStore Number) (P : Platform Number) (job_id : Text)
    (file : MulterFile) (w : World S) (job : Job Number) (w' : World S) : Type 0 where
  -- the job, and its row
  pub id : job.id ≡ job_id
  pub status : job.status ≡ queued
  pub row : S.find_one_by job_id w'.rows ≡ some job
  -- the file has moved, and its bytes have the hash in the row
  pub bytes : Bytes
  pub uploaded : file_at file.path w.files ≡ some bytes
  pub kept : file_at job.file_path w'.files ≡ some bytes
  pub hash : job.content_hash ≡ some (P.digest bytes)
  -- one message is sent, which names the row and the file
  pub sent :
      w'.taken ≡ w.taken ++ record { job_id = job_id; file_path = job.file_path; attempt = 0 } ∷ []

module _ {Number : Type 0} (S : JobStore Number) (P : Platform Number) (o : Outcomes)
    (job_id : Text) (now : ℕ) (file : MulterFile) (w w' : World S) (r : CreateResult Number) where
  IsQueued-of :
      (bytes : Bytes)
      → file_at file.path w.files ≡ some bytes
      → IsAccepted S P o job_id now file w bytes r w'
      → IsQueued S P job_id file w r.job w'
  IsQueued-of bytes u a =
      let same : r.job
          ≡ row_of S P o job_id now file (target S P o job_id now file) (P.digest bytes) =
        ap (λ x. x.job) a.result in
      record {
        id = ap (λ j. j.id) same;
        status = ap (λ j. j.status) same;
        row = ground (
          arith,
          a.stored,
          ap (λ j. j.id) same,
          S.find_one_by-save job_id r.job w.rows,
          text_eq_refl job_id,
        );
        bytes = bytes;
        uploaded = u;
        kept = rw (ap (λ j. j.file_path) same) (
            ground (
              arith,
              u,
              file_at-rename (target S P o job_id now file) file.path (target S P o job_id now file)
                  w.files w'.files a.moved,
              text_eq_refl (target S P o job_id now file),
            ));
        hash = ap (λ j. j.content_hash) same;
        sent = rw (ap (λ j. j.file_path) same) a.sent;
      }

  -- When `create` returns a job as new, its row with the given id is in the table and queued, the
  -- bytes of the upload are in the file of the row and have the hash of the row, and exactly one
  -- message has been sent, which names the row and the file.
  pub create-IsQueued :
      create S P o job_id now file w ≡ (ok r, w')
      → r.deduplicated ≡ false
      → IsQueued S P job_id file w r.job w'
  create-IsQueued e new =
      let c = create-IsCreated S P o job_id now file w w' r e in
      elim c.cases [
        | inl a ↦ IsQueued-of c.bytes c.uploaded a
        | inr d ↦ absurd (ground (arith, d.flagged))
      ]

  -- When `create` returns a job as a duplicate, that job is in the table, completed, and has the
  -- hash of the uploaded bytes; the table and the messages are as before, and no file has changed
  -- but the upload, which is gone if it could be removed.
  pub create-duplicate :
      create S P o job_id now file w ≡ (ok r, w')
      → r.deduplicated ≡ true
      → (r.job.status ≡ completed)
        × (S.find_one_by r.job.id w.rows ≡ some r.job)
        × (r.job.content_hash ≡ Option.map P.digest (file_at file.path w.files))
        × (w'.rows ≡ w.rows)
        × (w'.taken ≡ w.taken)
        × ((p : Text)
            → file_at p w'.files
              ≡ (if o.unlinks && text_eq file.path p then none else file_at p w.files))
  create-duplicate e dup =
      let c = create-IsCreated S P o job_id now file w w' r e in
      elim c.cases [
        | inl a ↦ absurd (ground (arith, ap (λ x. x.deduplicated) a.result))
        | inr d ↦
            let (done, hashed, there) =
              S.find_completed-eq_some (P.digest c.bytes) w.rows r.job d.existing in
            (
              done,
              there,
              ground (arith, hashed, c.uploaded),
              ap (λ x. x.rows) d.unchanged,
              ap (λ x. x.taken) d.unchanged,
              λ p. rw d.unchanged (ground (arith, file_at-remove o.unlinks p file.path w.files)),
            )
      ]

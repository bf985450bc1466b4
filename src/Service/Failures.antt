-- ===== src/Service/Failures.antt =====
-- What a failing `create` leaves behind.
use scribeflow.Prelude.{
  ℕ, ◌≡◌, ◌⊎◌, inl, inr, true, false, [], ◌∷◌, ◌++◌, none, some, arith, if◌then◌else◌, Option-cases,
  Bool-cases,
}
use scribeflow.Text.{Text, codes}
use scribeflow.Text.Equality.{text_eq_refl, text_eq_iff}
use scribeflow.Text.Utf8.{Bytes}
use scribeflow.Upload.{validate_upload}
use scribeflow.Storage.{Files, file_at, unlink, promote, sha256}
use scribeflow.Storage.Files.{file_at-rename, rename-eq_some, file_at-remove}
use scribeflow.Queue.Publisher.{acked, lost, publish_job, is_connected}
use scribeflow.Jobs.{Job}
use scribeflow.Store.{JobStore}
use scribeflow.Service.{
  MulterFile, Failure, http, internal, ok, err, Outcomes, Platform, World, row_of, undo, accept,
  admit, create,
}
use scribeflow.Service.Create.{target, message}

module _ {Number : Type 0} (S : JobStore Number) (P : Platform Number) (o : Outcomes)
    (job_id : Text) (now : ℕ) (file : MulterFile) where
  abbrev pub saved_row : Text → Job Number
  saved_row hash = row_of S P o job_id now file (target S P o job_id now file) hash

  -- The rows of a failed request: as before, or with the row saved and deleted again, or, if the
  -- deletion fails too, with the saved row. A message is there only if its confirmation was lost.
  abbrev pub Remains : World S → World S → Text → Type 0
  Remains w w' hash =
      ((w'.rows ≡ w.rows)
        ⊎ (w'.rows ≡ (
            if o.deletes
            then S.delete job_id (S.save (saved_row hash) w.rows)
            else S.save (saved_row hash) w.rows)))
      × ((w'.taken ≡ w.taken) ⊎ (o.confirm ≡ lost))

  accept-Remains :
      (hash : Text) (w w' : World S) (e : Failure)
      → accept S P o job_id now file hash w ≡ (err e, w')
      → Remains w w' hash
  unfolding accept promote publish_job
  accept-Remains hash w w' e h = ground arith

  admit-Remains :
      (w w' : World S) (e : Failure)
      → admit S P o job_id now file w ≡ (err e, w')
      → (hash : Text) × Remains w w' hash
  unfolding admit
  admit-Remains w w' e h = elim (Option-cases (sha256 P.digest o.reads file.path w.files)) [
    | inl q ↦ ([], ground arith)
    | inr (hash, q) ↦ elim (Bool-cases o.finds) [
      | inl f ↦ elim (Option-cases (S.find_completed hash w.rows)) [
        | inl fresh ↦ (hash, accept-Remains hash w w' e (ground arith))
        | inr (job, found) ↦ absurd (ground arith)
      ]
      | inr f ↦ ([], ground arith)
    ]
  ]

  pub create-Remains :
      (w w' : World S) (e : Failure)
      → create S P o job_id now file w ≡ (err e, w')
      → (hash : Text) × Remains w w' hash
  unfolding create
  create-Remains w w' e h =
      elim (Option-cases (validate_upload P.unicode_lower file.original_name file.mime_type)) [
        | inl valid ↦ admit-Remains w w' e (ground arith)
        | inr (rejection, invalid) ↦ ([], ground arith)
      ]

module _ {Number : Type 0} (S : JobStore Number) (P : Platform Number) (o : Outcomes)
    (job_id : Text) (now : ℕ) (file : MulterFile) (w w' : World S) (e : Failure) where
  -- When `create` fails, with any error, every id finds the row that it found before, if the new id
  -- was unused and a deletion that is tried does not fail; and no message has been sent, unless the
  -- broker took it and its confirmation was lost.
  pub create-err_undone :
      create S P o job_id now file w ≡ (err e, w')
      → S.find_one_by job_id w.rows ≡ none
      → o.deletes ≡ true
      → ((id : Text) → S.find_one_by id w'.rows ≡ S.find_one_by id w.rows)
        × ((w'.taken ≡ w.taken) ⊎ (o.confirm ≡ lost))
  create-err_undone h unused deleted =
      let (hash, (rows, taken)) = create-Remains S P o job_id now file w w' e h in
      (
        λ id. ground (
          arith,
          rows,
          S.find_one_by-delete id job_id (S.save (saved_row S P o job_id now file hash) w.rows),
          S.find_one_by-save id (saved_row S P o job_id now file hash) w.rows,
          text_eq_iff job_id id,
        ),
        taken,
      )

-- An upload that `create` would accept as new: it is valid and its bytes are there, no completed job
-- has their hash, the publisher is connected, and no call fails but the two that are left open.
pub record IsNew {Number : Type 0} (S : JobStore Number) (P : Platform Number) (o : Outcomes)
    (file : MulterFile) (w : World S) (bytes : Bytes) : Type 0 where
  pub valid : validate_upload P.unicode_lower file.original_name file.mime_type ≡ none
  pub uploaded : file_at file.path w.files ≡ some bytes
  pub reads : o.reads ≡ true
  pub finds : o.finds ≡ true
  pub renames : o.renames ≡ true
  pub deletes : o.deletes ≡ true
  pub unlinks : o.unlinks ≡ true
  pub fresh : S.find_completed (P.digest bytes) w.rows ≡ none
  pub connected : is_connected w.publisher ≡ true

module _ {Number : Type 0} (S : JobStore Number) (P : Platform Number) (o : Outcomes)
    (job_id : Text) (now : ℕ) (file : MulterFile) (w : World S) (bytes : Bytes) where
  abbrev path : Text
  path = target S P o job_id now file

  -- The world once the upload is moved and the row is saved.
  abbrev promoted : Files
  promoted = (path, bytes) ∷ unlink path (unlink file.path w.files)

  create-admit :
      IsNew S P o file w bytes
      → create S P o job_id now file w ≡ accept S P o job_id now file (P.digest bytes) w
  unfolding create admit sha256
  create-admit n = ground arith

  -- An upload is valid, its bytes are there, no completed job has their hash, the publisher is
  -- connected, no call fails, and the broker confirms the message: then `create` returns a
  -- queued job for it as new, the job's id finds that job in the table, the bytes of the upload
  -- are in the file of the job, and the message of the job is the one that has been sent.
  pub create-eq_ok :
      IsNew S P o file w bytes
      → o.saves ≡ true
      → o.confirm ≡ acked
      → let (r, w') = create S P o job_id now file w in
        let job = saved_row S P o job_id now file (P.digest bytes) in
        (r ≡ ok (record { job = job; deduplicated = false }))
        × (S.find_one_by job_id w'.rows ≡ some job)
        × (file_at path w'.files ≡ some bytes)
        × (w'.taken ≡ w.taken ++ message S P o job_id now file ∷ [])
  unfolding accept promote publish_job
  create-eq_ok n saved confirmed = rw (create-admit n) (
      ground (
        arith,
        rename-eq_some file.path path bytes w.files n.uploaded,
        file_at-rename path file.path path w.files promoted
            (rename-eq_some file.path path bytes w.files n.uploaded),
        text_eq_refl path,
        text_eq_refl job_id,
        S.find_one_by-save job_id (saved_row S P o job_id now file (P.digest bytes)) w.rows,
      ))

  -- If the row of such an upload cannot be saved, the bytes of the upload stay in the file of a job
  -- that has no row and no message: the request fails with an internal error, and nothing removes
  -- the file.
  pub create_unsaved :
      IsNew S P o file w bytes
      → o.saves ≡ false
      → let (r, w') = create S P o job_id now file w in
        (r ≡ err internal)
        × (file_at path w'.files ≡ some bytes)
        × (w'.rows ≡ w.rows)
        × (w'.taken ≡ w.taken)
  unfolding accept promote
  create_unsaved n unsaved = rw (create-admit n) (
      ground (
        arith,
        rename-eq_some file.path path bytes w.files n.uploaded,
        file_at-rename path file.path path w.files promoted
            (rename-eq_some file.path path bytes w.files n.uploaded),
        text_eq_refl path,
      ))

  -- If the broker takes the message of such an upload and its confirmation is lost, the request
  -- fails with 503, and the message stays in the exchange while the row and the file that it names
  -- are gone.
  pub create_lost :
      IsNew S P o file w bytes
      → o.saves ≡ true
      → o.confirm ≡ lost
      → let (r, w') = create S P o job_id now file w in
        (r ≡ err (http 503 (codes "Transcription queue unavailable")))
        × (w'.taken ≡ w.taken ++ message S P o job_id now file ∷ [])
        × (S.find_one_by job_id w'.rows ≡ none)
        × (file_at path w'.files ≡ none)
  unfolding accept promote publish_job undo
  create_lost n saved lost_on_the_way = rw (create-admit n) (
      ground (
        arith,
        rename-eq_some file.path path bytes w.files n.uploaded,
        S.find_one_by-delete job_id job_id
            (S.save (saved_row S P o job_id now file (P.digest bytes)) w.rows),
        text_eq_refl job_id,
        file_at-remove o.unlinks path path promoted,
        text_eq_refl path,
      ))

-- ===== src/Service/Tests.antt =====
-- The service on a table in memory: runs of `create`, and the theorems at them.
use scribeflow.Prelude.{
  ℕ, ◌≡◌, refl, ◌⊎◌, true, false, ◌&&◌, [], ◌∷◌, ◌++◌, none, some, if◌then◌else◌,
}
use mathlib.Core.Option
use scribeflow.Text.{Text, codes, text_eq}
use scribeflow.Upload.{validate_upload}
use scribeflow.Storage.{file_at, remove, rename, promote, final_path, sha256}
use scribeflow.Storage.Path.{normalize, join_path}
use scribeflow.Queue.Publisher.{Confirm, acked, lost, publish_job}
use scribeflow.Jobs.{completed, Job}
use scribeflow.Store.Memory.{memory}
use scribeflow.Service.{http, internal, ok, err, Outcomes, World, create}
use scribeflow.Service.Samples.{platform, resolves, upload, jobs, start, id}
use scribeflow.Service.Create.{target, message, IsQueued, create-IsQueued, create-duplicate}
use scribeflow.Service.Failures.{
  IsNew, saved_row, create-err_undone, create-eq_ok, create_unsaved, create_lost,
}

everything : Unit {0}
unfolding create promote sha256 publish_job memory rename remove file_at validate_upload final_path
    normalize join_path
everything = tt

accepted_path : target jobs platform (resolves acked) id 5 upload ≡ codes "/data/audio/j1.mp3"
unfolding everything
accepted_path = refl

accepted_file :
    file_at
      (codes "/data/audio/j1.mp3")
      (create jobs platform (resolves acked) id 5 upload start).1.files
    ≡ some (7 ∷ 8 ∷ [])
unfolding everything start
accepted_file = refl

abbrev after : Confirm → World jobs
after c = (create jobs platform (resolves c) id 5 upload start).1

abbrev new_job : Job ℕ
new_job = saved_row jobs platform (resolves acked) id 5 upload (7 ∷ 8 ∷ [])

create-IsQueued_example : IsQueued jobs platform id upload start new_job (after acked)
unfolding everything start
create-IsQueued_example =
    create-IsQueued jobs platform (resolves acked) id 5 upload start (after acked)
      (record { job = new_job; deduplicated = false }) refl refl

-- A completed job with the content of the upload.
abbrev done_job : Job ℕ
done_job = record new_job { id = codes "j0"; status = completed }

known : World jobs
unfolding memory start
known = record start { rows = done_job ∷ [] }

create-duplicate_example :
    (done_job.status ≡ completed)
    × (jobs.find_one_by done_job.id known.rows ≡ some done_job)
    × (done_job.content_hash ≡ Option.map platform.digest (file_at upload.path known.files))
    × ((create jobs platform (resolves acked) id 5 upload known).1.rows ≡ known.rows)
    × ((create jobs platform (resolves acked) id 5 upload known).1.taken ≡ known.taken)
    × ((p : Text)
        → file_at p (create jobs platform (resolves acked) id 5 upload known).1.files
          ≡ (if true && text_eq upload.path p then none else file_at p known.files))
unfolding everything known
create-duplicate_example =
    create-duplicate jobs platform (resolves acked) id 5 upload known
      (create jobs platform (resolves acked) id 5 upload known).1
      (record { job = done_job; deduplicated = true }) refl refl

create-err_undone_example :
    ((i : Text) → jobs.find_one_by i (after lost).rows ≡ jobs.find_one_by i start.rows)
    × (((after lost).taken ≡ start.taken) ⊎ ((resolves lost).confirm ≡ lost))
unfolding everything start
create-err_undone_example =
    create-err_undone jobs platform (resolves lost) id 5 upload start (after lost)
      (http 503 (codes "Transcription queue unavailable")) refl refl refl

start-IsNew : (c : Confirm) → IsNew jobs platform (resolves c) upload start (7 ∷ 8 ∷ [])
unfolding everything start
start-IsNew c = record {
  valid = refl;
  uploaded = refl;
  reads = refl;
  finds = refl;
  renames = refl;
  deletes = refl;
  unlinks = refl;
  fresh = refl;
  connected = refl;
}

create-eq_ok_example :
    let (r, w') = create jobs platform (resolves acked) id 5 upload start in
    (r ≡ ok (record { job = new_job; deduplicated = false }))
    × (jobs.find_one_by id w'.rows ≡ some new_job)
    × (file_at (target jobs platform (resolves acked) id 5 upload) w'.files ≡ some (7 ∷ 8 ∷ []))
    × (w'.taken ≡ start.taken ++ message jobs platform (resolves acked) id 5 upload ∷ [])
create-eq_ok_example =
    create-eq_ok jobs platform (resolves acked) id 5 upload start (7 ∷ 8 ∷ []) (start-IsNew acked)
      refl refl

abbrev unsaved : Outcomes
unsaved = record (resolves acked) { saves = false }

start-IsNew-unsaved : IsNew jobs platform unsaved upload start (7 ∷ 8 ∷ [])
start-IsNew-unsaved =
    let n = start-IsNew acked in
    record {
      valid = n.valid;
      uploaded = n.uploaded;
      reads = n.reads;
      finds = n.finds;
      renames = n.renames;
      deletes = n.deletes;
      unlinks = n.unlinks;
      fresh = n.fresh;
      connected = n.connected;
    }

create_unsaved_example :
    let (r, w') = create jobs platform unsaved id 5 upload start in
    (r ≡ err internal)
    × (file_at (target jobs platform unsaved id 5 upload) w'.files ≡ some (7 ∷ 8 ∷ []))
    × (w'.rows ≡ start.rows)
    × (w'.taken ≡ start.taken)
create_unsaved_example =
    create_unsaved jobs platform unsaved id 5 upload start (7 ∷ 8 ∷ []) start-IsNew-unsaved refl

create_lost_example :
    let (r, w') = create jobs platform (resolves lost) id 5 upload start in
    (r ≡ err (http 503 (codes "Transcription queue unavailable")))
    × (w'.taken ≡ start.taken ++ message jobs platform (resolves lost) id 5 upload ∷ [])
    × (jobs.find_one_by id w'.rows ≡ none)
    × (file_at (target jobs platform (resolves lost) id 5 upload) w'.files ≡ none)
create_lost_example =
    create_lost jobs platform (resolves lost) id 5 upload start (7 ∷ 8 ∷ []) (start-IsNew lost) refl
      refl

-- ===== src/Controller/Uploads.antt =====
-- What a client can rely on after `POST /v1/transcriptions`.
use scribeflow.Prelude.{ℕ, ◌≡◌, refl, ◌⊎◌, inl, inr, Bool, true, [], some, arith, Bool-cases}
use mathlib.Core.Option
use scribeflow.Floats.{Floats}
use scribeflow.Text.{Text}
use scribeflow.Jobs.{completed, Job, CreatedJobDto, to_job_detail}
use scribeflow.Store.{JobStore}
use scribeflow.Storage.{file_at}
use scribeflow.Service.{
  MulterFile, CreateResult, ok, err, Result, Outcomes, Platform, World, create, find_by_id, M,
  then_with,
}
use scribeflow.Service.Create.{IsQueued, create-IsQueued, create-duplicate}
use scribeflow.Controller.{Response, post, get, created_response}

module _ (F : Floats) where
  open F use {Number}

  module _ {S : JobStore Number} where
    pub then_with-ok :
        {A B : Type 0} (x : Result A × World S) (f : A → M S B) (b : B) (w' : World S)
        → then_with {S = S} x f ≡ (ok b, w')
        → (a : A) × (v : World S) × (x ≡ (ok a, v)) × (f a v ≡ (ok b, w'))
    then_with-ok (ok a, v) f b w' e = (a, v, refl, e)
    then_with-ok (err failure, v) f b w' e = absurd (ground (arith, e))

  module _ (S : JobStore Number) (P : Platform Number) (o : Outcomes) (job_id : Text) (now : ℕ)
      (file : MulterFile) (w w' : World S) where
    post-create :
        (response : Response CreatedJobDto)
        → post F S P o job_id now (some file) w ≡ (ok response, w')
        → (r : CreateResult Number) × (create S P o job_id now file w ≡ (ok r, w'))
          × (response ≡ created_response F S P o r)
    unfolding post
    post-create response e =
        let (r, v, c, same) = then_with-ok (create S P o job_id now file w) _ response w' e in
        (r, ground (arith, c, same), ground (arith, same))

    -- The two answers to an upload: 202 with the id of a new job that is queued, and 200 with the
    -- id of a completed job that has the hash of the upload, the table and the messages unchanged.
    pub record IsAnswered (response : Response CreatedJobDto) : Type 0 where
      pub job : Job Number
      pub id : response.body.id ≡ job.id
      pub state : response.body.status ≡ job.status
      pub row : S.find_one_by job.id w'.rows ≡ some job
      pub cases :
          ((response.status ≡ 202) × IsQueued S P job_id file w job w')
          ⊎ ((response.status ≡ 200)
              × (job.status ≡ completed)
              × (job.content_hash ≡ Option.map P.digest (file_at file.path w.files))
              × (w'.rows ≡ w.rows)
              × (w'.taken ≡ w.taken))

    -- Every upload that is answered without an error is answered in one of two ways: with 202 and
    -- the id of a job that is now in the table, queued, with its file and its one message; or with
    -- 200 and the id of a completed job that was in the table and has the hash of the upload, while
    -- the table and the messages are as before.
    pub post-IsAnswered :
        (response : Response CreatedJobDto)
        → post F S P o job_id now (some file) w ≡ (ok response, w')
        → IsAnswered response
    post-IsAnswered response e =
        let (r, c, same) = post-create response e in
        elim (Bool-cases r.deduplicated) [
          | inl d ↦
              let (done, there, hashed, rows, taken, _) =
                create-duplicate S P o job_id now file w w' r c d in
              record {
                job = r.job;
                id = ground (arith, same);
                state = ground (arith, same);
                row = ground (arith, rows, there);
                cases = inr (ground (arith, same, d), done, hashed, rows, taken);
              }
          | inr d ↦
              let q = create-IsQueued S P o job_id now file w w' r c d in
              record {
                job = r.job;
                id = ground (arith, same);
                state = ground (arith, same);
                row = ground (arith, q.id, q.row);
                cases = inl (ground (arith, same, d), q);
              }
        ]

    -- After an upload that is answered without an error, asking for the job by the id of the answer
    -- gives 200 and the detail of the same job, with the same status, if the id is a UUID and the
    -- table can be read; and nothing changes by asking.
    pub get-post :
        (response : Response CreatedJobDto) (is_uuid : Text → Bool) (later : Outcomes)
        → post F S P o job_id now (some file) w ≡ (ok response, w')
        → is_uuid response.body.id ≡ true
        → later.finds ≡ true
        → (job : Job Number) × (get F S P later is_uuid response.body.id w'
            ≡ (ok (record { status = 200; headers = []; body = to_job_detail job }), w'))
          × (job.id ≡ response.body.id)
          × (job.status ≡ response.body.status)
    unfolding get find_by_id
    get-post response is_uuid later e u f =
        let a = post-IsAnswered response e in
        (a.job, ground (arith, a.id, a.row, u, f), ground (arith, a.id), ground (arith, a.state))

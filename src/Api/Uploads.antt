-- ===== src/Api/Uploads.antt =====
-- What an upload that the API answers with a job has come through and done.
use scribeflow.Prelude.{
  ◌≤◌, ◌≡◌, ap, sym, ◌∙◌, ◌⊎◌, inl, inr, Bool, [], ◌∷◌, ◌++◌, Option, none, some, some_inj, arith,
  length,
}
use scribeflow.Prelude.Int.{ℤ}
use mathlib.Core.Option
use scribeflow.Floats.{Floats}
use scribeflow.Text.{Text, codes}
use scribeflow.Upload.Accepts.{IsAllowedName, IsAllowedMime, validate_upload_iff}
use scribeflow.Auth.Keys.{HasKey, can_activate_decides}
use scribeflow.Config.{EnvironmentVariables}
use scribeflow.Jobs.{queued, completed, Job, CreatedJobDto}
use scribeflow.Storage.{file_at}
use scribeflow.Store.{JobStore}
use scribeflow.Service.{Failure, http, internal, Platform, World}
use scribeflow.Controller.{file_size_limit}
use scribeflow.Controller.Uploads.{post-IsAnswered}
use scribeflow.Api.Guarded.{
  IsPrivateOrProbe, endpoints-IsPrivateOrProbe, IsFound, find_route-IsFound, asked, HasKey-granted,
}
use scribeflow.Api.{
  endpoints, find_route, Part, Request, Turn, Match, Found, created, Answer, not_found, bad_path,
  endpoint, described, P, passed, routed, handle, parsed_with, documented, Document,
}
use scribeflow.Api.Posts.{file_at-first, with_upload, IsPosted, dispatch-created}

module _ (F : Floats) where
  open F use {Number}

  module _ (S : JobStore Number) (platform : Platform Number) (env : EnvironmentVariables)
      (turn : Turn) where
    module _ {Value : Type 0} (is_uuid : Text → Bool) (integer_of : Value → Option ℤ)
        (request : Request Value) (w : World S) where
      -- What has happened when the API answers with a created or an existing job.
      pub record IsUploaded (dto : CreatedJobDto) (answer : Answer Number) (w' : World S)
          : Type 0 where
        pub key : HasKey (request.header (codes "x-api-key")) env.api_key
        pub part : Part
        pub sent : request.file ≡ some part
        pub fits : length part.bytes ≤ file_size_limit env.max_upload_mb
        pub name : IsAllowedName platform.unicode_lower part.original_name
        pub mime : IsAllowedMime part.mime_type
        pub job : Job Number
        pub id : dto.id ≡ job.id
        pub state : dto.status ≡ job.status
        pub row : S.find_one_by job.id w'.rows ≡ some job
        pub hash : job.content_hash ≡ some (platform.digest part.bytes)
        pub cases :
            ((answer.status ≡ 202)
              × (job.id ≡ turn.job_id)
              × (job.status ≡ queued)
              × (file_at job.file_path w'.files ≡ some part.bytes)
              × (w'.taken
                  ≡ w.taken
                    ++ record { job_id = job.id; file_path = job.file_path; attempt = 0 } ∷ []))
            ⊎ ((answer.status ≡ 200)
                × (job.status ≡ completed)
                × (w'.rows ≡ w.rows)
                × (w'.taken ≡ w.taken))

      posted-IsUploaded :
          (dto : CreatedJobDto) (answer : Answer Number) (w' : World S)
          → HasKey (request.header (codes "x-api-key")) env.api_key
          → IsPosted F S platform env turn is_uuid integer_of request w request.file dto
              (answer, w')
          → IsUploaded dto answer w'
      posted-IsUploaded dto answer w' key p =
          let mf = described F S platform env turn p.part in
          let v = with_upload F S platform env turn p.part w in
          let a =
            post-IsAnswered F S (P F S platform env turn) turn.outcomes turn.job_id turn.now mf v w'
              p.response p.done in
          let (name, mime) =
            (validate_upload_iff platform.unicode_lower p.part.original_name p.part.mime_type).0
              p.valid in
          let here : file_at mf.path v.files ≡ some p.part.bytes =
            file_at-first mf.path p.part.bytes w.files in
          record {
            key = key;
            part = p.part;
            sent = p.sent;
            fits = p.fits;
            name = name;
            mime = mime;
            job = a.job;
            id = rw (← p.body) a.id;
            state = rw (← p.body) a.state;
            row = a.row;
            hash = elim a.cases [
              | inl (s, q) ↦
                  q.hash
                  ∙ ap {B = Option Text} (λ b. some (platform.digest b))
                      (some_inj (sym q.uploaded ∙ here))
              | inr (s, done, hash, rows, taken) ↦
                  hash ∙ ap (λ b. Option.map platform.digest b) here
            ];
            cases = elim a.cases [
              | inl (s, q) ↦ inl (
                p.same_status ∙ s,
                q.id,
                q.status,
                q.kept ∙ sym q.uploaded ∙ here,
                q.sent
                    ∙ ap
                        (λ i.
                          w.taken
                          ++ record { job_id = i; file_path = a.job.file_path; attempt = 0 } ∷ [])
                        (sym q.id),
              )
              | inr (s, done, hash, rows, taken) ↦ inr (p.same_status ∙ s, done, rows, taken)
            ];
          }

      routed-IsUploaded :
          (found : Found) (dto : CreatedJobDto)
          → IsFound IsPrivateOrProbe found
          → let (answer, w') = routed F S platform env turn is_uuid integer_of request found w in
            answer.body ≡ created dto → IsUploaded dto answer w'
      routed-IsUploaded not_found dto q b = absurd (cc b)
      routed-IsUploaded bad_path dto q b = absurd (cc b)
      routed-IsUploaded (endpoint e id) dto q b =
          elim (can_activate_decides env.api_key
            (asked F S platform env turn is_uuid integer_of request w e)) [
              | inr (r, _) ↦ absurd (cc (rw (r, passed) at b))
              | inl (g, _) ↦
                  let (handler, p) =
                    dispatch-created F S platform env turn is_uuid integer_of request w e.handler id
                      dto (rw (g, passed) at b) in
                  elim (HasKey-granted F S platform env turn is_uuid integer_of request w e g q) [
                    | inl probe ↦ absurd (ground (arith, probe, handler))
                    | inr key ↦ rw (g, passed) (posted-IsUploaded dto _ _ key p)
                  ]
            ]

      parsed_with-IsUploaded :
          (matches : Text → Text → Text → Text → Match) (error : Option Failure)
          (dto : CreatedJobDto)
          → let (answer, w') =
              parsed_with F S platform env turn is_uuid integer_of request error matches w in
            answer.body ≡ created dto → IsUploaded dto answer w'
      parsed_with-IsUploaded matches (some (http status text)) dto b = absurd (cc b)
      parsed_with-IsUploaded matches (some internal) dto b = absurd (cc b)
      parsed_with-IsUploaded matches none dto b =
          routed-IsUploaded
            (find_route (λ e. matches e.method e.pattern request.method request.path) endpoints) dto
            (find_route-IsFound IsPrivateOrProbe
              (λ e. matches e.method e.pattern request.method request.path) endpoints
              endpoints-IsPrivateOrProbe)
            b

      documented-IsUploaded :
          (matches : Text → Text → Text → Text → Match) (page : Option Document)
          (dto : CreatedJobDto)
          → let (answer, w') =
              documented F S platform env turn is_uuid integer_of request page matches w in
            answer.body ≡ created dto → IsUploaded dto answer w'
      documented-IsUploaded matches (some page) dto b = absurd (cc b)
      documented-IsUploaded matches none dto b =
          parsed_with-IsUploaded matches request.body_error dto b

      -- When the API answers a request with a job that is created or found again: the request carries
      -- the configured key and an upload within the limit, whose name and type are allowed; the row
      -- of the answer's id has the answer's status and the hash of the uploaded bytes; and either the
      -- answer is 202, the job is new and queued, its file has the uploaded bytes and one message has
      -- been sent for it, or the answer is 200, the job is completed, and rows and messages are as
      -- before.
      pub handle-IsUploaded :
          (swagger : Text → Text → Option Document) (matches : Text → Text → Text → Text → Match)
          (dto : CreatedJobDto)
          → (handle F S platform env turn is_uuid integer_of request swagger matches w).0.body
            ≡ created dto
          → let (answer, w') =
              handle F S platform env turn is_uuid integer_of request swagger matches w in
            IsUploaded dto answer w'
      unfolding handle
      handle-IsUploaded swagger matches dto b =
          documented-IsUploaded matches (swagger request.method request.path) dto b

-- ===== src/Api/Posts.antt =====
-- An answer with a job comes from the handler of uploads, behind what multer has stored.
use scribeflow.Prelude.{◌≤◌, ◌≡◌, ◌≢◌, refl, Bool, ◌∷◌, Option, none, some, arith, length}
use scribeflow.Prelude.Int.{ℤ}
use scribeflow.Floats.{Floats}
use scribeflow.Text.{Text}
use scribeflow.Text.Equality.{text_eq_refl}
use scribeflow.Upload.{validate_upload}
use scribeflow.Config.{EnvironmentVariables}
use scribeflow.Health.{Health, healthy, unavailable, check}
use scribeflow.Jobs.{CreatedJobDto}
use scribeflow.Storage.{Files, file_at}
use scribeflow.Text.Utf8.{Bytes}
use scribeflow.Store.{JobStore}
use scribeflow.Service.{
  MulterFile, Failure, http, internal, Result, ok, err, Platform, World, then_with,
}
use scribeflow.Controller.{Response, file_size_limit, file_filter, post}
use scribeflow.Controller.Uploads.{then_with-ok}
use scribeflow.Api.{
  Part, Request, Turn, Handler, check_health, create_job, get_job, export_job, list_jobs, Body,
  created, detail, summaries, subtitles, Answer, answer_of, failed, stored, described, upload_path,
  P, intercept, health_answer, dispatch,
}

pub file_at-first :
    (path : Text) (bytes : Bytes) (files : Files)
    → file_at path ((path, bytes) ∷ files) ≡ some bytes
unfolding file_at
file_at-first path bytes files = rw (text_eq_refl path) refl

module _ {Number : Type 0} where
  pub failed-ne_created :
      (failure : Failure) (dto : CreatedJobDto)
      → (failed {Number = Number} failure).body ≢ created dto
  failed-ne_created (http status text) dto e = cc
  failed-ne_created internal dto e = cc

  answer_of-created :
      {A W : Type 0} (body : A → Body Number) (x : Result (Response A) × W) (dto : CreatedJobDto)
      → (answer_of {Number = Number} body x).0.body ≡ created dto
      → (response : Response A) × (x ≡ (ok response, (answer_of {Number = Number} body x).1))
        × (body response.body ≡ created dto)
        × ((answer_of {Number = Number} body x).0.status ≡ response.status)
  answer_of-created body (ok response, w) dto e = (response, refl, e, refl)
  answer_of-created body (err failure, w) dto e = absurd (failed-ne_created failure dto e)

  health_answer-ne_created :
      (h : Health) (dto : CreatedJobDto) → (health_answer {Number = Number} h).body ≢ created dto
  health_answer-ne_created (healthy status) dto e = cc
  health_answer-ne_created (unavailable status database broker) dto e = cc

module _ (F : Floats) where
  open F use {Number}

  module _ (S : JobStore Number) (platform : Platform Number) (env : EnvironmentVariables)
      (turn : Turn) where
    -- The world behind multer.
    abbrev pub with_upload : Part → World S → World S
    with_upload part w = record w {
      files = (upload_path F S platform env turn, part.bytes) ∷ w.files;
    }

    intercept-some :
        (part : Part) (w v : World S) (file : Option MulterFile)
        → intercept F S platform env turn (some part) w ≡ (ok file, v)
        → (file ≡ some (described F S platform env turn part))
          × (v ≡ with_upload part w)
          × (length part.bytes ≤ file_size_limit env.max_upload_mb)
          × (validate_upload platform.unicode_lower part.original_name part.mime_type ≡ none)
    unfolding intercept file_filter
    intercept-some part w v file e = ground arith

    module _ {Value : Type 0} (is_uuid : Text → Bool) (integer_of : Value → Option ℤ)
        (request : Request Value) (w : World S) where
      abbrev outcome : Handler → Text → Answer Number × World S
      outcome handler id = dispatch F S platform env turn is_uuid integer_of request handler id w

      -- The upload has been let through and stored, and the handler has answered it.
      pub record IsPosted (file : Option Part) (dto : CreatedJobDto)
          (result : Answer Number × World S) : Type 0 where
        pub part : Part
        pub sent : file ≡ some part
        pub fits : length part.bytes ≤ file_size_limit env.max_upload_mb
        pub valid : validate_upload platform.unicode_lower part.original_name part.mime_type ≡ none
        pub response : Response CreatedJobDto
        pub same_status : result.0.status ≡ response.status
        pub body : response.body ≡ dto
        pub done :
            post F S
              (P F S platform env turn)
              turn.outcomes
              turn.job_id
              turn.now
              (some (described F S platform env turn part))
              (with_upload part w)
            ≡ (ok response, result.1)

      abbrev post_answer : Option Part → Answer Number × World S
      post_answer file = answer_of created (
          then_with (intercept F S platform env turn file w)
            (λ f. post F S (P F S platform env turn) turn.outcomes turn.job_id turn.now f))

      post_answer-ne_created : (dto : CreatedJobDto) → (post_answer none).0.body ≢ created dto
      unfolding intercept post
      post_answer-ne_created dto e = cc

      posted :
          (file : Option Part) (dto : CreatedJobDto)
          → (post_answer file).0.body ≡ created dto
          → IsPosted file dto (post_answer file)
      posted none dto b = absurd (post_answer-ne_created dto b)
      posted (some part) dto b =
          let (response, e, body, status) = answer_of-created created _ dto b in
          let (file, v, stored, done) = then_with-ok F {S = S} _ _ response _ e in
          let (described, there, fits, valid) = intercept-some part w v file stored in
          record {
            part = part;
            sent = refl;
            fits = fits;
            valid = valid;
            response = response;
            same_status = status;
            body = cc;
            done = rw (described, there) at done;
          }

      pub dispatch-created :
          (handler : Handler) (id : Text) (dto : CreatedJobDto)
          → (outcome handler id).0.body ≡ created dto
          → (handler ≡ create_job) × IsPosted request.file dto (outcome handler id)
      unfolding dispatch
      dispatch-created check_health id dto b =
          absurd (health_answer-ne_created (check turn.database w.publisher) dto b)
      dispatch-created create_job id dto b = (refl, posted request.file dto b)
      dispatch-created get_job id dto b =
          let (r, e, other, _) = answer_of-created detail _ dto b in absurd (cc other)
      dispatch-created export_job id dto b =
          let (r, e, other, _) = answer_of-created subtitles _ dto b in absurd (cc other)
      dispatch-created list_jobs id dto b =
          let (r, e, other, _) = answer_of-created summaries _ dto b in absurd (cc other)

-- ===== src/Api/Tests.antt =====
-- Requests to the API on a table in memory, and the theorems at them.
use scribeflow.Prelude.{ℕ, ◌≡◌, refl, ap, ◌∙◌, true, [], ◌∷◌, Option, none, some, some_inj, arith}
use scribeflow.Prelude.Int.{ℤ, pos}
use scribeflow.Floats.Micros.{micros}
use scribeflow.Text.{Text, codes}
use scribeflow.Text.Utf8.{utf8}
use scribeflow.Auth.{can_activate, constant_time_equals}
use scribeflow.Auth.Keys.{HasKey}
use scribeflow.Jobs.{queued, CreatedJobDto}
use scribeflow.Upload.{validate_upload}
use scribeflow.Storage.{rename, remove, promote, final_path, sha256, file_at, upload_temp_dir}
use scribeflow.Storage.Path.{normalize, join_path}
use scribeflow.Queue.Publisher.{publish_job}
use scribeflow.Store.Memory.{memory}
use scribeflow.Health.{check}
use scribeflow.Service.{World, create, find_by_id}
use scribeflow.Service.Samples.{platform, jobs, id}
use scribeflow.Controller.{file_size_limit, file_filter, post, get}
use scribeflow.Api.{Part, Request, Answer, created, prefixed, handle}
use scribeflow.Api.Guarded.{IsRefused, handle-IsRefused}
use scribeflow.Api.Uploads.{IsUploaded, handle-IsUploaded}
use scribeflow.Api.Samples.{swagger, matches, env, turn, empty}

abbrev sample : Part
sample = record {
  original_name = codes "Sample.MP3";
  mime_type = codes "audio/mpeg";
  bytes = 7 ∷ 8 ∷ [];
}

abbrev asks : Text → Text → Option Text → Option Part → Request ℕ
asks method path key file = record {
  method = method;
  path = path;
  header = λ name. key;
  limit = none;
  offset = none;
  format = none;
  file = file;
  body_error = none;
}

abbrev upload : Option Text → Request ℕ
upload key = asks (codes "POST") (codes "/v1/transcriptions") key (some sample)

abbrev integer_of : ℕ → Option ℤ
integer_of n = some (pos n)

abbrev answered : Request ℕ → Answer ℕ × World jobs
answered request =
    handle micros jobs platform env turn (λ s. true) integer_of request swagger matches empty

everything : Unit {0}
unfolding handle swagger matches can_activate constant_time_equals utf8 create promote sha256
    publish_job memory rename remove file_at validate_upload final_path normalize join_path
    file_filter file_size_limit post upload_temp_dir empty prefixed check get find_by_id
everything = tt

statuses :
    ((answered (upload none)).0.status ≡ 401)
    × ((answered (upload (some (codes "k2")))).0.status ≡ 401)
    × ((answered (upload (some (codes "k1")))).0.status ≡ 202)
    × ((answered (asks (codes "GET") (codes "/health") none none)).0.status ≡ 200)
    × ((answered (asks (codes "GET") (codes "/docs") none none)).0.status ≡ 200)
    × ((answered (asks (codes "GET") (codes "/v1/health") none none)).0.status ≡ 404)
    × ((answered
          (asks (codes "GET") (codes "/v1/transcriptions/j9") (some (codes "k1")) none)).0.status
        ≡ 404)
unfolding everything
statuses = (refl, refl, refl, refl, refl, refl, refl)

no_key : ¬ HasKey (some (codes "k2")) (codes "k1")
unfolding utf8
no_key (k, e, full, same) =
    let differ : utf8 (codes "k2") ≡ utf8 (codes "k1") = ap utf8 (some_inj e) ∙ same in ground arith

handle-IsRefused_example :
    IsRefused micros jobs platform env turn
      (λ s. true)
      integer_of
      (upload (some (codes "k2")))
      empty
      (answered (upload (some (codes "k2")))).0
      (answered (upload (some (codes "k2")))).1
      (swagger (codes "POST") (codes "/v1/transcriptions"))
handle-IsRefused_example =
    handle-IsRefused micros jobs platform env turn (λ s. true) integer_of
      (upload (some (codes "k2"))) empty swagger matches no_key

abbrev dto : CreatedJobDto
dto = record { id = id; status = queued }

answers_created : (answered (upload (some (codes "k1")))).0.body ≡ created dto
unfolding everything
answers_created = refl

handle-IsUploaded_example :
    IsUploaded micros jobs platform env turn
      (λ s. true)
      integer_of
      (upload (some (codes "k1")))
      empty
      dto
      (answered (upload (some (codes "k1")))).0
      (answered (upload (some (codes "k1")))).1
handle-IsUploaded_example =
    handle-IsUploaded micros jobs platform env turn (λ s. true) integer_of
      (upload (some (codes "k1"))) empty swagger matches dto answers_created

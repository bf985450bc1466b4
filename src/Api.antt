-- ===== src/Api.antt =====
-- A request to the API as a whole: the routes (Routes), the guard of api/src/app.module.ts, the
-- storage of uploads of api/src/transcriptions/transcriptions.module.ts, and the handlers of
-- health.controller.ts and transcriptions.controller.ts. `matches` is Express's matching of a path
-- against a route, and `swagger` what the routes of Swagger answer to a method and a path: main.ts
-- mounts them before Nest mounts its body parser and the routes of the controllers.
pub mod Guarded
pub mod Posts
pub mod Proxied
pub mod Uploads
mod Routes
mod Samples
mod Tests
use scribeflow.Prelude.{
  ℕ, Bool, List, [], ◌∷◌, ◌++◌, Option, none, some, ltb, if◌then◌else◌, length,
}
use scribeflow.Prelude.Int.{ℤ}
use scribeflow.Floats.{Floats}
use scribeflow.Text.{Text, codes, text_eq}
use scribeflow.Auth.{
  is_public_key, ExecutionContext, Verdict, granted, unauthorized, crashed, can_activate,
}
use scribeflow.Config.{EnvironmentVariables}
use scribeflow.Health.{Health, healthy, unavailable, check}
use scribeflow.Jobs.{CreatedJobDto, JobSummaryDto, JobDetailDto}
use scribeflow.Storage.{upload_temp_dir}
use scribeflow.Storage.Path.{join_path}
use scribeflow.Store.{JobStore}
use scribeflow.Service.{
  MulterFile, Failure, http, internal, Result, ok, err, Platform, World, M, ◌>>=◌, return,
}
use scribeflow.Controller.{Response, file_size_limit, file_filter, post, get}
use scribeflow.Controller.Query.{list_request, export_query}
unfoldable pub use Routes.*

pub data Body (Number : Type 0) : Type 0 where
  created : CreatedJobDto → Body Number
  detail : JobDetailDto Number → Body Number
  summaries : List (JobSummaryDto Number) → Body Number
  subtitles : Text → Body Number
  health : Health → Body Number
  message : Text → Body Number
  document : Text → Body Number

pub record Answer (Number : Type 0) : Type 0 where
  pub status : ℕ
  pub headers : List (Text × Text)
  pub body : Body Number

abbrev pub plain : {Number : Type 0} → ℕ → Body Number → Answer Number
plain status body = record { status = status; headers = []; body = body }

abbrev pub failed : {Number : Type 0} → Failure → Answer Number
failed (http status text) = plain status (message text)
failed internal = plain 500 (message (codes "Internal server error"))

abbrev pub answer_of :
    {Number A W : Type 0} → (A → Body Number) → Result (Response A) × W → Answer Number × W
answer_of body (ok response, w) =
    (record { status = response.status; headers = response.headers; body = body response.body }, w)
answer_of body (err failure, w) = (failed failure, w)

abbrev pub health_answer : {Number : Type 0} → Health → Answer Number
health_answer (healthy status) = plain 200 (health (healthy status))
health_answer (unavailable status database broker) =
    plain 503 (health (unavailable status database broker))

module _ (F : Floats) where
  open F use {Number}

  module _ (S : JobStore Number) (platform : Platform Number) (env : EnvironmentVariables)
      (turn : Turn) where
    -- The service's platform, with the directory of the environment.
    abbrev pub P : Platform Number
    P = record platform { audio_dir = env.audio_dir }

    abbrev pub upload_path : Text
    upload_path = join_path (upload_temp_dir env.audio_dir) (turn.upload_id ++ codes ".upload")

    abbrev pub described : Part → MulterFile
    described part = record {
      original_name = part.original_name;
      mime_type = part.mime_type;
      path = upload_path;
    }

    -- What multer stores of a part that the filter lets through. A part that is too large is removed
    -- again.
    abbrev pub stored : Part → M S (Option MulterFile)
    stored part w =
        if ltb (file_size_limit env.max_upload_mb) (length part.bytes)
        then (err (http 413 (codes "File too large")), w)
        else if turn.writes
        then (ok (some (described part)), record w { files = (upload_path, part.bytes) ∷ w.files })
        else (err internal, w)

    abbrev pub filtered : Option Failure → Part → M S (Option MulterFile)
    filtered (some failure) part w = (err failure, w)
    filtered none part w = stored part w

    -- `FileInterceptor('file')` with the options of the module.
    unfoldable pub intercept : Option Part → M S (Option MulterFile)
    intercept none w = (ok none, w)
    intercept (some part) w =
        filtered (file_filter platform.unicode_lower part.original_name part.mime_type) part w

    module _ {Value : Type 0} (is_uuid : Text → Bool) (integer_of : Value → Option ℤ)
        (request : Request Value) where
      open turn use {outcomes}

      -- The interceptor, the pipes and the handler of a route.
      unfoldable pub dispatch : Handler → Text → World S → Answer Number × World S
      unfolding intercept
      dispatch check_health id w = (health_answer (check turn.database w.publisher), w)
      dispatch create_job id w =
          answer_of created
            ((do file ← intercept request.file; post F S P outcomes turn.job_id turn.now file) w)
      dispatch get_job id w = answer_of detail (get F S P outcomes is_uuid id w)
      dispatch export_job id w =
          answer_of subtitles (export_query F S P outcomes is_uuid id request.format w)
      dispatch list_jobs id w =
          answer_of summaries
            (list_request integer_of F S P outcomes request.limit request.offset w)

      abbrev pub context : Endpoint → ExecutionContext
      context e = record {
        reflected = λ key. if text_eq key is_public_key then e.public else none;
        header = request.header;
      }

      abbrev pub passed : Verdict → Handler → Text → World S → Answer Number × World S
      passed granted handler id w = dispatch handler id w
      passed (unauthorized text) handler id w = (failed (http 401 text), w)
      passed crashed handler id w = (failed internal, w)

      abbrev pub routed : Found → World S → Answer Number × World S
      routed not_found w = (failed (http 404 (codes "Not Found")), w)
      routed bad_path w = (failed (http 400 (codes "Bad Request")), w)
      routed (endpoint e id) w = passed (can_activate env.api_key (context e)) e.handler id w

      -- The body parser, and the routes behind it.
      abbrev pub parsed_with :
          Option Failure → (Text → Text → Text → Text → Match) → World S → Answer Number × World S
      parsed_with (some failure) matches w = (failed failure, w)
      parsed_with none matches w =
          routed
            (find_route (λ e. matches e.method e.pattern request.method request.path) endpoints) w

      -- The routes of Swagger, and what is behind them.
      abbrev pub documented :
          Option Document → (Text → Text → Text → Text → Match) → World S → Answer Number × World S
      documented (some page) matches w = (plain page.status (document page.text), w)
      documented none matches w = parsed_with request.body_error matches w

      -- The answer of the API to a request, and what it leaves behind. `matches` takes the method and
      -- the pattern of a route, and those of the request.
      unfoldable pub handle :
          (Text → Text → Option Document)
          → (Text → Text → Text → Text → Match)
          → World S
          → Answer Number × World S
      unfolding dispatch find_route
      handle swagger matches w = documented (swagger request.method request.path) matches w

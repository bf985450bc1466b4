-- ===== src/Api/Routes.antt =====
-- The requests of the API, and its routes: the decorators of the controllers under the prefix of
-- api/src/main.ts.
use scribeflow.Prelude.{ℕ, Bool, true, List, [], ◌∷◌, ◌++◌, Option, none, some, if◌then◌else◌}
use scribeflow.Text.{Text, codes, text_eq, has}
use scribeflow.Text.Utf8.{Bytes}
use scribeflow.Service.{Failure, Outcomes}

-- The part `file` of a multipart body.
pub record Part : Type 0 where
  pub original_name : Text
  pub mime_type : Text
  pub bytes : Bytes

pub record Request (Value : Type 0) : Type 0 where
  pub method : Text
  pub path : Text
  pub header : Text → Option Text
  -- the values of the query
  pub limit : Option Value
  pub offset : Option Value
  pub format : Option Text
  pub file : Option Part
  -- the error of Nest's body parser, if it cannot read the body
  pub body_error : Option Failure

-- What happens during a request: how its calls end, whether the query of the probe resolves and
-- multer can write, and the new ids and the time that it takes.
pub record Turn : Type 0 where
  pub outcomes : Outcomes
  pub database : Bool
  pub writes : Bool
  pub upload_id : Text
  pub job_id : Text
  pub now : ℕ

pub data Handler : Type 0 where
  check_health create_job get_job export_job list_jobs : Handler

pub record Endpoint : Type 0 where
  pub method : Text
  pub pattern : Text
  -- what `Public()` has set
  pub public : Option Bool
  pub handler : Handler

-- What the routes that `SwaggerModule.setup('docs', …)` mounts answer.
pub record Document : Type 0 where
  pub status : ℕ
  pub text : Text

-- A path may fit a route, with the value of its `:id` if it has one, or fit with an id that cannot
-- be decoded.
pub data Match : Type 0 where
  differs : Match
  fits : Text → Match
  undecodable : Match

-- `app.setGlobalPrefix('v1', { exclude: ['health'] })`
unfoldable pub prefixed : Text → Text
unfolding text_eq
prefixed path = if has (codes "health" ∷ []) path then b'/' ∷ path else codes "/v1/" ++ path

-- `@Controller('health')` and `@Controller('transcriptions')` with the decorators of their methods.
abbrev pub check_route : Endpoint
check_route = record {
  method = codes "GET";
  pattern = prefixed (codes "health");
  public = some true;
  handler = check_health;
}

abbrev pub create_route : Endpoint
create_route = record {
  method = codes "POST";
  pattern = prefixed (codes "transcriptions");
  public = none;
  handler = create_job;
}

abbrev pub get_route : Endpoint
get_route = record {
  method = codes "GET";
  pattern = prefixed (codes "transcriptions/:id");
  public = none;
  handler = get_job;
}

abbrev pub export_route : Endpoint
export_route = record {
  method = codes "GET";
  pattern = prefixed (codes "transcriptions/:id/export");
  public = none;
  handler = export_job;
}

abbrev pub list_route : Endpoint
list_route = record {
  method = codes "GET";
  pattern = prefixed (codes "transcriptions");
  public = none;
  handler = list_jobs;
}

-- The routes in the order of the modules and the methods.
abbrev pub endpoints : List Endpoint
endpoints = check_route ∷ create_route ∷ get_route ∷ export_route ∷ list_route ∷ []

-- The first route that takes the request.
pub data Found : Type 0 where
  not_found : Found
  bad_path : Found
  endpoint : Endpoint → Text → Found

abbrev pub first_match : Match → Endpoint → Found → Found
first_match differs e later = later
first_match (fits id) e later = endpoint e id
first_match undecodable e later = bad_path

unfoldable pub find_route : (Endpoint → Match) → List Endpoint → Found
find_route matching [] = not_found
find_route matching (e ∷ es) = first_match (matching e) e (find_route matching es)

-- ===== src/Config/Tests.antt =====
-- An environment as docker-compose.yml sets it, and refused ones.
use scribeflow.Prelude.{
  ◌≡◌, ◌≢◌, ◌↔◌, refl, Bool, true, false, List, [], ◌∷◌, Option, none, some, arith, All,
  if◌then◌else◌,
}
use scribeflow.Prelude.Int.{ℤ, pos}
use scribeflow.Text.{Text, codes, text_eq, join}
use scribeflow.Text.Utf8.{IsScalarUnit}
use scribeflow.Auth.{ExecutionContext}
use scribeflow.Config.{
  EnvironmentVariables, Constraint, is_string, is_not_empty, is_int, min_1, returns, throws,
  validate_env,
}
use scribeflow.Config.Accepts.{IsFrom, validate_env_iff}

-- The values are strings; of the numerals, the tests use two.
abbrev integer_of : Text → Option ℤ
integer_of value =
    if text_eq value (codes "50")
    then some (pos 50)
    else if text_eq value (codes "0")
    then some (pos 0)
    else none

abbrev word : Constraint → Text
word is_string = codes "string"
word is_not_empty = codes "empty"
word is_int = codes "int"
word min_1 = codes "min"

abbrev messages : Text → List Constraint → List Text
messages property [] = []
messages property (c ∷ cs) = word c ∷ messages property cs

abbrev config : Text → Text → Option Text
config limit name =
    if text_eq name (codes "MAX_UPLOAD_MB")
    then some limit
    else if text_eq name (codes "PORT")
    then none
    else if text_eq name (codes "AUDIO_DIR")
    then none
    else some (codes "k")

abbrev env : EnvironmentVariables
env = record {
  api_key = codes "k";
  port = 3000;
  max_upload_mb = 50;
  database_url = codes "k";
  rabbitmq_url = codes "k";
  audio_dir = codes "/data/audio";
}

accepted :
    validate_env (λ v. v) integer_of (λ v. false) messages (config (codes "50")) ≡ returns env
unfolding validate_env text_eq
accepted = refl

refused :
    (validate_env (λ v. v) integer_of (λ v. false) messages (config (codes "0"))
      ≡ throws (codes "Invalid environment configuration: min"))
    × (validate_env (λ v. v) integer_of (λ v. false) messages (config (codes "many"))
        ≡ throws (codes "Invalid environment configuration: int, min"))
unfolding validate_env text_eq join
refused = (refl, refl)

validate_env_iff_example :
    (validate_env (λ v. v) integer_of (λ v. false) messages (config (codes "50")) ≡ returns env)
    ↔ IsFrom (λ v. v) integer_of (λ v. false) (config (codes "50")) env
validate_env_iff_example =
    validate_env_iff (λ v. v) integer_of (λ v. false) messages (config (codes "50")) env

abbrev request : ExecutionContext
request = record { reflected = λ key. none; header = λ name. some (codes "k") }

not_public : ◌≢◌ {A = Option Bool} none (some true)
not_public = λ e. cc

key-IsScalarUnit : All IsScalarUnit (codes "k")
key-IsScalarUnit = omega arith

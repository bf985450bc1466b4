-- ===== src/Config.antt =====
-- api/src/config/env.validation.ts. `Value` is a value of the environment, and none one that is not
-- set. The conversion of class-transformer is an argument: `text_of` is `String(value)`, and
-- `integer_of` is `Number(value)`, none where that is no integer; `is_at_least_1` says of such a
-- number whether `Min(1)` takes it. The texts of class-validator's messages are an argument, too.
pub mod Accepts
pub mod Effects
mod Tests
use scribeflow.Prelude.{
  ℕ, zero, suc, Bool, List, [], ◌∷◌, ◌++◌, map, Option, none, some, if◌then◌else◌,
}
use scribeflow.Prelude.Int.{ℤ, pos, negsuc}
use scribeflow.Text.{Text, codes, join}

pub record EnvironmentVariables : Type 0 where
  pub api_key : Text
  pub port : ℕ
  pub max_upload_mb : ℕ
  pub database_url : Text
  pub rabbitmq_url : Text
  pub audio_dir : Text

pub data Constraint : Type 0 where
  is_string is_not_empty is_int min_1 : Constraint

-- A property's value, or the constraints that it fails.
pub data Checked (A : Type 0) : Type 0 where
  valid : A → Checked A
  invalid : Constraint → List Constraint → Checked A

-- What `validateEnv` does: it returns, or throws an Error with a message.
pub data Validated : Type 0 where
  returns : EnvironmentVariables → Validated
  throws : Text → Validated

-- `@IsString() @IsNotEmpty()`, on a value that was converted to a string.
abbrev pub not_empty : Text → Checked Text
not_empty [] = invalid is_not_empty []
not_empty (c ∷ text) = valid (c ∷ text)

-- `@IsInt() @Min(1)`, on an integer.
abbrev pub positive : ℤ → Checked ℕ
positive (pos zero) = invalid min_1 []
positive (pos (suc n)) = valid (suc n)
positive (negsuc n) = invalid min_1 []

-- The same on a number, which may not be an integer.
abbrev pub positive_integer : Option ℤ → Bool → Checked ℕ
positive_integer none at_least_1 = invalid is_int (if at_least_1 then [] else min_1 ∷ [])
positive_integer (some n) at_least_1 = positive n

abbrev pub errors_of : {A : Type 0} → Text → Checked A → List (Text × List Constraint)
errors_of property (valid value) = []
errors_of property (invalid first others) = (property, first ∷ others) ∷ []

module _ {Value : Type 0} (text_of : Value → Text) (integer_of : Value → Option ℤ)
    (is_at_least_1 : Value → Bool) where
  -- A property without a default: undefined is neither a string nor full.
  abbrev pub required_text : Option Value → Checked Text
  required_text none = invalid is_string (is_not_empty ∷ [])
  required_text (some value) = not_empty (text_of value)

  abbrev pub text_or : Text → Option Value → Checked Text
  text_or default none = not_empty default
  text_or default (some value) = not_empty (text_of value)

  abbrev pub positive_or : ℕ → Option Value → Checked ℕ
  positive_or default none = positive (pos default)
  positive_or default (some value) = positive_integer (integer_of value) (is_at_least_1 value)

  module _ (messages : Text → List Constraint → List Text) (config : Text → Option Value) where
    -- `errors.map((e) => …).join('; ')` in the message of the Error.
    abbrev pub thrown : List (Text × List Constraint) → Validated
    thrown errors = throws (
        codes "Invalid environment configuration: "
        ++ join (codes "; ") (map (λ e. join (codes ", ") (messages e.0 e.1)) errors))

    -- `validateSync` and what follows it, for the properties in their order.
    abbrev pub verdict :
        Checked Text
        → Checked ℕ
        → Checked ℕ
        → Checked Text
        → Checked Text
        → Checked Text
        → Validated
    verdict (valid key) (valid port) (valid limit) (valid database) (valid broker) (valid dir) =
        returns (record {
          api_key = key;
          port = port;
          max_upload_mb = limit;
          database_url = database;
          rabbitmq_url = broker;
          audio_dir = dir;
        })
    verdict key port limit database broker dir = thrown (
        errors_of (codes "API_KEY") key
        ++ (errors_of (codes "PORT") port
            ++ (errors_of (codes "MAX_UPLOAD_MB") limit
                ++ (errors_of (codes "DATABASE_URL") database
                    ++ (errors_of (codes "RABBITMQ_URL") broker
                        ++ errors_of (codes "AUDIO_DIR") dir)))))

    unfoldable pub validate_env : Validated
    validate_env =
        verdict (required_text (config (codes "API_KEY")))
          (positive_or 3000 (config (codes "PORT")))
          (positive_or 200 (config (codes "MAX_UPLOAD_MB")))
          (required_text (config (codes "DATABASE_URL")))
          (required_text (config (codes "RABBITMQ_URL")))
          (text_or (codes "/data/audio") (config (codes "AUDIO_DIR")))

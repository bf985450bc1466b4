-- ===== src/Config/Effects.antt =====
-- What the guard and the upload options can rely on, since the environment was checked.
use scribeflow.Prelude.{ℕ, ◌≤◌, ◌≡◌, ◌≢◌, ◌↔◌, Bool, true, List, Option, some, arith, All}
use scribeflow.Prelude.Int.{ℤ}
use scribeflow.Text.{Text, codes}
use scribeflow.Text.Utf8.{IsScalarUnit}
use scribeflow.Auth.{is_public_key, ExecutionContext, granted, can_activate}
use scribeflow.Auth.Keys.{can_activate_iff}
use scribeflow.Controller.{file_size_limit}
use scribeflow.Config.{EnvironmentVariables, Constraint, returns, validate_env}
use scribeflow.Config.Accepts.{validate_env_iff, IsGiven-full, OrDefault-positive}

module _ {Value : Type 0} (text_of : Value → Text) (integer_of : Value → Option ℤ)
    (is_at_least_1 : Value → Bool) (messages : Text → List Constraint → List Text)
    (config : Text → Option Value) where
  abbrev pub Accepts : EnvironmentVariables → Type 0
  Accepts env = validate_env text_of integer_of is_at_least_1 messages config ≡ returns env

  file_size_limit-positive : (n : ℕ) → 1 ≤ n → 1048576 ≤ file_size_limit n
  unfolding file_size_limit
  file_size_limit-positive n l = omega arith

  -- With the values of an accepted environment, a route that is not public is open to a request
  -- exactly if its header is the configured key, where no surrogate stands in the keys; and the limit
  -- of an upload is one MiB or more.
  pub can_activate-accepted :
      (env : EnvironmentVariables) (context : ExecutionContext)
      → Accepts env
      → context.reflected is_public_key ≢ some true
      → All IsScalarUnit env.api_key
      → ((k : Text) → context.header (codes "x-api-key") ≡ some k → All IsScalarUnit k)
      → ((can_activate env.api_key context ≡ granted)
          ↔ (context.header (codes "x-api-key") ≡ some env.api_key))
        × (1048576 ≤ file_size_limit env.max_upload_mb)
  can_activate-accepted env context e private plain plain_header =
      let from = (validate_env_iff text_of integer_of is_at_least_1 messages config env).0 e in
      let full = IsGiven-full text_of integer_of is_at_least_1 _ env.api_key from.api_key in
      let (to, back) = can_activate_iff env.api_key context private plain plain_header in
      (
        ((λ g. (to g).0), (λ same. back (same, full))),
        file_size_limit-positive env.max_upload_mb (
            OrDefault-positive text_of integer_of is_at_least_1 200 _ env.max_upload_mb
              (omega arith) from.max_upload_mb),
      )

-- ===== src/Config/Accepts.antt =====
-- Which environments env.validation.ts accepts, and as what.
use scribeflow.Prelude.{
  ℕ, zero, suc, ◌≤◌, ◌≡◌, ◌≢◌, ◌↔◌, refl, sym, ap, Bool, List, [], ◌∷◌, Option, none, some, arith,
  some_inj,
}
use scribeflow.Prelude.Int.{ℤ, pos, negsuc}
use scribeflow.Text.{Text, codes}
use scribeflow.Config.{
  EnvironmentVariables, Constraint, Checked, valid, invalid, Validated, returns, not_empty,
  positive, required_text, text_or, positive_or, positive_integer, verdict, validate_env,
}

not_empty_iff : (s t : Text) → (not_empty s ≡ valid t) ↔ ((s ≡ t) × (t ≢ []))
not_empty_iff [] t = ((λ e. ground arith), (λ (e, ne). ground arith))
not_empty_iff (c ∷ s) t = ((λ e. ground arith), (λ (e, ne). ground arith))

positive_iff : (z : ℤ) (n : ℕ) → (positive z ≡ valid n) ↔ ((z ≡ pos n) × (1 ≤ n))
positive_iff (pos zero) n = ((λ e. ground arith), (λ (e, l). ground arith))
positive_iff (pos (suc m)) n = ((λ e. ground arith), (λ (e, l). ground arith))
positive_iff (negsuc m) n = ((λ e. ground arith), (λ (e, l). ground arith))

positive_integer_iff :
    (read : Option ℤ) (b : Bool) (n : ℕ)
    → (positive_integer read b ≡ valid n) ↔ ((read ≡ some (pos n)) × (1 ≤ n))
positive_integer_iff none b n = ((λ e. ground arith), (λ (e, l). ground arith))
positive_integer_iff (some z) b n = (
  (λ e. let (same, l) = (positive_iff z n).0 e in (ap some same, l)),
  (λ (e, l). (positive_iff z n).1 (some_inj e, l)),
)

module _ {Value : Type 0} (text_of : Value → Text) (integer_of : Value → Option ℤ)
    (is_at_least_1 : Value → Bool) where
  abbrev pub IsText : Value → Text → Type 0
  IsText value text = (text_of value ≡ text) × (text ≢ [])

  abbrev pub IsPositive : Value → ℕ → Type 0
  IsPositive value n = (integer_of value ≡ some (pos n)) × (1 ≤ n)

  -- The value that is set is as described, or none is set and the default is taken.
  abbrev pub IsGiven : {A : Type 0} → Option Value → (Value → A → Type 0) → A → Type 0
  IsGiven none Is a = ⊥
  IsGiven (some value) Is a = Is value a

  abbrev pub OrDefault : {A : Type 0} → A → Option Value → (Value → A → Type 0) → A → Type 0
  OrDefault default none Is a = a ≡ default
  OrDefault default (some value) Is a = Is value a

  required_text_iff :
      (set : Option Value) (t : Text)
      → (required_text text_of integer_of is_at_least_1 set ≡ valid t) ↔ IsGiven set IsText t
  required_text_iff none t = ((λ e. ground arith), (λ x. absurd x))
  required_text_iff (some value) t = not_empty_iff (text_of value) t

  text_or_iff :
      (default : Text) (set : Option Value) (t : Text)
      → default ≢ []
      → (text_or text_of integer_of is_at_least_1 default set ≡ valid t)
        ↔ OrDefault default set IsText t
  text_or_iff default none t full = (
    (λ e. sym ((not_empty_iff default t).0 e).0),
    (λ e. (not_empty_iff default t).1 (sym e, rw e full)),
  )
  text_or_iff default (some value) t full = not_empty_iff (text_of value) t

  positive_or_iff :
      (default : ℕ) (set : Option Value) (n : ℕ)
      → 1 ≤ default
      → (positive_or text_of integer_of is_at_least_1 default set ≡ valid n)
        ↔ OrDefault default set IsPositive n
  positive_or_iff default none n l = (
    (λ e. let (same, at) = (positive_iff (pos default) n).0 e in ground arith),
    (λ e. (positive_iff (pos default) n).1 (ap pos (sym e), rw e l)),
  )
  positive_or_iff default (some value) n l =
      positive_integer_iff (integer_of value) (is_at_least_1 value) n

  pub IsGiven-full : (set : Option Value) (t : Text) → IsGiven set IsText t → t ≢ []
  IsGiven-full none t h = absurd h
  IsGiven-full (some value) t (same, full) = full

  pub OrDefault-positive :
      (default : ℕ) (set : Option Value) (n : ℕ)
      → 1 ≤ default
      → OrDefault default set IsPositive n
      → 1 ≤ n
  OrDefault-positive default none n l e = rw e l
  OrDefault-positive default (some value) n l (same, at) = at

  module _ (config : Text → Option Value) where
    -- The values of `env` are those of the environment, or the defaults.
    pub record IsFrom (env : EnvironmentVariables) : Type 0 where
      pub api_key : IsGiven (config (codes "API_KEY")) IsText env.api_key
      pub port : OrDefault 3000 (config (codes "PORT")) IsPositive env.port
      pub max_upload_mb :
          OrDefault 200 (config (codes "MAX_UPLOAD_MB")) IsPositive env.max_upload_mb
      pub database_url : IsGiven (config (codes "DATABASE_URL")) IsText env.database_url
      pub rabbitmq_url : IsGiven (config (codes "RABBITMQ_URL")) IsText env.rabbitmq_url
      pub audio_dir :
          OrDefault (codes "/data/audio") (config (codes "AUDIO_DIR")) IsText env.audio_dir

  module _ (messages : Text → List Constraint → List Text) (config : Text → Option Value) where
    abbrev decided :
        Checked Text
        → Checked ℕ
        → Checked ℕ
        → Checked Text
        → Checked Text
        → Checked Text
        → Validated
    decided = verdict text_of integer_of is_at_least_1 messages config

    verdict-returns :
        (key : Checked Text) (port limit : Checked ℕ) (database broker dir : Checked Text)
        (env : EnvironmentVariables)
        → decided key port limit database broker dir ≡ returns env
        → (key ≡ valid env.api_key)
          × (port ≡ valid env.port)
          × (limit ≡ valid env.max_upload_mb)
          × (database ≡ valid env.database_url)
          × (broker ≡ valid env.rabbitmq_url)
          × (dir ≡ valid env.audio_dir)
    verdict-returns (valid a) (valid b) (valid c) (valid d) (valid f) (valid g) env e = ground arith
    verdict-returns (invalid x xs) b c d f g env e = ground arith
    verdict-returns (valid a) (invalid x xs) c d f g env e = ground arith
    verdict-returns (valid a) (valid b) (invalid x xs) d f g env e = ground arith
    verdict-returns (valid a) (valid b) (valid c) (invalid x xs) f g env e = ground arith
    verdict-returns (valid a) (valid b) (valid c) (valid d) (invalid x xs) g env e = ground arith
    verdict-returns (valid a) (valid b) (valid c) (valid d) (valid f) (invalid x xs) env e =
        ground arith

    -- The API starts on an environment, and with these values, exactly when the keys and addresses
    -- are set and not empty, the port and the limit of uploads are integers from 1 on or not set,
    -- and the directory is not set or not empty; what is not set has its default.
    pub validate_env_iff :
        (env : EnvironmentVariables)
        → (validate_env text_of integer_of is_at_least_1 messages config ≡ returns env)
          ↔ IsFrom config env
    unfolding validate_env
    validate_env_iff env = (
      (λ e.
          let (k, p, m, d, b, a) = verdict-returns _ _ _ _ _ _ env e in
          record {
            api_key = (required_text_iff _ _).0 k;
            port = (positive_or_iff 3000 _ _ (omega arith)).0 p;
            max_upload_mb = (positive_or_iff 200 _ _ (omega arith)).0 m;
            database_url = (required_text_iff _ _).0 d;
            rabbitmq_url = (required_text_iff _ _).0 b;
            audio_dir = (text_or_iff (codes "/data/audio") _ _ (λ x. cc)).0 a;
          }),
      (λ h.
          rw
            (
              (required_text_iff _ _).1 h.api_key,
              (positive_or_iff 3000 _ _ (omega arith)).1 h.port,
              (positive_or_iff 200 _ _ (omega arith)).1 h.max_upload_mb,
              (required_text_iff _ _).1 h.database_url,
              (required_text_iff _ _).1 h.rabbitmq_url,
              (text_or_iff (codes "/data/audio") _ _ (λ x. cc)).1 h.audio_dir,
            )
            refl),
    )

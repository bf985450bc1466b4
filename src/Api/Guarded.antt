-- ===== src/Api/Guarded.antt =====
-- What a request without the key gets.
use scribeflow.Prelude.{
  ◌≡◌, refl, ◌⊎◌, inl, inr, Bool, List, [], ◌∷◌, Option, none, some, arith, All,
}
use scribeflow.Prelude.Int.{ℤ}
use scribeflow.Floats.{Floats}
use scribeflow.Text.{Text, codes}
use scribeflow.Text.Equality.{text_eq_refl}
use scribeflow.Auth.{ExecutionContext, can_activate, granted, is_public_key}
use scribeflow.Auth.Keys.{HasKey, can_activate_decides}
use scribeflow.Config.{EnvironmentVariables}
use scribeflow.Health.{check}
use scribeflow.Store.{JobStore}
use scribeflow.Service.{Failure, Platform, World}
use scribeflow.Api.{
  Request, Turn, check_health, Endpoint, Match, differs, fits, undecodable, endpoints, Answer,
  Found, not_found, bad_path, endpoint, first_match, find_route, health_answer, dispatch, context,
  passed, routed, handle, parsed_with, documented, plain, failed, document, Document,
}

module _ (Q : Endpoint → Type 0) where
  abbrev pub IsFound : Found → Type 0
  IsFound (endpoint e id) = Q e
  IsFound _ = Unit {0}

  first_match-IsFound :
      (m : Match) (e : Endpoint) (later : Found)
      → Q e
      → IsFound later
      → IsFound (first_match m e later)
  first_match-IsFound differs e later q h = h
  first_match-IsFound (fits id) e later q h = q
  first_match-IsFound undecodable e later q h = tt

  pub find_route-IsFound :
      (matching : Endpoint → Match) (es : List Endpoint)
      → All Q es
      → IsFound (find_route matching es)
  unfolding find_route
  find_route-IsFound matching [] h = tt
  find_route-IsFound matching (e ∷ es) (q, h) =
      first_match-IsFound (matching e) e (find_route matching es) q
        (find_route-IsFound matching es h)

-- Only the probe is public.
abbrev pub IsPrivateOrProbe : Endpoint → Type 0
IsPrivateOrProbe e = (e.handler ≡ check_health) ⊎ (e.public ≡ none)

pub endpoints-IsPrivateOrProbe : All IsPrivateOrProbe endpoints
endpoints-IsPrivateOrProbe = (inl refl, (inr refl, (inr refl, (inr refl, (inr refl, tt)))))

module _ (F : Floats) where
  open F use {Number}

  module _ (S : JobStore Number) (platform : Platform Number) (env : EnvironmentVariables)
      (turn : Turn) {Value : Type 0} (is_uuid : Text → Bool) (integer_of : Value → Option ℤ)
      (request : Request Value) (w : World S) where
    -- The answer has one of the statuses 401, 404 and 400, or is that of the probe; and nothing
    -- changes.
    abbrev pub IsTurnedAway : Answer Number → World S → Type 0
    IsTurnedAway answer w' =
        ((answer.status ≡ 401)
          ⊎ (answer.status ≡ 404)
          ⊎ (answer.status ≡ 400)
          ⊎ (answer ≡ health_answer (check turn.database w.publisher)))
        × (w' ≡ w)

    -- Swagger answers what it takes; behind it, the body parser refuses what it cannot read; and the
    -- rest is turned away.
    pub data IsRefused (answer : Answer Number) (w' : World S) : Option Document → Type 0 where
      documents :
          (page : Document)
          → answer ≡ plain page.status (document page.text)
          → w' ≡ w
          → IsRefused answer w' (some page)
      unreadable :
          (failure : Failure)
          → request.body_error ≡ some failure
          → answer ≡ failed failure
          → w' ≡ w
          → IsRefused answer w' none
      turned_away : request.body_error ≡ none → IsTurnedAway answer w' → IsRefused answer w' none

    abbrev pub asked : Endpoint → ExecutionContext
    asked = context F S platform env turn is_uuid integer_of request

    -- A request that the guard lets through to another route than the probe carries the key.
    pub HasKey-granted :
        (e : Endpoint)
        → can_activate env.api_key (asked e) ≡ granted
        → IsPrivateOrProbe e
        → (e.handler ≡ check_health) ⊎ HasKey (request.header (codes "x-api-key")) env.api_key
    HasKey-granted e g q = elim (can_activate_decides env.api_key (asked e)) [
      | inr (r, _) ↦ absurd (ground (arith, g, r))
      | inl (_, inr key) ↦ inr key
      | inl (_, inl public) ↦ elim q [
        | inl probe ↦ inl probe
        | inr private ↦ absurd (ground (arith, public, private, text_eq_refl is_public_key))
      ]
    ]

    routed-IsTurnedAway :
        (found : Found)
        → ¬ HasKey (request.header (codes "x-api-key")) env.api_key
        → IsFound IsPrivateOrProbe found
        → let (answer, w') = routed F S platform env turn is_uuid integer_of request found w in
          IsTurnedAway answer w'
    unfolding dispatch check
    routed-IsTurnedAway not_found n q = (inr (inl refl), refl)
    routed-IsTurnedAway bad_path n q = (inr (inr (inl refl)), refl)
    routed-IsTurnedAway (endpoint e id) n q = elim (can_activate_decides env.api_key (asked e)) [
      | inr (r, _) ↦ rw (r, passed) (inl refl, refl)
      | inl (g, _) ↦ elim (HasKey-granted e g q) [
        | inl probe ↦ rw (g, probe, dispatch) (inr (inr (inr refl)), refl)
        | inr key ↦ absurd (n key)
      ]
    ]

    parsed_with-IsRefused :
        (matches : Text → Text → Text → Text → Match) (error : Option Failure)
        → request.body_error ≡ error
        → ¬ HasKey (request.header (codes "x-api-key")) env.api_key
        → let (answer, w') =
            parsed_with F S platform env turn is_uuid integer_of request error matches w in
          IsRefused answer w' none
    unfolding find_route
    parsed_with-IsRefused matches (some failure) e n = unreadable failure e refl refl
    parsed_with-IsRefused matches none e n = turned_away e (
        routed-IsTurnedAway
          (find_route (λ e. matches e.method e.pattern request.method request.path) endpoints) n
          (find_route-IsFound IsPrivateOrProbe
            (λ e. matches e.method e.pattern request.method request.path) endpoints
            endpoints-IsPrivateOrProbe))

    documented-IsRefused :
        (matches : Text → Text → Text → Text → Match) (page : Option Document)
        → ¬ HasKey (request.header (codes "x-api-key")) env.api_key
        → let (answer, w') =
            documented F S platform env turn is_uuid integer_of request page matches w in
          IsRefused answer w' page
    documented-IsRefused matches (some page) n = documents page refl refl
    documented-IsRefused matches none n = parsed_with-IsRefused matches request.body_error refl n

    -- A request that does not carry the configured key changes nothing. If it is one that the routes
    -- of Swagger take, it gets their page; otherwise, if the body parser cannot read it, the parser's
    -- error; and otherwise it is answered with 401, 404 or 400, or by the probe of health.
    pub handle-IsRefused :
        (swagger : Text → Text → Option Document) (matches : Text → Text → Text → Text → Match)
        → ¬ HasKey (request.header (codes "x-api-key")) env.api_key
        → let (answer, w') =
            handle F S platform env turn is_uuid integer_of request swagger matches w in
          IsRefused answer w' (swagger request.method request.path)
    unfolding handle
    handle-IsRefused swagger matches n =
        documented-IsRefused matches (swagger request.method request.path) n

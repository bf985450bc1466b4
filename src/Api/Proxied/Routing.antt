-- ===== src/Api/Proxied/Routing.antt =====
-- Express's matching of a path by its parts, and the routes of the API that the proxy asks.
use scribeflow.Prelude.{
  ◌≡◌, ◌≢◌, refl, ◌⊎◌, inl, inr, List, [], ◌∷◌, ◌++◌, arith, length, All, Option, none,
}
use scribeflow.Text.{Text, codes}
use scribeflow.Web.Uri.Plain.{IsPlain}
use scribeflow.Api.{
  prefixed, get_route, export_route, endpoints, Match, differs, fits, endpoint, Found, find_route,
  Document,
}

-- A path of these parts.
abbrev pub joined : List Text → Text
joined [] = []
joined (s ∷ ss) = b'/' ∷ (s ++ joined ss)

abbrev pub id_part : Text
id_part = codes ":id"

-- What the API relies on of Express, for GET requests: a path that has the parts of a route fits it,
-- with what stands in the place of `:id`; and one with more parts or fewer, and a route of another
-- method, do not fit.
pub record RoutesByParts (matches : Text → Text → Text → Text → Match) : Type 0 where
  pub fits_id :
      (before after : List Text) (id : Text)
      → All IsPlain before
      → All IsPlain after
      → IsPlain id
      → matches
          (codes "GET")
          (joined (before ++ id_part ∷ after))
          (codes "GET")
          (joined (before ++ id ∷ after))
        ≡ fits id
  pub other_length :
      (pattern parts : List Text)
      → All (λ p. (p ≡ id_part) ⊎ IsPlain p) pattern
      → All IsPlain parts
      → length pattern ≢ length parts
      → matches (codes "GET") (joined pattern) (codes "GET") (joined parts) ≡ differs
  pub other_method :
      (method pattern path : Text)
      → method ≢ codes "GET"
      → matches method pattern (codes "GET") path ≡ differs

-- The routes of Swagger take what goes to /docs, so nothing under the prefix of the API.
abbrev pub PassesOn : (Text → Text → Option Document) → Type 0
PassesOn swagger = (method path : Text) → swagger method (codes "/v1/" ++ path) ≡ none

health_word-IsPlain : IsPlain (codes "health")
health_word-IsPlain = ground arith

v1_word-IsPlain : IsPlain (codes "v1")
v1_word-IsPlain = ground arith

jobs_word-IsPlain : IsPlain (codes "transcriptions")
jobs_word-IsPlain = ground arith

export_word-IsPlain : IsPlain (codes "export")
export_word-IsPlain = ground arith

abbrev pub before_id : List Text
before_id = codes "v1" ∷ codes "transcriptions" ∷ []

before_id-IsPlain : All IsPlain before_id
before_id-IsPlain = (v1_word-IsPlain, (jobs_word-IsPlain, tt))

abbrev pub after_id : List Text
after_id = codes "export" ∷ []

-- The route that takes a GET request to a path.
unfoldable pub found_at : (Text → Text → Text → Text → Match) → Text → Found
unfolding find_route
found_at matches path = find_route (λ e. matches e.method e.pattern (codes "GET") path) endpoints

module _ (matches : Text → Text → Text → Text → Match) (routes : RoutesByParts matches) (id : Text)
    (plain : IsPlain id) where
  parts-IsPlain : (after : List Text) → All IsPlain after → All IsPlain (before_id ++ id ∷ after)
  parts-IsPlain after h = (v1_word-IsPlain, (jobs_word-IsPlain, (plain, h)))

  probe_differs :
      (after : List Text)
      → All IsPlain after
      → matches
          (codes "GET")
          (joined (codes "health" ∷ []))
          (codes "GET")
          (joined (before_id ++ id ∷ after))
        ≡ differs
  probe_differs after h =
      routes.other_length (codes "health" ∷ []) (before_id ++ id ∷ after)
        (inr health_word-IsPlain, tt) (parts-IsPlain after h) (omega arith)

  create_differs :
      (path : Text) → matches (codes "POST") (joined before_id) (codes "GET") path ≡ differs
  create_differs path = routes.other_method (codes "POST") (joined before_id) path (ground arith)

  pub found_get : found_at matches (joined (before_id ++ id ∷ [])) ≡ endpoint get_route id
  unfolding found_at find_route prefixed
  found_get =
      rw
        (
          probe_differs [] tt,
          create_differs (joined (before_id ++ id ∷ [])),
          routes.fits_id before_id [] id before_id-IsPlain tt plain,
        )
        refl

  pub found_export :
      found_at matches (joined (before_id ++ id ∷ after_id)) ≡ endpoint export_route id
  unfolding found_at find_route prefixed
  found_export =
      rw
        (
          probe_differs after_id (export_word-IsPlain, tt),
          create_differs (joined (before_id ++ id ∷ after_id)),
          routes.other_length (before_id ++ id_part ∷ []) (before_id ++ id ∷ after_id)
              (inr v1_word-IsPlain, (inr jobs_word-IsPlain, (inl refl, tt)))
              (parts-IsPlain after_id (export_word-IsPlain, tt)) (omega arith),
          routes.fits_id before_id after_id id before_id-IsPlain (export_word-IsPlain, tt) plain,
        )
        refl

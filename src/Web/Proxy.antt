-- ===== src/Web/Proxy.antt =====
-- web/lib/api.ts and the route handlers under web/app/api/transcriptions. `fetch` is not modelled: a
-- handler gives the request that it makes, and an answer of the API goes through `passthrough`. A
-- throw is none.
pub mod Address
pub mod Headers
use scribeflow.Prelude.{ℕ, List, [], ◌∷◌, ◌++◌, Option, none, some}
use scribeflow.Text.{Text, codes}
use scribeflow.Text.Utf8.{Bytes}
use scribeflow.Web.Uri.{encode_uri_component}

pub record ApiRequest : Type 0 where
  pub method : Text
  pub url : Text
  pub headers : List (Text × Text)
  -- what is streamed as the body
  pub body : Option Bytes

-- An answer of the API, with `headers.get`.
pub record Upstream : Type 0 where
  pub status : ℕ
  pub header : Text → Option Text
  pub body : Bytes

pub record ProxyResponse : Type 0 where
  pub status : ℕ
  pub headers : List (Text × Text)
  pub body : Bytes

-- `apiHeaders(extra)`, with the variable API_KEY of the environment.
unfoldable pub api_headers : Option Text → List (Text × Text) → Option (List (Text × Text))
api_headers none extra = none
api_headers (some []) extra = none
api_headers (some (c ∷ key)) extra = some ((codes "x-api-key", c ∷ key) ∷ extra)

abbrev pub forwarded_names : List Text
forwarded_names = codes "content-type" ∷ codes "content-disposition" ∷ []

-- `if (value) headers.set(name, value)`, before the headers of the later names.
abbrev pub set_truthy : Text → Option Text → List (Text × Text) → List (Text × Text)
set_truthy name (some (c ∷ value)) headers = (name, c ∷ value) ∷ headers
set_truthy name _ headers = headers

unfoldable pub forward : (Text → Option Text) → List Text → List (Text × Text)
forward header [] = []
forward header (name ∷ names) = set_truthy name (header name) (forward header names)

unfoldable pub passthrough : Upstream → ProxyResponse
unfolding forward
passthrough upstream = record {
  status = upstream.status;
  headers = forward upstream.header forwarded_names;
  body = upstream.body;
}

abbrev pub or_else : Option Text → Text → Text
or_else none fallback = fallback
or_else (some value) fallback = value

-- The request of `POST /api/transcriptions`.
unfoldable pub post_request : Text → Option Text → Option Text → Bytes → Option ApiRequest
unfolding api_headers
post_request api_url key content_type body =
    elim (api_headers key ((codes "content-type", or_else content_type []) ∷ [])) [
      | none ↦ none
      | some headers ↦ some (record {
        method = codes "POST";
        url = api_url ++ codes "/v1/transcriptions";
        headers = headers;
        body = some body;
      })
    ]

abbrev get_with_key : Option Text → Text → Option ApiRequest
get_with_key key url = elim (api_headers key []) [
  | none ↦ none
  | some headers ↦ some (record { method = codes "GET"; url = url; headers = headers; body = none })
]

-- The request of `GET /api/transcriptions/:id`.
unfoldable pub get_request : Text → Option Text → Text → Option ApiRequest
unfolding encode_uri_component api_headers
get_request api_url key id = elim (encode_uri_component id) [
  | none ↦ none
  | some encoded ↦ get_with_key key (api_url ++ (codes "/v1/transcriptions/" ++ encoded))
]

-- The request of `GET /api/transcriptions/:id/export`, with the query's format.
unfoldable pub export_request : Text → Option Text → Text → Option Text → Option ApiRequest
unfolding encode_uri_component api_headers
export_request api_url key id format = elim (encode_uri_component id) [
  | none ↦ none
  | some encoded ↦ elim (encode_uri_component (or_else format (codes "srt"))) [
    | none ↦ none
    | some encoded_format ↦ get_with_key key (
        api_url
        ++ (codes "/v1/transcriptions/"
            ++ (encoded ++ (codes "/export?format=" ++ encoded_format))))
  ]
]

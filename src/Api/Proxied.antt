-- ===== src/Api/Proxied.antt =====
-- The requests of web/app/api/transcriptions/[id]/route.ts and web/app/api/transcriptions/[id]/export/
-- route.ts, as the API takes them.
pub mod Routing
mod Tests
use scribeflow.Prelude.{
  ◌≡◌, ◌≢◌, refl, inl, inr, append-nil, Bool, [], ◌∷◌, ◌++◌, append_assoc, Option, none, some,
  arith,
}
use scribeflow.Prelude.Int.{ℤ}
use scribeflow.Floats.{Floats}
use scribeflow.Text.{Text, codes, text_eq}
use scribeflow.Auth.Keys.{can_activate_decides}
use scribeflow.Config.{EnvironmentVariables}
use scribeflow.Store.{JobStore}
use scribeflow.Service.{Platform, World}
use scribeflow.Controller.{get}
use scribeflow.Controller.Query.{export_query}
use scribeflow.Web.Uri.Plain.{IsPlain, encode_uri_component_plain}
use scribeflow.Web.Proxy.{ApiRequest, api_headers, get_request, export_request}
use scribeflow.Web.Proxy.Headers.{header_of}
use scribeflow.Api.{
  Request, Turn, Endpoint, get_route, export_route, Match, Answer, endpoint, detail, subtitles,
  answer_of, P, dispatch, context, passed, routed, handle, parsed_with, documented, Document,
}
use scribeflow.Api.Proxied.Routing.{
  joined, RoutesByParts, PassesOn, before_id, after_id, found_at, found_get, found_export,
}

-- A request of the proxy as the API receives it, with the format of its query.
abbrev pub received : ApiRequest → Text → Option Text → Request Text
received sent path format = record {
  method = sent.method;
  path = path;
  header = λ name. header_of name sent.headers;
  limit = none;
  offset = none;
  format = format;
  file = none;
  body_error = none;
}

-- What the proxy sends, with the key.
abbrev keyed : Text → Text → ApiRequest
keyed key url = record {
  method = codes "GET";
  url = url;
  headers = (codes "x-api-key", key) ∷ [];
  body = none;
}

get_request_plain :
    (api_url key id : Text)
    → key ≢ []
    → IsPlain id
    → get_request api_url (some key) id
      ≡ some (keyed key (api_url ++ joined (before_id ++ id ∷ [])))
unfolding get_request api_headers
get_request_plain api_url [] id full h = absurd (full refl)
get_request_plain api_url (c ∷ key) id full (_, h) =
    rw (get_request, encode_uri_component_plain id h, append-nil id) refl

export_request_plain :
    (api_url key id format : Text)
    → key ≢ []
    → IsPlain id
    → IsPlain format
    → export_request api_url (some key) id (some format)
      ≡ some (
          keyed key
            (api_url ++ (joined (before_id ++ id ∷ after_id) ++ (codes "?format=" ++ format))))
unfolding export_request api_headers
export_request_plain api_url [] id format full h k = absurd (full refl)
export_request_plain api_url (c ∷ key) id format full (_, h) (_, k) =
    rw
      (
        export_request,
        encode_uri_component_plain id h,
        encode_uri_component_plain format k,
        append_assoc id (codes "/export") (codes "?format=" ++ format),
      )
      refl

module _ (F : Floats) where
  open F use {Number}

  module _ (S : JobStore Number) (platform : Platform Number) (env : EnvironmentVariables)
      (turn : Turn) (is_uuid : Text → Bool) (integer_of : Text → Option ℤ) where
    abbrev answers :
        Request Text
        → (Text → Text → Option Document)
        → (Text → Text → Text → Text → Match)
        → World S
        → Answer Number × World S
    answers request swagger matches w =
        handle F S platform env turn is_uuid integer_of request swagger matches w

    routed_keyed :
        (request : Request Text) (e : Endpoint) (id : Text) (w : World S)
        → request.header (codes "x-api-key") ≡ some env.api_key
        → env.api_key ≢ []
        → routed F S platform env turn is_uuid integer_of request (endpoint e id) w
          ≡ dispatch F S platform env turn is_uuid integer_of request e.handler id w
    routed_keyed request e id w key full =
        elim (can_activate_decides env.api_key
          (context F S platform env turn is_uuid integer_of request e)) [
            | inl (g, _) ↦ rw (g, passed) refl
            | inr (_, n) ↦ absurd (n (inr (env.api_key, key, full, refl)))
          ]

    -- A request to `path` that the proxy sends.
    answers_proxied :
        (swagger : Text → Text → Option Document) (matches : Text → Text → Text → Text → Match)
        (url path : Text) (format : Option Text) (e : Endpoint) (id : Text) (w : World S)
        → env.api_key ≢ []
        → swagger (codes "GET") path ≡ none
        → found_at matches path ≡ endpoint e id
        → answers (received (keyed env.api_key url) path format) swagger matches w
          ≡ dispatch F S platform env turn is_uuid integer_of
              (received (keyed env.api_key url) path format)
              e.handler
              id
              w
    unfolding handle found_at header_of text_eq
    answers_proxied swagger matches url path format e id w full passes found =
        rw (passes, documented, parsed_with, found)
          (routed_keyed (received (keyed env.api_key url) path format) e id w refl full)

    -- The API takes the proxy's request for the job with this id as one for that job, and answers
    -- with what `get` gives.
    abbrev pub IsJobProxied :
        (Text → Text → Option Document)
        → (Text → Text → Text → Text → Match)
        → Text
        → Text
        → World S
        → Type 0
    IsJobProxied swagger matches api_url id w =
        (sent : ApiRequest) × (path : Text) × (get_request api_url (some env.api_key) id
          ≡ some sent)
        × (sent.url ≡ api_url ++ path)
        × (answers (received sent path none) swagger matches w
            ≡ answer_of detail (get F S (P F S platform env turn) turn.outcomes is_uuid id w))

    -- The same for the export of a job in a format, with what `export` gives.
    abbrev pub IsExportProxied :
        (Text → Text → Option Document)
        → (Text → Text → Text → Text → Match)
        → Text
        → Text
        → Text
        → World S
        → Type 0
    IsExportProxied swagger matches api_url id format w =
        (sent : ApiRequest) × (path : Text) × (export_request api_url (some env.api_key) id
            (some format)
          ≡ some sent)
        × (sent.url ≡ api_url ++ (path ++ (codes "?format=" ++ format)))
        × (answers (received sent path (some format)) swagger matches w
            ≡ answer_of subtitles (
                export_query F S (P F S platform env turn) turn.outcomes is_uuid id (some format)
                  w))

    -- The proxy and the API with one key, which is not empty: the proxy's request for a job is answered
    -- with what `get` gives for the id, and its request for an export with what `export_query` gives
    -- for the id and the format, whatever that is, errors included; if the id and the format are made
    -- of letters, digits and dashes, as UUIDs are, and the routes
    -- of Swagger pass on what does not go to /docs, and Express matches paths by their parts.
    pub handle-received :
        (swagger : Text → Text → Option Document) (matches : Text → Text → Text → Text → Match)
        (api_url id format : Text) (w : World S)
        → PassesOn swagger
        → RoutesByParts matches
        → env.api_key ≢ []
        → IsPlain id
        → IsPlain format
        → IsJobProxied swagger matches api_url id w
          × IsExportProxied swagger matches api_url id format w
    unfolding dispatch
    handle-received swagger matches api_url id format w passes routes full plain plain_format = (
      (
        keyed env.api_key (api_url ++ joined (before_id ++ id ∷ [])),
        joined (before_id ++ id ∷ []),
        get_request_plain api_url env.api_key id full plain,
        refl,
        answers_proxied swagger matches (api_url ++ joined (before_id ++ id ∷ []))
            (joined (before_id ++ id ∷ [])) none get_route id w full
            (passes (codes "GET") (codes "transcriptions" ++ joined (id ∷ [])))
            (found_get matches routes id plain),
      ),
      (
        keyed env.api_key
            (api_url ++ (joined (before_id ++ id ∷ after_id) ++ (codes "?format=" ++ format))),
        joined (before_id ++ id ∷ after_id),
        export_request_plain api_url env.api_key id format full plain plain_format,
        refl,
        answers_proxied swagger matches
            (api_url ++ (joined (before_id ++ id ∷ after_id) ++ (codes "?format=" ++ format)))
            (joined (before_id ++ id ∷ after_id)) (some format) export_route id w full
            (passes (codes "GET") (codes "transcriptions" ++ joined (id ∷ after_id)))
            (found_export matches routes id plain),
      ),
    )

-- ===== src/Web/Proxy/Address.antt =====
-- The addresses that the proxy asks.
use scribeflow.Prelude.{
  ℕ, ◌<◌, ◌≡◌, ◌≢◌, refl, false, [], ◌∷◌, ◌++◌, Option, none, some, arith, All, All-weaken,
  All-append,
}
use scribeflow.Text.{Text, codes}
use scribeflow.Text.Utf8.{utf8}
use scribeflow.Text.Split.{Lacks, split_on, split_on-append, split_on_last}
use scribeflow.Web.Uri.{is_malformed, is_unreserved, encode_uri_component}
use scribeflow.Web.Uri.Component.{IsUriUnit, percent_decode, percent_decode-encode_uri_component}
use scribeflow.Web.Proxy.{ApiRequest, or_else, api_headers, export_request}

-- A text that `encodeURIComponent` takes.
pub record IsWellFormed (text : Text) : Type 0 where
  pub units : All (λ u. u < 0x10000) text
  pub paired : is_malformed text ≡ false

unit-ne_slash : (c : ℕ) → IsUriUnit c → c ≢ b'/'
unfolding is_unreserved
unit-ne_slash c h = ground arith

Lacks-slash : (s : Text) → All IsUriUnit s → Lacks b'/' s
Lacks-slash s h = All-weaken s unit-ne_slash h

abbrev path_of : Text → Text → Text
path_of e f = codes "/v1/transcriptions/" ++ (e ++ (codes "/export?format=" ++ f))

split-path :
    (e f : Text)
    → Lacks b'/' e
    → Lacks b'/' f
    → split_on b'/' (path_of e f)
      ≡ [] ∷ codes "v1" ∷ codes "transcriptions" ∷ e ∷ (codes "export?format=" ++ f) ∷ []
split-path e f he hf = simp (
  split_on-append b'/' [] (codes "v1/transcriptions/" ++ (e ++ (codes "/export?format=" ++ f))) tt,
  split_on-append b'/' (codes "v1")
      (codes "transcriptions/" ++ (e ++ (codes "/export?format=" ++ f))) (omega arith),
  split_on-append b'/' (codes "transcriptions") (e ++ (codes "/export?format=" ++ f)) (omega arith),
  split_on-append b'/' e (codes "export?format=" ++ f) he,
  split_on_last b'/' (codes "export?format=" ++ f)
      (All-append _ (codes "export?format=") f (omega arith) hf),
)

export_request-eq_some :
    (api_url : Text) (c : ℕ) (key id : Text) (format : Option Text) (e f : Text)
    → encode_uri_component id ≡ some e
    → encode_uri_component (or_else format (codes "srt")) ≡ some f
    → export_request api_url (some (c ∷ key)) id format
      ≡ some (record {
        method = codes "GET";
        url = api_url ++ path_of e f;
        headers = (codes "x-api-key", c ∷ key) ∷ [];
        body = none;
      })
unfolding export_request api_headers
export_request-eq_some api_url c key id format e f qe qf = rw (export_request, qe, qf) refl

-- The export request of the proxy at an id and a format: its path has exactly the five segments of
-- the API's address, the fourth is read back as the id and the value of the query as the format, and
-- the only header is the key.
pub record IsExportOf (api_url key id format : Text) (request : ApiRequest) : Type 0 where
  pub path : Text
  pub encoded : Text
  pub encoded_format : Text
  pub url : request.url ≡ api_url ++ path
  pub segments :
      split_on b'/' path
      ≡ []
        ∷ codes "v1"
        ∷ codes "transcriptions"
        ∷ encoded
        ∷ (codes "export?format=" ++ encoded_format)
        ∷ []
  pub id_back : percent_decode encoded ≡ utf8 id
  pub format_back : percent_decode encoded_format ≡ utf8 format
  pub units : All IsUriUnit (encoded ++ encoded_format)
  pub headers : request.headers ≡ (codes "x-api-key", key) ∷ []

-- With a key that is set and not empty, the proxy asks the API for an export whatever the id and
-- the format are, if they are well formed: the address has the segments of the export of one job,
-- the id stands in its one segment and the format in the query, each read back by
-- percent-decoding, and nothing but letters, digits, the nine marks and percent signs comes from
-- them.
pub export_request-IsExportOf :
    (api_url : Text) (c : ℕ) (key id : Text) (format : Option Text)
    → IsWellFormed id
    → IsWellFormed (or_else format (codes "srt"))
    → (request : ApiRequest) × (export_request api_url (some (c ∷ key)) id format ≡ some request)
      × IsExportOf api_url (c ∷ key) id (or_else format (codes "srt")) request
export_request-IsExportOf api_url c key id format hid hformat =
    let (e, qe, de, ue) = percent_decode-encode_uri_component id hid.units hid.paired in
    let (f, qf, df, uf) =
      percent_decode-encode_uri_component (or_else format (codes "srt")) hformat.units
        hformat.paired in
    (
      record {
        method = codes "GET";
        url = api_url ++ path_of e f;
        headers = (codes "x-api-key", c ∷ key) ∷ [];
        body = none;
      },
      export_request-eq_some api_url c key id format e f qe qf,
      record {
        path = path_of e f;
        encoded = e;
        encoded_format = f;
        url = refl;
        segments = split-path e f (Lacks-slash e ue) (Lacks-slash f uf);
        id_back = de;
        format_back = df;
        units = All-append IsUriUnit e f ue uf;
        headers = refl;
      },
    )

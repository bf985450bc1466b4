-- ===== src/Web/Tests.antt =====
-- Encoded components, and requests and answers of the proxy.
use scribeflow.Prelude.{◌≡◌, refl, arith, [], ◌∷◌, none, some}
use scribeflow.Text.{Text, codes}
use scribeflow.Web.Uri.{encode_uri_component}
use scribeflow.Web.Proxy.{ApiRequest, Upstream, export_request, post_request}
use scribeflow.Web.Proxy.Address.{IsExportOf, export_request-IsExportOf}

abbrev odd : Text
odd = codes "a/b?é"

encoded_odd : encode_uri_component odd ≡ some (codes "a%2Fb%3F%C3%A9")
unfolding encode_uri_component
encoded_odd = refl

lone_surrogate : encode_uri_component (0xD800 ∷ []) ≡ none
unfolding encode_uri_component
lone_surrogate = refl

no_key : post_request (codes "http://api") none none [] ≡ none
unfolding post_request
no_key = refl

export_request-IsExportOf_example :
    (request : ApiRequest) × (export_request (codes "http://api") (some (codes "key")) odd none
      ≡ some request)
    × IsExportOf (codes "http://api") (codes "key") odd (codes "srt") request
unfolding encode_uri_component
export_request-IsExportOf_example =
    export_request-IsExportOf (codes "http://api") b'k' (codes "ey") odd none
      (record { units = omega arith; paired = refl })
      (record { units = omega arith; paired = refl })

abbrev answer : Upstream
answer = record { status = 200; header = λ name. some (codes "text/vtt"); body = 1 ∷ 2 ∷ [] }

-- ===== src/Web/Proxy/Headers.antt =====
-- What the proxy passes through.
use scribeflow.Prelude.{◌≡◌, refl, List, [], ◌∷◌, Option, none, some, arith, if◌then◌else◌}
use scribeflow.Text.{Text, text_eq, has}
use scribeflow.Text.Equality.{text_eq_iff}
use scribeflow.Web.Proxy.{Upstream, forwarded_names, set_truthy, forward, passthrough}

unfoldable pub header_of : Text → List (Text × Text) → Option Text
header_of name [] = none
header_of name ((other, value) ∷ headers) =
    if text_eq other name then some value else header_of name headers

-- A value that is there and not empty.
abbrev pub truthy : Option Text → Option Text
truthy (some (c ∷ value)) = some (c ∷ value)
truthy _ = none

abbrev or_then : Option Text → Option Text → Option Text
or_then none otherwise = otherwise
or_then (some value) otherwise = some value

header_of-set_truthy :
    (name other : Text) (value : Option Text) (headers : List (Text × Text))
    → header_of name (set_truthy other value headers) ≡ (
        if text_eq other name
        then or_then (truthy value) (header_of name headers)
        else header_of name headers)
unfolding header_of
header_of-set_truthy name other none headers = ground arith
header_of-set_truthy name other (some []) headers = ground arith
header_of-set_truthy name other (some (c ∷ v)) headers = ground arith

or_then_itself : (value : Option Text) → or_then (truthy value) (truthy value) ≡ truthy value
or_then_itself none = refl
or_then_itself (some []) = refl
or_then_itself (some (c ∷ v)) = refl

or_then-none : (value : Option Text) → or_then value none ≡ value
or_then-none none = refl
or_then-none (some v) = refl

header_of-forward :
    (header : Text → Option Text) (names : List Text) (name : Text)
    → header_of name (forward header names)
      ≡ (if has names name then truthy (header name) else none)
unfolding header_of forward
header_of-forward header [] name = refl
header_of-forward header (other ∷ names) name = ground (
  arith,
  header_of-set_truthy name other (header other) (forward header names),
  header_of-forward header names name,
  text_eq_iff other name,
  text_eq_iff name other,
  or_then_itself (header name),
  or_then-none (truthy (header name)),
)

-- The proxy passes the status and the body of an answer through, and of its headers exactly the
-- content type and the content disposition, each if it is there and not empty.
pub header_of-passthrough :
    (upstream : Upstream) (name : Text)
    → let answer = passthrough upstream in
      (answer.status ≡ upstream.status)
      × (answer.body ≡ upstream.body)
      × (header_of name answer.headers
          ≡ (if has forwarded_names name then truthy (upstream.header name) else none))
unfolding passthrough
header_of-passthrough upstream name =
    (refl, refl, header_of-forward upstream.header forwarded_names name)

-- ===== src/Web/Uri.antt =====
-- `encodeURIComponent` of ECMAScript, which the route handlers under web/app/api/transcriptions put
-- an id and a format into an address with.
pub mod Component
pub mod Plain
use scribeflow.Prelude.{
  ℕ, ◌+◌, ◌-◌, ◌/◌, ◌%◌, Bool, false, ◌&&◌, ◌||◌, [], ◌∷◌, ◌++◌, Option, none, some, ltb, leb, ◌==◌,
  if◌then◌else◌, any,
}
use scribeflow.Text.{Text, codes}
use scribeflow.Text.Utf8.{Bytes, utf8, is_high, is_low}

-- The text has a surrogate without a partner, at which `encodeURIComponent` throws.
unfoldable pub is_malformed : Text → Bool
unfolding is_high is_low
is_malformed [] = false
is_malformed (u ∷ []) = is_high u || is_low u
is_malformed (u ∷ v ∷ s) =
    let behind_pair = is_malformed s in
    let behind_unit = is_malformed (v ∷ s) in
    if is_high u && is_low v then behind_pair else is_high u || is_low u || behind_unit

abbrev pub marks : Text
marks = codes "-_.!~*'()"

-- Letters, digits and the marks above stay as they are.
unfoldable pub is_unreserved : ℕ → Bool
is_unreserved c =
    (leb b'a' c && leb c b'z')
    || (leb b'A' c && leb c b'Z')
    || (leb b'0' c && leb c b'9')
    || any (λ d. d == c) marks

abbrev pub hex_digit : ℕ → ℕ
hex_digit n = if ltb n 10 then b'0' + n else b'A' + (n - 10)

unfoldable pub escape : ℕ → Text
unfolding is_unreserved
escape byte =
    if is_unreserved byte
    then byte ∷ []
    else b'%' ∷ hex_digit (byte / 16) ∷ hex_digit (byte % 16) ∷ []

unfoldable pub escape_all : Bytes → Text
unfolding escape
escape_all [] = []
escape_all (byte ∷ bytes) = escape byte ++ escape_all bytes

unfoldable pub encode_uri_component : Text → Option Text
unfolding is_malformed escape_all utf8
encode_uri_component text = if is_malformed text then none else some (escape_all (utf8 text))

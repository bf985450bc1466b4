-- ===== src/Web/Uri/Plain.antt =====
-- Texts of letters, digits and dashes, as UUIDs are, stay as they are in an address.
use scribeflow.Prelude.{
  ℕ, ◌≡◌, ◌≢◌, refl, ap, true, false, ◌&&◌, ◌||◌, [], ◌∷◌, some, arith, leb, ◌==◌, All,
}
use scribeflow.Text.{Text}
use scribeflow.Text.Utf8.{utf8, is_high, is_low, encode_unit}
use scribeflow.Web.Uri.{is_malformed, is_unreserved, escape, escape_all, encode_uri_component}

-- A letter, a digit or a dash.
abbrev pub IsPlainUnit : ℕ → Type 0
IsPlainUnit c =
    ((leb b'a' c && leb c b'z')
      || (leb b'A' c && leb c b'Z')
      || (leb b'0' c && leb c b'9')
      || (c == b'-'))
    ≡ true

abbrev pub IsPlain : Text → Type 0
IsPlain s = (s ≢ []) × All IsPlainUnit s

is_malformed_plain : (s : Text) → All IsPlainUnit s → is_malformed s ≡ false
unfolding is_malformed is_high is_low
is_malformed_plain [] h = refl
is_malformed_plain (u ∷ []) (h, _) = ground arith
is_malformed_plain (u ∷ v ∷ s) (h, hs) = ground (arith, is_malformed_plain (v ∷ s) hs)

utf8_plain : (s : Text) → All IsPlainUnit s → utf8 s ≡ s
unfolding utf8 encode_unit is_high is_low
utf8_plain [] h = refl
utf8_plain (u ∷ []) (h, _) = ground arith
utf8_plain (u ∷ v ∷ s) (h, hs) = ground (arith, utf8_plain (v ∷ s) hs)

escape_plain : (c : ℕ) → IsPlainUnit c → escape c ≡ c ∷ []
unfolding escape is_unreserved
escape_plain c h = ground arith

escape_all_plain : (s : Text) → All IsPlainUnit s → escape_all s ≡ s
unfolding escape_all
escape_all_plain [] h = refl
escape_all_plain (c ∷ s) (h, hs) = rw (escape_plain c h) (ap (λ r. c ∷ r) (escape_all_plain s hs))

pub encode_uri_component_plain : (s : Text) → All IsPlainUnit s → encode_uri_component s ≡ some s
unfolding encode_uri_component
encode_uri_component_plain s h =
    rw (is_malformed_plain s h, utf8_plain s h, escape_all_plain s h) refl

-- ===== src/Web/Uri/Component.antt =====
-- An encoded component is read back by percent-decoding, and none of its units has a meaning in an
-- address.
use scribeflow.Prelude.{
  ℕ, ◌+◌, ◌-◌, ◌*◌, ◌/◌, ◌%◌, ◌<◌, ◌≡◌, ◌≢◌, refl, ap, true, false, ◌||◌, [], ◌∷◌, ◌++◌, some,
  arith, leb, ◌==◌, if◌then◌else◌, All, All-append, Bool-cases, inl, inr,
}
use scribeflow.Text.{Text}
use scribeflow.Text.Utf8.{Bytes, utf8, utf8-IsByte}
use scribeflow.Web.Uri.{
  is_unreserved, hex_digit, escape, escape_all, encode_uri_component, is_malformed,
}

-- A percent sign, or a unit that stays as it is.
abbrev pub IsUriUnit : ℕ → Type 0
IsUriUnit c = (is_unreserved c || (c == b'%')) ≡ true

abbrev hex_value : ℕ → ℕ
hex_value c = if leb c b'9' then c - b'0' else c - b'A' + 10

-- Percent-decoding.
unfoldable pub percent_decode : Text → Bytes
percent_decode [] = []
percent_decode (c ∷ []) = c ∷ []
percent_decode (c ∷ h ∷ []) = c ∷ h ∷ []
percent_decode (c ∷ h ∷ l ∷ s) =
    let decoded = percent_decode s in
    let rest = percent_decode (h ∷ l ∷ s) in
    if c == b'%' then (hex_value h * 16 + hex_value l) ∷ decoded else c ∷ rest

escape-IsUriUnit : (byte : ℕ) → byte < 256 → All IsUriUnit (escape byte)
unfolding escape is_unreserved
escape-IsUriUnit byte h = ground arith

escape_all-IsUriUnit : (bytes : Bytes) → All (λ b. b < 256) bytes → All IsUriUnit (escape_all bytes)
unfolding escape_all
escape_all-IsUriUnit [] h = tt
escape_all-IsUriUnit (b ∷ bytes) (h, hs) =
    All-append IsUriUnit (escape b) (escape_all bytes) (escape-IsUriUnit b h)
      (escape_all-IsUriUnit bytes hs)

percent_decode-unit : (c : ℕ) (s : Text) → c ≢ b'%' → percent_decode (c ∷ s) ≡ c ∷ percent_decode s
unfolding percent_decode
percent_decode-unit c [] h = refl
percent_decode-unit c (x ∷ []) h = refl
percent_decode-unit c (x ∷ y ∷ s) h = ground arith

unreserved-ne_percent : (c : ℕ) → is_unreserved c ≡ true → c ≢ b'%'
unfolding is_unreserved
unreserved-ne_percent c u = ground arith

hex_value-hex_digit : (n : ℕ) → n < 16 → hex_value (hex_digit n) ≡ n
hex_value-hex_digit n h = ground arith

percent_decode-escape :
    (byte : ℕ) (s : Text) → byte < 256 → percent_decode (escape byte ++ s) ≡ byte ∷ percent_decode s
unfolding escape percent_decode
percent_decode-escape byte s h = elim (Bool-cases (is_unreserved byte)) [
  | inl u ↦ rw u (percent_decode-unit byte s (unreserved-ne_percent byte u))
  | inr u ↦
      rw
        (
          u,
          hex_value-hex_digit (byte / 16) (omega arith),
          hex_value-hex_digit (byte % 16) (omega arith),
        )
        (ap (λ b. b ∷ percent_decode s) (omega arith))
]

percent_decode-escape_all :
    (bytes : Bytes) → All (λ b. b < 256) bytes → percent_decode (escape_all bytes) ≡ bytes
unfolding escape_all percent_decode
percent_decode-escape_all [] h = refl
percent_decode-escape_all (b ∷ bytes) (h, hs) =
    rw (percent_decode-escape b (escape_all bytes) h)
      (ap (λ r. b ∷ r) (percent_decode-escape_all bytes hs))

-- A text without a lone surrogate is encoded; decoding gives its UTF-8 bytes back; and every unit of
-- the encoded text is a percent sign, a letter, a digit or one of the nine marks, so that it has no
-- slash, question mark, ampersand or number sign.
pub percent_decode-encode_uri_component :
    (text : Text)
    → All (λ u. u < 0x10000) text
    → is_malformed text ≡ false
    → (encoded : Text) × (encode_uri_component text ≡ some encoded)
      × (percent_decode encoded ≡ utf8 text)
      × All IsUriUnit encoded
unfolding encode_uri_component
percent_decode-encode_uri_component text units formed = (
  escape_all (utf8 text),
  rw formed refl,
  percent_decode-escape_all (utf8 text) (utf8-IsByte text units),
  escape_all-IsUriUnit (utf8 text) (utf8-IsByte text units),
)

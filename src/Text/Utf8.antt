-- ===== src/Text/Utf8.antt =====
-- `Buffer.from(text)`: UTF-8 of a text of UTF-16 code units. A surrogate that has no partner becomes
-- U+FFFD, as in Node.
use scribeflow.Prelude.{
  ℕ, ◌+◌, ◌-◌, ◌*◌, ◌/◌, ◌%◌, ◌<◌, ◌≤◌, ◌≡◌, refl, sym, ◌∙◌, append-nil, ap₂, ◌⊎◌, Bool, ◌&&◌, List,
  [], ◌∷◌, ◌++◌, arith, ltb, leb, if◌then◌else◌, All, All-append, Bool-cases, inl, inr, true,
}
use scribeflow.Text.{Text}

abbrev pub Bytes : Type 0
Bytes = List ℕ

unfoldable pub is_high : ℕ → Bool
is_high u = leb 0xD800 u && ltb u 0xDC00

unfoldable pub is_low : ℕ → Bool
is_low u = leb 0xDC00 u && ltb u 0xE000

-- A unit that is no half of a pair.
unfoldable pub encode_unit : ℕ → Bytes
encode_unit u =
    if ltb u 0x80
    then u ∷ []
    else if ltb u 0x800
    then (0xC0 + u / 64) ∷ (0x80 + u % 64) ∷ []
    else if leb 0xD800 u && ltb u 0xE000
    then 0xEF ∷ 0xBF ∷ 0xBD ∷ []
    else (0xE0 + u / 4096) ∷ (0x80 + u / 64 % 64) ∷ (0x80 + u % 64) ∷ []

-- A high surrogate with the low one behind it.
encode_pair : ℕ → ℕ → Bytes
encode_pair u v =
    let p = 0x10000 + (u - 0xD800) * 1024 + (v - 0xDC00) in
    (0xF0 + p / 262144) ∷ (0x80 + p / 4096 % 64) ∷ (0x80 + p / 64 % 64) ∷ (0x80 + p % 64) ∷ []

unfoldable pub utf8 : Text → Bytes
unfolding encode_unit encode_pair is_high is_low
utf8 [] = []
utf8 (u ∷ []) = encode_unit u
utf8 (u ∷ v ∷ s) =
    let pair = encode_pair u v ++ utf8 s in
    let single = encode_unit u ++ utf8 (v ∷ s) in if is_high u && is_low v then pair else single

-- A code unit that stands for a character by itself.
abbrev pub IsScalarUnit : ℕ → Type 0
IsScalarUnit u = (u < 0x10000) × ((u < 0xD800) ⊎ (0xE000 ≤ u))

encode_unit-inj :
    (u v : ℕ) (s t : Bytes)
    → IsScalarUnit u
    → IsScalarUnit v
    → encode_unit u ++ s ≡ encode_unit v ++ t
    → (u ≡ v) × (s ≡ t)
unfolding encode_unit
encode_unit-inj u v s t (hu, ku) (hv, kv) e = ground arith

utf8-cons : (u : ℕ) (s : Text) → IsScalarUnit u → utf8 (u ∷ s) ≡ encode_unit u ++ utf8 s
unfolding utf8
utf8-cons u [] h = sym (append-nil (encode_unit u))
utf8-cons u (v ∷ s) (h, k) = ground arith

encode_unit-ne-nil : (u : ℕ) (s : Bytes) → encode_unit u ++ s ≡ [] → ⊥
unfolding encode_unit
encode_unit-ne-nil u s e = ground arith

-- Texts without surrogates are told apart by their bytes.
pub utf8-inj : (s t : Text) → All IsScalarUnit s → All IsScalarUnit t → utf8 s ≡ utf8 t → s ≡ t
unfolding utf8
utf8-inj [] [] hs ht e = refl
utf8-inj [] (v ∷ t) hs (h, ht) e =
    absurd (encode_unit-ne-nil v (utf8 t) (sym (e ∙ utf8-cons v t h)))
utf8-inj (u ∷ s) [] (h, hs) ht e =
    absurd (encode_unit-ne-nil u (utf8 s) (sym (utf8-cons u s h) ∙ e))
utf8-inj (u ∷ s) (v ∷ t) (h, hs) (k, ht) e =
    let (same, rest) =
      encode_unit-inj u v (utf8 s) (utf8 t) h k (sym (utf8-cons u s h) ∙ (e ∙ utf8-cons v t k)) in
    ap₂ ◌∷◌ same (utf8-inj s t hs ht rest)

encode_unit-IsByte : (u : ℕ) → u < 0x10000 → All (λ b. b < 256) (encode_unit u)
unfolding encode_unit
encode_unit-IsByte u h = ground arith

encode_pair-IsByte :
    (u v : ℕ) → is_high u ≡ true → is_low v ≡ true → All (λ b. b < 256) (encode_pair u v)
unfolding encode_pair is_high is_low
encode_pair-IsByte u v hu hv = ground arith

-- Code units are encoded to bytes.
pub utf8-IsByte : (s : Text) → All (λ u. u < 0x10000) s → All (λ b. b < 256) (utf8 s)
unfolding utf8
utf8-IsByte [] h = tt
utf8-IsByte (u ∷ []) (h, _) = encode_unit-IsByte u h
utf8-IsByte (u ∷ v ∷ s) (h, (k, hs)) = elim (Bool-cases (is_high u && is_low v)) [
  | inl e ↦ rw e (
      All-append (λ b. b < 256) (encode_pair u v) (utf8 s)
        (encode_pair-IsByte u v (ground arith) (ground arith)) (utf8-IsByte s hs))
  | inr e ↦ rw e (
      All-append (λ b. b < 256) (encode_unit u) (utf8 (v ∷ s)) (encode_unit-IsByte u h)
        (utf8-IsByte (v ∷ s) (k, hs)))
]

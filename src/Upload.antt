-- ===== src/Upload.antt =====
-- api/src/storage/upload-validation.ts. Lower-casing is written out for ASCII; what the engine's
-- Unicode tables make of any other text is the parameter `unicode_lower`.
pub mod Extension
pub mod Accepts
mod Tests
use scribeflow.Prelude.{
  ℕ, zero, suc, ◌+◌, Bool, true, not, ◌&&◌, List, [], ◌∷◌, ◌++◌, map, Option, none, some, ltb, leb,
  ◌==◌, if◌then◌else◌, drop,
}
use scribeflow.Text.{Text, codes, has, starts_with, join}

abbrev pub allowed_extensions : List Text
allowed_extensions =
    codes "wav" ∷ codes "mp3" ∷ codes "m4a" ∷ codes "flac" ∷ codes "ogg" ∷ codes "webm" ∷ []

abbrev pub allowed_non_audio_mimes : List Text
allowed_non_audio_mimes =
    codes "application/octet-stream" ∷ codes "application/ogg" ∷ codes "video/webm" ∷ []

pub record UploadRejection : Type 0 where
  pub reason : Text

abbrev all_ascii : Text → Bool
all_ascii [] = true
all_ascii (c ∷ s) = ltb c 128 && all_ascii s

abbrev ascii_lower : ℕ → ℕ
ascii_lower c = if leb b'A' c && leb c b'Z' then c + 32 else c

-- `text.lastIndexOf(c)`, none for -1.
unfoldable pub last_index_of : ℕ → Text → Option ℕ
last_index_of c [] = none
last_index_of c (d ∷ s) = elim (last_index_of c s) [
  | some i ↦ some (suc i)
  | none ↦ if d == c then some 0 else none
]

module _ (unicode_lower : Text → Text) where
  -- `text.toLowerCase()`.
  unfoldable pub to_lower_case : Text → Text
  to_lower_case s = if all_ascii s then map ascii_lower s else unicode_lower s

  unfoldable pub extension_of : Text → Text
  unfolding last_index_of to_lower_case
  extension_of filename = elim (last_index_of b'.' filename) [
    | none ↦ []
    | some zero ↦ []
    | some (suc i) ↦ to_lower_case (drop (suc i + 1) filename)
  ]

  unfoldable pub validate_upload : Text → Text → Option UploadRejection
  unfolding extension_of starts_with join
  validate_upload original_name mime_type =
      let ext = extension_of original_name in
      if not (has allowed_extensions ext)
      then some (record {
        reason =
            codes "Unsupported file extension \"."
            ++ (ext ++ (codes "\"; allowed: " ++ join (codes ", ") allowed_extensions));
      })
      else if not (starts_with mime_type (codes "audio/"))
          && not (has allowed_non_audio_mimes mime_type)
      then some
          (record { reason = codes "Unsupported content type \"" ++ (mime_type ++ codes "\"") })
      else none

-- ===== src/Upload/Accepts.antt =====
-- Which uploads `validateUpload` lets through.
use scribeflow.Prelude.{◌≡◌, ◌↔◌, ◌⊎◌, ◌++◌, none, arith}
use scribeflow.Text.{Text, codes}
use scribeflow.Text.Equality.{Among, has_iff, starts_with_iff}
use scribeflow.Upload.Extension.{HasExtension, extension_of-HasExtension, HasExtension-extension_of}
use scribeflow.Upload.{allowed_extensions, allowed_non_audio_mimes, extension_of, validate_upload}

-- The content type is an audio type, or one of the generic types that are let through.
abbrev pub IsAllowedMime : Text → Type 0
IsAllowedMime mime =
    ((subtype : Text) × (mime ≡ codes "audio/" ++ subtype)) ⊎ Among mime allowed_non_audio_mimes

-- The name has an extension, in lower case, that is allowed.
abbrev pub IsAllowedName : (Text → Text) → Text → Type 0
IsAllowedName unicode_lower name =
    (ext : Text) × HasExtension unicode_lower name ext × Among ext allowed_extensions

validated :
    (unicode_lower : Text → Text) (name mime : Text)
    → (validate_upload unicode_lower name mime ≡ none)
      ↔ (Among (extension_of unicode_lower name) allowed_extensions × IsAllowedMime mime)
unfolding validate_upload
validated unicode_lower name mime = ground (
  arith,
  has_iff allowed_extensions (extension_of unicode_lower name),
  has_iff allowed_non_audio_mimes mime,
  starts_with_iff mime (codes "audio/"),
)

-- `validateUpload` accepts an upload exactly when what stands in its name behind the last dot, which
-- is not the first character, is one of the six allowed extensions in lower case, and its content
-- type begins with "audio/" or is one of the three generic types.
pub validate_upload_iff :
    (unicode_lower : Text → Text) (name mime : Text)
    → (validate_upload unicode_lower name mime ≡ none)
      ↔ (IsAllowedName unicode_lower name × IsAllowedMime mime)
validate_upload_iff unicode_lower name mime =
    let (to, back) = validated unicode_lower name mime in
    (
      (λ e.
          let (among, allowed) = to e in
          (
            (extension_of unicode_lower name, extension_of-HasExtension unicode_lower name, among),
            allowed,
          )),
      (λ ((ext, has_ext, among), allowed).
          back (rw (HasExtension-extension_of unicode_lower name ext has_ext) among, allowed)),
    )

-- ===== src/Upload/Tests.antt =====
-- The files of upload-validation.spec.ts, and the theorems at such files.
use scribeflow.Prelude.{◌≡◌, refl, ◌↔◌, none, []}
use scribeflow.Text.{Text, codes, text_eq}
use scribeflow.Upload.{extension_of, validate_upload}
use scribeflow.Upload.Accepts.{IsAllowedName, IsAllowedMime, validate_upload_iff}

abbrev unchanged : Text → Text
unchanged s = s

extensions :
    (extension_of unchanged (codes "UPPER.WAV") ≡ codes "wav")
    × (extension_of unchanged (codes "archive.tar.ogg") ≡ codes "ogg")
    × (extension_of unchanged (codes "noextension") ≡ [])
    × (extension_of unchanged (codes ".hidden") ≡ [])
unfolding extension_of
extensions = (refl, refl, refl, refl)

accepted :
    (validate_upload unchanged (codes "a.mp3") (codes "audio/mpeg") ≡ none)
    × (validate_upload unchanged (codes "a.ogg") (codes "application/ogg") ≡ none)
unfolding validate_upload text_eq
accepted = (refl, refl)

validate_upload_iff_example :
    (validate_upload unchanged (codes "a.webm") (codes "video/webm") ≡ none)
    ↔ (IsAllowedName unchanged (codes "a.webm") × IsAllowedMime (codes "video/webm"))
validate_upload_iff_example = validate_upload_iff unchanged (codes "a.webm") (codes "video/webm")

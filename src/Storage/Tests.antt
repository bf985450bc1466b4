-- ===== src/Storage/Tests.antt =====
-- Paths and files of the storage service, and the theorems at them.
use scribeflow.Prelude.{
  ◌≡◌, refl, true, List, [], ◌∷◌, Option, some, any, ◌&&◌, if◌then◌else◌, none, arith,
}
use scribeflow.Text.{Text, codes, text_eq, join}
use scribeflow.Storage.{Files, file_at, unlink, upload_temp_dir, or_empty, on_module_init}
use scribeflow.Storage.Path.{normalize, join_path}
use scribeflow.Storage.Path.Child.{IsName, IsDirectory}
use scribeflow.Storage.Purge.{file_at-on_module_init}

paths :
    (join_path (codes "/data/audio") (codes "tmp") ≡ codes "/data/audio/tmp")
    × (join_path (codes "/data/./audio/") (codes "../x") ≡ codes "/data/x")
    × (join_path (codes "audio") (codes "../../x/") ≡ codes "../x/")
unfolding join_path normalize
paths = (refl, refl, refl)

data-IsName : IsName (codes "data")
data-IsName = record { full = λ e. cc; not_dot = λ e. cc; not_dots = λ e. cc; flat = omega arith }

audio-IsName : IsName (codes "audio")
audio-IsName = record { full = λ e. cc; not_dot = λ e. cc; not_dots = λ e. cc; flat = omega arith }

mp3-IsName : IsName (codes "j1.mp3")
mp3-IsName = record { full = λ e. cc; not_dot = λ e. cc; not_dots = λ e. cc; flat = omega arith }

audio_dir-IsDirectory : IsDirectory (codes "/data/audio")
unfolding join
audio_dir-IsDirectory = record {
  head = codes "data";
  rest = codes "audio" ∷ [];
  names = (data-IsName, (audio-IsName, tt));
  path = refl;
}

abbrev files : Files
files = (codes "/data/audio/tmp/a.upload", 1 ∷ []) ∷ (codes "/data/audio/j1.mp3", 2 ∷ []) ∷ []

abbrev readdir : Text → Files → Option (List Text)
readdir dir fs = some (codes "a.upload" ∷ [])

abbrev purged : Files
purged = (codes "/data/audio/j1.mp3", 2 ∷ []) ∷ []

starts : on_module_init true readdir (λ e. true) (codes "/data/audio") files ≡ some purged
unfolding on_module_init unlink join_path normalize text_eq
starts = refl

file_at-on_module_init_example : file_at (codes "/data/audio/tmp/a.upload") purged ≡ (
    if any
      (λ e.
        true
        && text_eq
            (join_path (upload_temp_dir (codes "/data/audio")) e)
            (codes "/data/audio/tmp/a.upload"))
      (or_empty (readdir (upload_temp_dir (codes "/data/audio")) files))
    then none
    else file_at (codes "/data/audio/tmp/a.upload") files)
file_at-on_module_init_example =
    file_at-on_module_init readdir (λ e. true) (codes "/data/audio")
      (codes "/data/audio/tmp/a.upload") files purged starts

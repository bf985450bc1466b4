-- ===== src/Storage.antt =====
-- api/src/storage/storage.service.ts. The files of the shared volume are an association list of
-- paths and contents; a call of the file system that can fail has its outcome as an argument.
pub mod Path
pub mod Files
pub mod Purge
mod Tests
use scribeflow.Prelude.{Bool, List, [], ◌∷◌, ◌++◌, Option, none, some, if◌then◌else◌}
use scribeflow.Text.{Text, codes, text_eq}
use scribeflow.Text.Utf8.{Bytes}
use scribeflow.Storage.Path.{join_path}

abbrev pub Files : Type 0
Files = List (Text × Bytes)

unfoldable pub file_at : Text → Files → Option Bytes
file_at path [] = none
file_at path ((p, bytes) ∷ files) = if text_eq p path then some bytes else file_at path files

-- `unlink` where it succeeds.
unfoldable pub unlink : Text → Files → Files
unlink path [] = []
unlink path ((p, bytes) ∷ files) =
    if text_eq p path then unlink path files else (p, bytes) ∷ unlink path files

-- `rename`, which rejects (none) where there is no such file.
unfoldable pub rename : Text → Text → Files → Option Files
rename from to files = elim (file_at from files) [
  | none ↦ none
  | some bytes ↦ some ((to, bytes) ∷ unlink to (unlink from files))
]

unfoldable pub upload_temp_dir : Text → Text
upload_temp_dir audio_dir = join_path audio_dir (codes "tmp")

-- `remove`: a failing `unlink` is ignored.
unfoldable pub remove : Bool → Text → Files → Files
remove unlinks path files = if unlinks then unlink path files else files

-- The path that `promote` moves an upload to.
unfoldable pub final_path : Text → Text → Text → Text
final_path audio_dir job_id ext = join_path audio_dir (job_id ++ b'.' ∷ ext)

-- `promote`; `renames` is false where the file system refuses.
unfoldable pub promote : Bool → Text → Text → Text → Text → Files → Option (Text × Files)
promote renames audio_dir temp_path job_id ext files =
    elim (if renames then rename temp_path (final_path audio_dir job_id ext) files else none) [
      | none ↦ none
      | some files' ↦ some (final_path audio_dir job_id ext, files')
    ]

-- `sha256`: `digest` is the hash of crypto; the stream rejects (none) where the file cannot be read.
unfoldable pub sha256 : (Bytes → Text) → Bool → Text → Files → Option Text
sha256 digest reads file_path files = elim (file_at file_path files) [
  | none ↦ none
  | some bytes ↦ if reads then some (digest bytes) else none
]

unfoldable pub remove_all : (Text → Bool) → Text → List Text → Files → Files
unfolding remove unlink
remove_all unlinks temp_dir [] files = files
remove_all unlinks temp_dir (e ∷ entries) files =
    remove_all unlinks temp_dir entries (remove (unlinks e) (join_path temp_dir e) files)

abbrev pub or_empty : Option (List Text) → List Text
or_empty none = []
or_empty (some entries) = entries

-- `purgeStaleTempFiles`: `readdir` gives the names in a directory, or rejects (none).
unfoldable pub purge_stale_temp_files :
    (Text → Files → Option (List Text)) → (Text → Bool) → Text → Files → Files
unfolding remove_all upload_temp_dir
purge_stale_temp_files readdir unlinks audio_dir files =
    remove_all unlinks (upload_temp_dir audio_dir)
      (or_empty (readdir (upload_temp_dir audio_dir) files)) files

-- `onModuleInit`: none where `mkdir` rejects.
unfoldable pub on_module_init :
    Bool → (Text → Files → Option (List Text)) → (Text → Bool) → Text → Files → Option Files
unfolding purge_stale_temp_files
on_module_init mkdirs readdir unlinks audio_dir files =
    if mkdirs then some (purge_stale_temp_files readdir unlinks audio_dir files) else none

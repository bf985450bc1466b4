-- ===== src/Storage/Purge.antt =====
-- The cleaning of the directory of uploads at the start.
use scribeflow.Prelude.{
  ◌≡◌, some_inj, refl, Bool, true, ◌&&◌, List, [], ◌∷◌, Option, none, some, arith, if◌then◌else◌,
  any,
}
use scribeflow.Text.{Text, text_eq}
use scribeflow.Storage.{
  Files, file_at, remove, remove_all, upload_temp_dir, or_empty, purge_stale_temp_files,
  on_module_init,
}
use scribeflow.Storage.Files.{file_at-remove}
use scribeflow.Storage.Path.{join_path}

file_at-remove_all :
    (unlinks : Text → Bool) (dir p : Text) (entries : List Text) (files : Files)
    → file_at p (remove_all unlinks dir entries files) ≡ (
        if any (λ e. unlinks e && text_eq (join_path dir e) p) entries
        then none
        else file_at p files)
unfolding remove_all
file_at-remove_all unlinks dir p [] files = refl
file_at-remove_all unlinks dir p (e ∷ entries) files = ground (
  arith,
  file_at-remove_all unlinks dir p entries (remove (unlinks e) (join_path dir e) files),
  file_at-remove (unlinks e) p (join_path dir e) files,
)

-- After a start that succeeds, a path holds nothing if it is that of an entry of the temporary
-- directory whose removal succeeds, and what it held before otherwise; where the directory cannot
-- be read, nothing is removed.
pub file_at-on_module_init :
    (readdir : Text → Files → Option (List Text)) (unlinks : Text → Bool) (audio_dir p : Text)
    (files purged : Files)
    → on_module_init true readdir unlinks audio_dir files ≡ some purged
    → file_at p purged ≡ (
        if any
          (λ e. unlinks e && text_eq (join_path (upload_temp_dir audio_dir) e) p)
          (or_empty (readdir (upload_temp_dir audio_dir) files))
        then none
        else file_at p files)
unfolding on_module_init purge_stale_temp_files
file_at-on_module_init readdir unlinks audio_dir p files purged e = rw (← some_inj e) (
    file_at-remove_all unlinks (upload_temp_dir audio_dir) p
      (or_empty (readdir (upload_temp_dir audio_dir) files)) files)

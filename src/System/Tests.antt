-- ===== src/System/Tests.antt =====
-- One upload, a failing delivery and the expiry of the copy.
use scribeflow.Prelude.{ℕ, ◌≡◌, true, refl, []}
use scribeflow.Text.{Text, codes, text_eq}
use scribeflow.Queue.Publisher.{acked, publish_job}
use scribeflow.Store.Memory.{memory}
use scribeflow.Service.{create}
use scribeflow.Upload.{validate_upload}
use scribeflow.Storage.{rename, remove, promote, final_path, sha256, file_at}
use scribeflow.Storage.Path.{normalize, join_path}
use scribeflow.Worker.Retry.{decide}
use scribeflow.Worker.Database.{update, get_status, mark_processing, record_retry}
use scribeflow.Worker.Message.{parse, retry_count}
use scribeflow.Service.Samples.{platform, resolves, upload, jobs, start, id}
use scribeflow.Worker.Message.Samples.{python}
use scribeflow.Worker.Handler.{handle_message}
use scribeflow.Worker.Handler.Journey.{failing}
use scribeflow.System.{System, Event, uploads, delivers, expires, step}
use scribeflow.System.Stranded.{is_unfinished, Reachable, nothing_yet, next}
use scribeflow.System.Samples.{json, initial, constants}

everything : Unit {0}
unfolding memory create promote sha256 publish_job rename remove file_at validate_upload final_path
    normalize join_path handle_message decide parse retry_count get_status update mark_processing
    record_retry text_eq step
everything = tt

abbrev delivery : Event ℕ
delivery = delivers 0 constants (failing jobs python constants [] (codes "boom"))

abbrev after : System jobs Text
after = step jobs platform python json (expires 0) (
    step jobs platform python json delivery
      (step jobs platform python json (uploads (resolves acked) id 5 upload) initial))

after-Reachable : Reachable jobs platform python json after
unfolding memory start initial
after-Reachable =
    next (expires 0)
      (next delivery
        (next (uploads (resolves acked) id 5 upload) (nothing_yet (λ i. refl)) (refl, refl, refl))
        tt)
      tt

after-unfinished : is_unfinished (get_status jobs id after.api.rows) ≡ true
unfolding everything start initial
after-unfinished = refl

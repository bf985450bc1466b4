-- ===== src/Worker/Handler/Tests.antt =====
-- Deliveries on a table in memory, as in worker/tests/test_handler.py, and the theorems at them.
use scribeflow.Prelude.{ℕ, ◌≡◌, refl, true, [], ◌∷◌, none, some}
use scribeflow.Prelude.Int.{pos}
use scribeflow.Text.{Text, codes, text_eq}
use scribeflow.Jobs.{JobStatus, queued, completed, failed, Transcript, Job}
use scribeflow.Store.Journal.{journaled}
use scribeflow.Store.Memory.{memory}
use scribeflow.Service.Samples.{jobs}
use scribeflow.Worker.Retry.{decide}
use scribeflow.Worker.Database.{
  update, get_status, mark_processing, update_progress, complete, record_retry, fail,
}
use scribeflow.Worker.Database.Attempts.{get_attempts}
use scribeflow.Worker.Message.{Message, foreign, retry_count_header, parse, retry_count}
use scribeflow.Worker.Message.Samples.{python, encode}
use scribeflow.Worker.Handler.{
  Fates, Site, Constants, transcribes, unsettled, acked, rejected, handle_message, retry_message,
}
use scribeflow.Worker.Handler.Accounts.{IsCovered, handle_message-IsCovered}
use scribeflow.Worker.Handler.Frame.{IsFrame, handle_message-IsFrame}
use scribeflow.Worker.Handler.Diagram.{Leads}
use scribeflow.Worker.Handler.Diagram.Moves.{handle_message-Leads}
use scribeflow.Worker.Handler.Completed.{
  ack_raises, saved, handle_message-completed, handle_message-ack_raises,
}
use scribeflow.Worker.Handler.Journey.{failing, journey}
use scribeflow.Worker.Handler.Journey.Failed.{journey-failed}

abbrev constants : Constants ℕ
constants = record { zero = 0; one = 1000000; now = 7 }

abbrev id : Text
id = codes "j1"

abbrev path : Text
path = codes "/data/audio/j1.mp3"

abbrev job : JobStatus → Job ℕ
job status = record {
  id = id;
  status = status;
  original_name = codes "a.mp3";
  file_path = path;
  content_hash = some (codes "00ff");
  language = none;
  duration_sec = none;
  progress = 0;
  attempts = 0;
  error = none;
  transcript = none;
  created_at = 5;
  updated_at = 5;
}

abbrev fresh : Message Text
fresh = record {
  body = encode (record { job_id = id; file_path = path; attempt = 0 });
  headers = [];
  expiration = none;
}

site : JobStatus → Site jobs Text
unfolding memory
site status = record {
  rows = job status ∷ [];
  retry_queue = [];
  dead_queue = [];
  settlement = unsettled;
}

abbrev spoken : Transcript ℕ
spoken = record { text = codes "Hi."; language = codes "en"; duration = 900000; segments = [] }

abbrev succeeds : Fates ℕ
succeeds = record (failing jobs python constants [] []) {
  pipeline = transcribes (100000 ∷ 500000 ∷ []) spoken;
}

abbrev breaks_down : Fates ℕ
breaks_down = failing jobs python constants [] (codes "pipeline exploded")

everything : Unit {0}
unfolding memory site handle_message decide parse retry_count get_status get_attempts update
    mark_processing update_progress complete record_retry fail text_eq
everything = tt

named : parse python fresh ≡ some (id, path)
unfolding everything
named = refl

transcribed :
    (get_status jobs id (handle_message jobs python constants succeeds fresh (site queued)).1.rows
      ≡ some completed)
    × ((handle_message jobs python constants succeeds fresh (site queued)).1.settlement ≡ acked)
unfolding everything
transcribed = (refl, refl)

-- A count in the header that is no integer is not retried.
corrupted :
    let m = record fresh { headers = (retry_count_header, foreign (codes "garbage")) ∷ [] } in
    let v = (handle_message jobs python constants breaks_down m (site queued)).1 in
    (get_status jobs id v.rows ≡ some failed) × (v.retry_queue ≡ []) × (v.settlement ≡ acked)
unfolding everything
corrupted = (refl, refl, refl)

malformed :
    (handle_message jobs python constants succeeds
      (record fresh { body = [] })
      (site queued)).1.settlement
    ≡ rejected
unfolding everything
malformed = refl

handle_message-IsCovered_example :
    IsCovered jobs python constants breaks_down fresh id
      (site queued)
      (handle_message jobs python constants breaks_down fresh (site queued)).1
unfolding everything
handle_message-IsCovered_example =
    handle_message-IsCovered jobs python constants breaks_down fresh id (site queued) path refl refl
      refl

handle_message-IsFrame_example :
    IsFrame jobs python constants breaks_down id
      (site queued)
      fresh
      (handle_message jobs python constants breaks_down fresh (site queued)).1
handle_message-IsFrame_example =
    handle_message-IsFrame jobs python constants breaks_down id (site queued) fresh path named

handle_message-completed_example :
    let v = (handle_message jobs python constants succeeds fresh (site completed)).1 in
    (v.rows ≡ (site completed).rows) × (v.retry_queue ≡ []) × (v.dead_queue ≡ [])
unfolding everything
handle_message-completed_example =
    handle_message-completed jobs python constants succeeds (site completed) id path fresh refl refl

handle_message-Leads_example :
    Leads jobs python constants breaks_down id queued
      (handle_message (journaled jobs) python constants breaks_down fresh (record {
        rows = record { rows = (site queued).rows; written = [] };
        retry_queue = [];
        dead_queue = [];
        settlement = unsettled;
      })).1
unfolding everything
handle_message-Leads_example =
    handle_message-Leads jobs python constants breaks_down id path queued fresh (site queued).rows
      [] [] (record { marks = tt; completes = tt; acks = tt }) refl refl (λ e. cc)

handle_message-ack_raises_example :
    let o = ack_raises [] spoken true (codes "channel closed") in
    let v = (handle_message jobs python constants o fresh (site queued)).1 in
    (get_status jobs id
        (saved jobs python constants [] spoken (codes "channel closed") id (site queued).rows)
      ≡ some completed)
    × (v.rows
        ≡ record_retry jobs 7 id
            (codes "channel closed")
            (saved jobs python constants [] spoken (codes "channel closed") id (site queued).rows))
    × (get_status jobs id v.rows ≡ some queued)
    × (v.retry_queue ≡ retry_message jobs python constants o fresh 10000 ∷ [])
unfolding everything
handle_message-ack_raises_example =
    handle_message-ack_raises jobs python constants [] spoken (codes "channel closed") true id path
      fresh (site queued) 10000 refl refl refl

journey-failed_example :
    let (delays, v) = journey jobs python constants [] (codes "boom") 4 fresh (site queued) in
    (delays ≡ some 10000 ∷ some 30000 ∷ some 90000 ∷ [])
    × (get_status jobs id v.rows ≡ some failed)
    × (get_attempts jobs id v.rows ≡ some 4)
    × (v.retry_queue ≡ [])
    × ((copy : Message Text) × (v.dead_queue ≡ copy ∷ [])
        × (copy.body ≡ fresh.body)
        × (retry_count python copy ≡ pos 3))
unfolding everything
journey-failed_example =
    journey-failed jobs python constants [] (codes "boom") id fresh path queued 0 0 (site queued)
      refl refl refl (λ e. cc) refl

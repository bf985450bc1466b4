-- ===== src/Worker/Handler/Success.antt =====
-- A delivery at which nothing fails.
use scribeflow.Prelude.{◌+◌, ◌≡◌, ◌≢◌, refl, List, [], ◌∷◌, none, some, arith}
use scribeflow.Text.{Text}
use scribeflow.Text.Equality.{text_eq_refl}
use scribeflow.Jobs.{JobStatus, completed, Transcript, Job}
use scribeflow.Store.{JobStore}
use scribeflow.Worker.Database.{
  get_status, mark_processing, as_processing, with_progress, update_progress, complete,
  as_completed,
}
use scribeflow.Worker.Database.Lookup.{find_one_by-update, find_one_by-update_progress}
use scribeflow.Worker.Message.{Python, Message, parse}
use scribeflow.Worker.Handler.Dispatch.{handle-process}
use scribeflow.Worker.Handler.{
  settled, returns, Run, transcribes, unsettled, acked, Fates, Site, Constants, report, process,
  handle_message,
}

-- All calls return.
abbrev pub succeeding : {Number : Type 0} → Run Number → Fates Number
succeeding run = record {
  reads = returns;
  marks = returns;
  pipeline = run;
  completes = returns;
  acks = returns;
  publishes = returns;
  records = returns;
  acks_failure = returns;
  nacks = returns;
}

module _ {Number : Type 0} (S : JobStore Number) (P : Python) (K : Constants Number) where
  open P use {Foreign}

  -- What the writes of progress leave as it is.
  abbrev IsKept : Job Number → Job Number → Type 0
  IsKept job job' =
      (job'.attempts ≡ job.attempts)
      × (job'.file_path ≡ job.file_path)
      × (job'.content_hash ≡ job.content_hash)

  with_progress-IsKept :
      (progress : Number) (status : JobStatus) (job : Job Number)
      → IsKept job (with_progress S K.now progress status job)
  with_progress-IsKept progress status job = ground arith

  report-IsKept :
      (o : Fates Number) (id : Text) (reported : List Number) (rows : S.Rows) (job : Job Number)
      → S.find_one_by id rows ≡ some job
      → (job' : Job Number) × (S.find_one_by id (report S P K o id reported rows) ≡ some job')
        × IsKept job job'
  report-IsKept o id [] rows job e = (job, e, (refl, refl, refl))
  report-IsKept o id (p ∷ reported) rows job e =
      let next = with_progress S K.now p job.status job in
      let kept = with_progress-IsKept p job.status job in
      let (last, there, same) =
        report-IsKept o id reported (update_progress S K.now id p rows) next
          (ground (arith, e, find_one_by-update_progress S id id K.now p rows, text_eq_refl id)) in
      (last, there, ground (arith, kept, same))

  -- The row of a job that has been transcribed in one more attempt.
  pub record IsTranscribed (job : Job Number) (t : Transcript Number) (job' : Job Number)
      : Type 0 where
    pub status : job'.status ≡ completed
    pub transcript : job'.transcript ≡ some t
    pub language : job'.language ≡ some t.language
    pub duration_sec : job'.duration_sec ≡ some t.duration
    pub progress : job'.progress ≡ K.one
    pub error : job'.error ≡ none
    pub attempts : job'.attempts ≡ job.attempts + 1
    pub content_hash : job'.content_hash ≡ job.content_hash

  module _ (reported : List Number) (transcript : Transcript Number) where
    abbrev o : Fates Number
    o = succeeding (transcribes reported transcript)

    abbrev rows_after : Text → S.Rows → S.Rows
    rows_after id rows =
        complete S K.one K.now id transcript
          (report S P K o id reported (mark_processing S K.zero K.now id rows))

    rows_after-IsTranscribed :
        (id : Text) (rows : S.Rows) (job : Job Number)
        → S.find_one_by id rows ≡ some job
        → (job' : Job Number) × (S.find_one_by id (rows_after id rows) ≡ some job')
          × IsTranscribed job transcript job'
    unfolding complete mark_processing
    rows_after-IsTranscribed id rows job e =
        let marked = as_processing S K.zero K.now job in
        let found : S.find_one_by id (mark_processing S K.zero K.now id rows) ≡ some marked =
          ground (
            arith,
            e,
            find_one_by-update S id id (as_processing S K.zero K.now) rows (λ j. refl),
            text_eq_refl id,
          ) in
        let (last, there, (attempts, path, hash)) =
          report-IsKept o id reported (mark_processing S K.zero K.now id rows) marked found in
        (
          as_completed S K.one K.now transcript last,
          ground (
            arith,
            there,
            find_one_by-update S id id (as_completed S K.one K.now transcript)
                (report S P K o id reported (mark_processing S K.zero K.now id rows)) (λ j. refl),
            text_eq_refl id,
          ),
          record {
            status = refl;
            transcript = refl;
            language = refl;
            duration_sec = refl;
            progress = refl;
            error = refl;
            attempts = attempts;
            content_hash = hash;
          },
        )

    -- If the message names a job of the table that is not completed, every call returns and the
    -- pipeline gives a transcript, then the message is acknowledged, nothing is put into the retry
    -- queue or the dead queue, and the job's row is completed with this transcript, its language and
    -- its duration, with the full progress, no error and one attempt more.
    pub handle_message-IsTranscribed :
        (id path : Text) (message : Message Foreign) (w : Site S Foreign) (job : Job Number)
        → parse P message ≡ some (id, path)
        → S.find_one_by id w.rows ≡ some job
        → job.status ≢ completed
        → w.settlement ≡ unsettled
        → let v = (handle_message S P K o message w).1 in
          (v.settlement ≡ acked)
          × (v.retry_queue ≡ w.retry_queue)
          × (v.dead_queue ≡ w.dead_queue)
          × ((job' : Job Number) × (S.find_one_by id v.rows ≡ some job')
              × IsTranscribed job transcript job')
    unfolding process get_status
    handle_message-IsTranscribed id path message w job e there ne u =
        rw (handle-process S P K o id path message job.status w refl e (rw there refl) ne)
          (rw (u, settled) refl, refl, refl, rows_after-IsTranscribed id w.rows job there)

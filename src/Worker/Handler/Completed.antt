-- ===== src/Worker/Handler/Completed.antt =====
-- A job that is completed: what a delivery does to it, and how it can be undone.
use scribeflow.Prelude.{ℕ, ◌≡◌, refl, Bool, true, false, List, [], ◌∷◌, ◌++◌, some, arith}
use scribeflow.Text.{Text}
use scribeflow.Text.Equality.{text_eq_refl}
use scribeflow.Jobs.{queued, completed, Transcript}
use scribeflow.Store.{JobStore}
use scribeflow.Worker.Retry.{retry, decide}
use scribeflow.Worker.Database.{get_status, mark_processing, complete, record_retry}
use scribeflow.Worker.Database.Lookup.{
  get_status-mark_processing, get_status-complete, get_status-record_retry,
}
use scribeflow.Worker.Message.{Python, Message, parse, retry_count}
use scribeflow.Worker.Handler.{
  Fate, returns, raises, dies, transcribes, Fates, Site, Constants, retry_message, handle_failure,
  report, process, read_status, parsed, handle_message,
}
use scribeflow.Worker.Handler.Rules.{call_rule}
use scribeflow.Worker.Handler.Dispatch.{handle-process}
use scribeflow.Worker.Handler.Midway.{get_status-report}

module _ {Number : Type 0} (S : JobStore Number) (P : Python) (K : Constants Number)
    (o : Fates Number) where
  open P use {Foreign}

  module _ (w : Site S Foreign) where
    -- Rows and queues are as before.
    abbrev Same : Site S Foreign → Type 0
    Same v = (v.rows ≡ w.rows) × (v.retry_queue ≡ w.retry_queue) × (v.dead_queue ≡ w.dead_queue)

    read-Same :
        (fate : Fate) (id : Text) (message : Message Foreign)
        → get_status S id w.rows ≡ some completed
        → Same (read_status S P K o fate message id w).1
    read-Same returns id message e =
        rw e (call_rule Same o.acks _ w (refl, refl, refl) (refl, refl, refl))
    read-Same (raises applied x) id message e =
        call_rule Same o.nacks _ w (refl, refl, refl) (refl, refl, refl)
    read-Same (dies applied) id message e = (refl, refl, refl)

    -- A message of a completed job changes no row and sends nothing, however its calls end.
    pub handle_message-completed :
        (id path : Text) (message : Message Foreign)
        → parse P message ≡ some (id, path)
        → get_status S id w.rows ≡ some completed
        → let v = (handle_message S P K o message w).1 in
          (v.rows ≡ w.rows) × (v.retry_queue ≡ w.retry_queue) × (v.dead_queue ≡ w.dead_queue)
    unfolding handle_message
    handle_message-completed id path message named e =
        rw (named, parsed) (read-Same o.reads id message e)

-- All calls return, but for the acknowledgement of a transcribed job, which raises.
abbrev pub ack_raises :
    {Number : Type 0} → List Number → Transcript Number → Bool → Text → Fates Number
ack_raises reported transcript applied error = record {
  reads = returns;
  marks = returns;
  pipeline = transcribes reported transcript;
  completes = returns;
  acks = raises applied error;
  publishes = returns;
  records = returns;
  acks_failure = returns;
  nacks = returns;
}

module _ {Number : Type 0} (S : JobStore Number) (P : Python) (K : Constants Number)
    (reported : List Number) (transcript : Transcript Number) (error : Text) where
  open P use {Foreign}

  abbrev ack_fails : Bool → Fates Number
  ack_fails applied = ack_raises reported transcript applied error

  -- The rows when the transcript is saved.
  abbrev pub saved : Text → S.Rows → S.Rows
  saved id rows =
      complete S K.one K.now id transcript
        (report S P K (ack_fails true) id reported (mark_processing S K.zero K.now id rows))

  saved-get_status :
      (id : Text) (rows : S.Rows)
      → get_status S id rows ≡ some queued
      → get_status S id (saved id rows) ≡ some completed
  saved-get_status id rows e = ground (
    arith,
    e,
    get_status-mark_processing S K.zero K.now id id rows,
    get_status-report S P K (ack_fails true) id id reported
        (mark_processing S K.zero K.now id rows),
    get_status-complete S K.one K.now id id transcript
        (report S P K (ack_fails true) id reported (mark_processing S K.zero K.now id rows)),
    text_eq_refl id,
  )

  process-ack_fails :
      (applied : Bool) (id : Text) (message : Message Foreign) (w : Site S Foreign) (ttl_ms : ℕ)
      → decide (retry_count P message) ≡ some (retry ttl_ms)
      → let v = (process S P K (ack_fails applied) message id w).1 in
        (v.rows ≡ record_retry S K.now id error (saved id w.rows))
        × (v.retry_queue
            ≡ w.retry_queue ++ retry_message S P K (ack_fails applied) message ttl_ms ∷ [])
  unfolding process handle_failure
  process-ack_fails true id message w ttl_ms d = rw d (refl, refl)
  process-ack_fails false id message w ttl_ms d = rw d (refl, refl)

  -- A queued job is transcribed, its message has retries left, and every call of the delivery returns
  -- but the acknowledgement, which raises, whether the broker has got it or not: then the transcript
  -- is saved and the job completed, and after that the job goes back to queued, and a copy of its
  -- message waits in the retry queue to be transcribed again.
  pub handle_message-ack_raises :
      (applied : Bool) (id path : Text) (message : Message Foreign) (w : Site S Foreign)
      (ttl_ms : ℕ)
      → parse P message ≡ some (id, path)
      → get_status S id w.rows ≡ some queued
      → decide (retry_count P message) ≡ some (retry ttl_ms)
      → let o = ack_raises reported transcript applied error in
        let v = (handle_message S P K o message w).1 in
        (get_status S id (saved id w.rows) ≡ some completed)
        × (v.rows ≡ record_retry S K.now id error (saved id w.rows))
        × (get_status S id v.rows ≡ some queued)
        × (v.retry_queue ≡ w.retry_queue ++ retry_message S P K o message ttl_ms ∷ [])
  handle_message-ack_raises applied id path message w ttl_ms named e d =
      let (rows, copy) = process-ack_fails applied id message w ttl_ms d in
      let done = saved-get_status id w.rows e in
      rw (handle-process S P K (ack_fails applied) id path message queued w refl named e (λ x. cc))
        (
          done,
          rows,
          ground (
            arith,
            rows,
            done,
            get_status-record_retry S K.now id id error (saved id w.rows),
            text_eq_refl id,
          ),
          copy,
        )

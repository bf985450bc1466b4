-- ===== src/Worker/Handler/Frame.antt =====
-- What a delivery leaves alone: the other jobs, and the messages that were in the queues.
mod Local
use mathlib.Core.Option
use scribeflow.Prelude.{
  All, All-append, ◌≢◌, ◌≡◌, refl, sym, ◌∙◌, false, List, [], ◌∷◌, ◌++◌, Option, none, some, arith,
  append_assoc, append-nil,
}
use scribeflow.Text.{Text, text_eq}
use scribeflow.Jobs.{JobStatus, queued, processing, completed, failed}
use scribeflow.Store.{JobStore}
use scribeflow.Worker.Retry.{Decision, retry, dead, decide}
use scribeflow.Worker.Database.{get_status, complete, record_retry, fail}
use scribeflow.Worker.Message.{Python, Message, parse, retry_count}
use scribeflow.Worker.Handler.{
  Fate, returns, raises, dies, Run, transcribes, breaks, cut_off, Settlement, acked, rejected,
  requeued, Fates, Site, Constants, then_with, call, on_rows, settle, retry_message, dead_message,
  to_retry_queue, to_dead_queue, route, routed, handle_failure, report, run_in_thread, attempt,
  process, by_status, read_status, parsed, handle_message,
}
use scribeflow.Worker.Handler.Rules.{call_rule, call_then_rule, caught_rule}
use Local.{
  IsLocal, mark-IsLocal, complete-IsLocal, record_retry-IsLocal, fail-IsLocal, report-IsLocal,
}

module _ {Number : Type 0} (S : JobStore Number) (P : Python) (K : Constants Number)
    (o : Fates Number) where
  open P use {Foreign}

  module _ (id : Text) (w : Site S Foreign) (message : Message Foreign) where
    -- A queue keeps its messages, and may get copies of the message.
    abbrev pub IsGrown : List (Message Foreign) → List (Message Foreign) → Type 0
    IsGrown before after =
        (more : List (Message Foreign)) × (after ≡ before ++ more)
        × All (λ m. m.body ≡ message.body) more

    IsGrown-refl : (queue : List (Message Foreign)) → IsGrown queue queue
    IsGrown-refl queue = ([], sym (append-nil queue), tt)

    IsGrown-append :
        (before after : List (Message Foreign)) (m : Message Foreign)
        → m.body ≡ message.body
        → IsGrown before after
        → IsGrown before (after ++ m ∷ [])
    IsGrown-append before after m copy (more, e, copies) = (
      more ++ m ∷ [],
      rw e (append_assoc before more (m ∷ [])),
      All-append (λ m. m.body ≡ message.body) more (m ∷ []) copies (copy, tt),
    )

    -- The other jobs keep their status, no row goes, and the queues keep their messages and may get
    -- copies of the message.
    pub record IsFrame (v : Site S Foreign) : Type 0 where
      pub others :
          (other : Text)
          → text_eq id other ≡ false
          → get_status S other v.rows ≡ get_status S other w.rows
      pub stay :
          (other : Text) → get_status S other w.rows ≢ none → get_status S other v.rows ≢ none
      pub retries : IsGrown w.retry_queue v.retry_queue
      pub deads : IsGrown w.dead_queue v.dead_queue

    IsFrame-refl : IsFrame w
    IsFrame-refl = record {
      others = λ other ne. refl;
      stay = λ other there. there;
      retries = IsGrown-refl w.retry_queue;
      deads = IsGrown-refl w.dead_queue;
    }

    on_rows-IsFrame :
        (f : S.Rows → S.Rows) (v : Site S Foreign)
        → IsLocal S P K o id f
        → IsFrame v
        → IsFrame (on_rows S P K o f v)
    on_rows-IsFrame f v l h = record {
      others = λ other ne. l.local other v.rows ne ∙ h.others other ne;
      stay = λ other there. l.keeps other v.rows (h.stay other there);
      retries = h.retries;
      deads = h.deads;
    }

    settle-IsFrame :
        (answer : Settlement) (v : Site S Foreign) → IsFrame v → IsFrame (settle S P K o answer v)
    settle-IsFrame answer v h = record {
      others = h.others;
      stay = h.stay;
      retries = h.retries;
      deads = h.deads;
    }

    to_retry_queue-IsFrame :
        (m : Message Foreign) (v : Site S Foreign)
        → m.body ≡ message.body
        → IsFrame v
        → IsFrame (to_retry_queue S P K o m v)
    to_retry_queue-IsFrame m v copy h = record {
      others = h.others;
      stay = h.stay;
      retries = IsGrown-append w.retry_queue v.retry_queue m copy h.retries;
      deads = h.deads;
    }

    to_dead_queue-IsFrame :
        (m : Message Foreign) (v : Site S Foreign)
        → m.body ≡ message.body
        → IsFrame v
        → IsFrame (to_dead_queue S P K o m v)
    to_dead_queue-IsFrame m v copy h = record {
      others = h.others;
      stay = h.stay;
      retries = h.retries;
      deads = IsGrown-append w.dead_queue v.dead_queue m copy h.deads;
    }

    -- The last calls of a failure: the row, then the broker.
    settle_failure :
        (f : S.Rows → S.Rows) (v : Site S Foreign)
        → IsLocal S P K o id f
        → IsFrame v
        → IsFrame
            (then_with
              (call o.records (on_rows S P K o f) v)
              (λ _. call o.acks_failure (settle S P K o acked))).1
    settle_failure f v local h =
        let noted = on_rows-IsFrame f v local h in
        call_then_rule IsFrame o.records _ _ v h noted
          (call_rule IsFrame o.acks_failure _ _ noted (settle-IsFrame acked _ noted))

    route-IsFrame :
        (decision : Decision) (error : Text) (v : Site S Foreign)
        → IsFrame v
        → IsFrame (route S P K o decision message id error v).1
    route-IsFrame (retry ttl_ms) error v h =
        let sent = to_retry_queue-IsFrame (retry_message S P K o message ttl_ms) v refl h in
        call_then_rule IsFrame o.publishes _ _ v h sent (
          settle_failure (record_retry S K.now id error) _ (record_retry-IsLocal S P K o id error)
            sent)
    route-IsFrame dead error v h =
        let sent = to_dead_queue-IsFrame (dead_message S P K o message) v refl h in
        call_then_rule IsFrame o.publishes _ _ v h sent
          (settle_failure (fail S K.now id error) _ (fail-IsLocal S P K o id error) sent)

    answer-IsFrame :
        (fate : Fate) (answer : Settlement) (v : Site S Foreign)
        → IsFrame v
        → IsFrame (call fate (settle S P K o answer) v).1
    answer-IsFrame fate answer v h = call_rule IsFrame fate _ v h (settle-IsFrame answer v h)

    routed-IsFrame :
        (decision : Option Decision) (error : Text) (v : Site S Foreign)
        → IsFrame v
        → IsFrame (routed S P K o decision message id error v).1
    routed-IsFrame none error v h = h
    routed-IsFrame (some decision) error v h =
        let there = route-IsFrame decision error v h in
        caught_rule IsFrame (route S P K o decision message id error v) _ there
          (λ e. answer-IsFrame o.nacks requeued _ there)

    run-IsFrame :
        (run : Run Number) (v : Site S Foreign)
        → IsFrame v
        → IsFrame
            (then_with (run_in_thread S P K o run id v) (λ transcript w'.
              then_with
                (call o.completes (on_rows S P K o (complete S K.one K.now id transcript)) w')
                (λ _. call o.acks (settle S P K o acked)))).1
    run-IsFrame (transcribes reported transcript) v h =
        let told =
          on_rows-IsFrame (report S P K o id reported) v (report-IsLocal S P K o id reported) h in
        let saved = on_rows-IsFrame _ _ (complete-IsLocal S P K o id transcript) told in
        call_then_rule IsFrame o.completes _ _ _ told saved (answer-IsFrame o.acks acked _ saved)
    run-IsFrame (breaks reported error) v h =
        on_rows-IsFrame (report S P K o id reported) v (report-IsLocal S P K o id reported) h
    run-IsFrame (cut_off reported) v h =
        on_rows-IsFrame (report S P K o id reported) v (report-IsLocal S P K o id reported) h

    process-IsFrame : IsFrame (process S P K o message id w).1
    unfolding process handle_failure
    process-IsFrame =
        let marked = on_rows-IsFrame _ w (mark-IsLocal S P K o id) IsFrame-refl in
        let tried : IsFrame (attempt S P K o id w).1 =
          call_then_rule IsFrame o.marks _ _ w IsFrame-refl marked
            (run-IsFrame o.pipeline _ marked) in
        caught_rule IsFrame (attempt S P K o id w) _ tried
          (λ e. routed-IsFrame (decide (retry_count P message)) e _ tried)

    by_status-IsFrame :
        (status : Option JobStatus) → IsFrame (by_status S P K o status message id w).1
    by_status-IsFrame none = answer-IsFrame o.nacks rejected w IsFrame-refl
    by_status-IsFrame (some completed) = answer-IsFrame o.acks acked w IsFrame-refl
    by_status-IsFrame (some queued) = process-IsFrame
    by_status-IsFrame (some processing) = process-IsFrame
    by_status-IsFrame (some failed) = process-IsFrame

    read_status-IsFrame : (fate : Fate) → IsFrame (read_status S P K o fate message id w).1
    read_status-IsFrame returns = by_status-IsFrame (get_status S id w.rows)
    read_status-IsFrame (raises applied e) = answer-IsFrame o.nacks requeued w IsFrame-refl
    read_status-IsFrame (dies applied) = IsFrame-refl

    -- Handling the message of one job, however its calls end, changes the status of no other job,
    -- removes no row, takes no message out of the retry queue or the dead queue, and puts nothing but
    -- copies of the message into them.
    pub handle_message-IsFrame :
        (path : Text)
        → parse P message ≡ some (id, path)
        → IsFrame (handle_message S P K o message w).1
    unfolding handle_message
    handle_message-IsFrame path e = rw (e, parsed) (read_status-IsFrame o.reads)

  -- A malformed message changes no row and puts none into the retry queue.
  pub handle_message-malformed :
      (w : Site S Foreign) (message : Message Foreign)
      → parse P message ≡ none
      → let v = (handle_message S P K o message w).1 in
        (v.rows ≡ w.rows) × (v.retry_queue ≡ w.retry_queue)
  unfolding handle_message
  handle_message-malformed w message e =
      rw (e, parsed)
        (call_rule (λ v. (v.rows ≡ w.rows) × (v.retry_queue ≡ w.retry_queue)) o.nacks _ w
          (refl, refl) (refl, refl))

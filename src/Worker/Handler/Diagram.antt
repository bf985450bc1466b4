-- ===== src/Worker/Handler/Diagram.antt =====
-- What one delivery writes of its job, against the diagram of README.md.
pub mod Clean
pub mod Walks
pub mod Moves
use scribeflow.Prelude.{◌≡◌, ◌∙◌, true, false, List, Option, none, some, arith}
use mathlib.Core.Option
use scribeflow.Text.{Text}
use scribeflow.Text.Equality.{text_eq_refl}
use scribeflow.Jobs.{JobStatus, queued, processing, completed, failed, Transcript}
use scribeflow.Store.{JobStore}
use scribeflow.Store.Journal.{Journal, journaled}
use scribeflow.Worker.Retry.{Decision, retry, dead, decide}
use scribeflow.Worker.Database.{get_status, mark_processing, complete, record_retry, fail}
use scribeflow.Worker.Database.Lookup.{
  get_status-mark_processing, get_status-complete, get_status-record_retry, get_status-fail,
}
use scribeflow.Worker.Message.{Python, Message, retry_count}
use scribeflow.Worker.Handler.{
  Fate, returns, raises, dies, Run, transcribes, breaks, cut_off, acked, Outcome, value, exception,
  died, Fates, Site, Constants, M, then_with, caught, call, on_rows, settle, route, routed,
  handle_failure, report, run_in_thread, attempt, process,
}
use scribeflow.Worker.Handler.Rules.{call_rule, call_then_rule, caught_rule}
use scribeflow.Worker.Handler.Midway.{get_status-report}
use Clean.{NeverRaises, IsClean, AreClean}
use Walks.{
  ◌⟶◌, Walk, mark_processing-Walk, report-Walk, complete-Walk, record_retry-Walk, fail-Walk,
}

module _ {Number : Type 0} (S : JobStore Number) (P : Python) (K : Constants Number)
    (o : Fates Number) where
  open P use {Foreign}

  module _ (id : Text) (from : JobStatus) where
    -- What has been written is a walk along the diagram, which ends at the status of the job.
    abbrev pub Leads : Site (journaled S) Foreign → Type 0
    Leads v =
        (to : JobStatus) × (get_status (journaled S) id v.rows ≡ some to)
        × Walk id from v.rows.written to

    -- The same, for a delivery that can still fail.
    abbrev Tries : Site (journaled S) Foreign → Type 0
    Tries v =
        (get_status (journaled S) id v.rows ≡ some processing)
        × Walk id from v.rows.written processing

    -- The result of the pipeline's `try`: an exception finds the job processing.
    abbrev Fine : Outcome (Unit {0}) × Site (journaled S) Foreign → Type 0
    Fine (exception e, v) = Tries v
    Fine (value a, v) = Leads v
    Fine (died, v) = Leads v

    Tries-Leads : (v : Site (journaled S) Foreign) → Tries v → Leads v
    Tries-Leads v (e, path) = (processing, e, path)

    ack-Fine :
        (fate : Fate) (v : Site (journaled S) Foreign)
        → NeverRaises fate
        → Leads v
        → Fine (call fate (settle (journaled S) P K o acked) v)
    ack-Fine returns v n h = h
    ack-Fine (raises applied e) v n h = absurd n
    ack-Fine (dies true) v n h = h
    ack-Fine (dies false) v n h = h

    complete-Leads :
        (transcript : Transcript Number) (v : Site (journaled S) Foreign)
        → Tries v
        → Leads (on_rows (journaled S) P K o (complete (journaled S) K.one K.now id transcript) v)
    complete-Leads transcript v (e, path) = (
      completed,
      ground (
        arith,
        e,
        get_status-complete (journaled S) K.one K.now id id transcript v.rows,
        text_eq_refl id,
      ),
      complete-Walk S id from K.one K.now transcript v.rows e path,
    )

    complete-Fine :
        (transcript : Transcript Number) (fate last : Fate) (v : Site (journaled S) Foreign)
        → IsClean fate
        → NeverRaises last
        → Tries v
        → Fine (
            then_with
              (call fate
                (on_rows (journaled S) P K o (complete (journaled S) K.one K.now id transcript))
                v)
              (λ _. call last (settle (journaled S) P K o acked)))
    complete-Fine transcript returns last v c n t =
        ack-Fine last _ n (complete-Leads transcript v t)
    complete-Fine transcript (raises true e) last v c n t = absurd (ground arith)
    complete-Fine transcript (raises false e) last v c n t = t
    complete-Fine transcript (dies true) last v c n t = complete-Leads transcript v t
    complete-Fine transcript (dies false) last v c n t = Tries-Leads v t

    report-Tries :
        (reported : List Number) (v : Site (journaled S) Foreign)
        → Tries v
        → Tries (on_rows (journaled S) P K o (report (journaled S) P K o id reported) v)
    report-Tries reported v (e, walk) = (
      get_status-report (journaled S) P K o id id reported v.rows ∙ e,
      report-Walk S P K o id from reported v.rows e walk,
    )

    run-Fine :
        (run : Run Number) (v : Site (journaled S) Foreign)
        → AreClean o
        → Tries v
        → Fine (
            then_with (run_in_thread (journaled S) P K o run id v) (λ transcript w'.
              then_with
                (call o.completes
                  (on_rows (journaled S) P K o (complete (journaled S) K.one K.now id transcript))
                  w')
                (λ _. call o.acks (settle (journaled S) P K o acked))))
    run-Fine (transcribes reported transcript) v c t =
        complete-Fine transcript o.completes o.acks _ c.completes c.acks (report-Tries reported v t)
    run-Fine (breaks reported error) v c t = report-Tries reported v t
    run-Fine (cut_off reported) v c t =
        Tries-Leads (on_rows (journaled S) P K o (report (journaled S) P K o id reported) v)
          (report-Tries reported v t)

    mark-Fine :
        (fate : Fate) (w : Site (journaled S) Foreign)
        → NeverRaises fate
        → AreClean o
        → Leads w
        → Tries (on_rows (journaled S) P K o (mark_processing (journaled S) K.zero K.now id) w)
        → Fine (
            then_with
              (call fate
                (on_rows (journaled S) P K o (mark_processing (journaled S) K.zero K.now id))
                w)
              (λ _ v.
                then_with (run_in_thread (journaled S) P K o o.pipeline id v) (λ transcript w'.
                  then_with
                    (call o.completes
                      (on_rows
                        (journaled S)
                        P
                        K
                        o
                        (complete (journaled S) K.one K.now id transcript))
                      w')
                    (λ _. call o.acks (settle (journaled S) P K o acked)))))
    mark-Fine returns w n c h t = run-Fine o.pipeline _ c t
    mark-Fine (raises applied e) w n c h t = absurd n
    mark-Fine (dies true) w n c h t =
        Tries-Leads (on_rows (journaled S) P K o (mark_processing (journaled S) K.zero K.now id) w)
          t
    mark-Fine (dies false) w n c h t = h

    -- The handler of a failure, from a job that is processing.
    settle_failure :
        (f : Journal S → Journal S) (v : Site (journaled S) Foreign)
        → Leads v
        → Leads (on_rows (journaled S) P K o f v)
        → Leads
            (then_with
              (call o.records (on_rows (journaled S) P K o f) v)
              (λ _. call o.acks_failure (settle (journaled S) P K o acked))).1
    settle_failure f v h h' =
        call_then_rule Leads o.records _ _ v h h' (call_rule Leads o.acks_failure _ _ h' h')

    route-Leads :
        (decision : Decision) (message : Message Foreign) (error : Text)
        (v : Site (journaled S) Foreign)
        → Tries v
        → Leads (route (journaled S) P K o decision message id error v).1
    route-Leads (retry ttl_ms) message error v (e, path) =
        let h : Leads v = (processing, e, path) in
        call_then_rule Leads o.publishes _ _ v h h (
          settle_failure (record_retry (journaled S) K.now id error) _ h (
            queued,
            ground (
              arith,
              e,
              get_status-record_retry (journaled S) K.now id id error v.rows,
              text_eq_refl id,
            ),
            record_retry-Walk S id from K.now error v.rows e path,
          ))
    route-Leads dead message error v (e, path) =
        let h : Leads v = (processing, e, path) in
        call_then_rule Leads o.publishes _ _ v h h (
          settle_failure (fail (journaled S) K.now id error) _ h (
            failed,
            ground
                (arith, e, get_status-fail (journaled S) K.now id id error v.rows, text_eq_refl id),
            fail-Walk S id from K.now error v.rows e path,
          ))

    routed-Leads :
        (decision : Option Decision) (message : Message Foreign) (error : Text)
        (v : Site (journaled S) Foreign)
        → Tries v
        → Leads (routed (journaled S) P K o decision message id error v).1
    routed-Leads none message error v t = Tries-Leads v t
    routed-Leads (some decision) message error v t =
        let h = route-Leads decision message error v t in
        caught_rule Leads (route (journaled S) P K o decision message id error v) _ h
          (λ e. call_rule Leads o.nacks _ _ h h)

    caught-Leads :
        (x : Outcome (Unit {0}) × Site (journaled S) Foreign)
        (handler : Text → M (Site (journaled S) Foreign) (Unit {0}))
        → Fine x
        → ((e : Text) (v : Site (journaled S) Foreign) → Tries v → Leads (handler e v).1)
        → Leads (caught x handler).1
    caught-Leads (value a, v) handler f h = f
    caught-Leads (exception e, v) handler f h = h e v f
    caught-Leads (died, v) handler f h = f

    pub process-Leads :
        (message : Message Foreign) (w : Site (journaled S) Foreign)
        → AreClean o
        → get_status (journaled S) id w.rows ≡ some from
        → Walk id from w.rows.written from
        → from ⟶ processing
        → Leads (process (journaled S) P K o message id w).1
    unfolding process handle_failure
    process-Leads message w c e walk arrow =
        caught-Leads (attempt (journaled S) P K o id w) _
          (mark-Fine o.marks w c.marks c (from, e, walk)
            (
              ground (
                arith,
                e,
                get_status-mark_processing (journaled S) K.zero K.now id id w.rows,
                text_eq_refl id,
              ),
              mark_processing-Walk S id from K.zero K.now from w.rows arrow e walk,
            ))
          (λ error v t. routed-Leads (decide (retry_count P message)) message error v t)

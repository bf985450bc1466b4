-- ===== src/Worker/Handler/Accounts.antt =====
-- What stands behind the broker when a message is acknowledged.
use scribeflow.Prelude.{ℕ, ◌≡◌, ◌≢◌, ◌⊎◌, refl, [], ◌∷◌, ◌++◌, Option, none, some, arith, inl, inr}
use scribeflow.Text.{Text}
use scribeflow.Text.Equality.{text_eq_refl}
use scribeflow.Jobs.{JobStatus, queued, processing, completed, failed}
use scribeflow.Store.{JobStore}
use scribeflow.Worker.Retry.{Decision, retry, dead, decide}
use scribeflow.Worker.Database.{get_status, record_retry, fail}
use scribeflow.Worker.Database.Lookup.{get_status-record_retry, get_status-fail}
use scribeflow.Worker.Message.{Python, Message, parse, retry_count}
use scribeflow.Worker.Handler.{
  Fate, returns, raises, dies, unsettled, acked, rejected, requeued, Outcome, Fates, Site,
  Constants, caught, call, on_rows, settle, retry_message, dead_message, to_retry_queue,
  to_dead_queue, route, routed, handle_failure, attempt, process, by_status, read_status, parsed,
  handle_message,
}
use scribeflow.Worker.Handler.Rules.{call_rule, call_then_rule, caught_rule}
use scribeflow.Worker.Handler.Midway.{IsMidway, attempt-IsMidway}

module _ {Number : Type 0} (S : JobStore Number) (P : Python) (K : Constants Number)
    (o : Fates Number) where
  open P use {Foreign}

  module _ (message : Message Foreign) (id : Text) (w : Site S Foreign) where
    -- After a delivery: the job is completed; or a copy of the message waits in the retry queue and
    -- the job is queued; or a copy is parked in the dead queue and the job has failed.
    abbrev pub IsCovered : Site S Foreign → Type 0
    IsCovered w' =
        (get_status S id w'.rows ≡ some completed)
        ⊎ (((ttl_ms : ℕ) × (decide (retry_count P message) ≡ some (retry ttl_ms))
              × (w'.retry_queue ≡ w.retry_queue ++ retry_message S P K o message ttl_ms ∷ [])
              × (get_status S id w'.rows ≡ some queued))
            ⊎ ((decide (retry_count P message) ≡ some dead)
                × (w'.dead_queue ≡ w.dead_queue ++ dead_message S P K o message ∷ [])
                × (get_status S id w'.rows ≡ some failed)))

    -- An acknowledgement is covered, and only the message of a job without a row is rejected.
    abbrev IsAccounted : Site S Foreign → Type 0
    IsAccounted v =
        (v.settlement ≡ acked → IsCovered v)
        × (v.settlement ≡ rejected → get_status S id v.rows ≡ none)

    -- A message that the handler of the pipeline has not yet answered otherwise is not rejected.
    midway-IsAccounted :
        (v v' : Site S Foreign)
        → IsMidway S P K o id w v
        → v'.settlement ≡ v.settlement
        → v'.rows ≡ v.rows
        → IsAccounted v'
    midway-IsAccounted v v' m same rows = (
      λ a. inl (ground (arith, m.answer, same, rows)),
      λ r. absurd (ground (arith, m.answer, same)),
    )

    covered-IsAccounted :
        (v v' : Site S Foreign)
        → IsMidway S P K o id w v
        → IsCovered v'
        → (v'.settlement ≡ acked) ⊎ (v'.settlement ≡ v.settlement)
        → IsAccounted v'
    covered-IsAccounted v v' m c same = (λ a. c, λ r. absurd (ground (arith, m.answer, same)))

    route-retry :
        (ttl_ms : ℕ) (error : Text) (v : Site S Foreign)
        → decide (retry_count P message) ≡ some (retry ttl_ms)
        → IsMidway S P K o id w v
        → IsAccounted (route S P K o (retry ttl_ms) message id error v).1
    route-retry ttl_ms error v e m =
        let sent : Site S Foreign =
          to_retry_queue S P K o (retry_message S P K o message ttl_ms) v in
        let noted : Site S Foreign = on_rows S P K o (record_retry S K.now id error) sent in
        let covered : IsCovered noted = inr (
          inl (
            ttl_ms,
            e,
            ground (arith, m.retries),
            ground (
              arith,
              m.there,
              get_status-record_retry S K.now id id error v.rows,
              text_eq_refl id,
            ),
          )) in
        let before = midway-IsAccounted v sent m refl refl in
        let after = covered-IsAccounted v noted m covered (inr refl) in
        call_then_rule IsAccounted o.publishes _ _ v (midway-IsAccounted v v m refl refl) before (
          call_then_rule IsAccounted o.records _ _ sent before after (
            call_rule IsAccounted o.acks_failure _ noted after (
              covered-IsAccounted v (settle S P K o acked noted) m covered
                (ground (arith, m.answer)))))

    route-dead :
        (error : Text) (v : Site S Foreign)
        → decide (retry_count P message) ≡ some dead
        → IsMidway S P K o id w v
        → IsAccounted (route S P K o dead message id error v).1
    route-dead error v e m =
        let sent : Site S Foreign = to_dead_queue S P K o (dead_message S P K o message) v in
        let noted : Site S Foreign = on_rows S P K o (fail S K.now id error) sent in
        let covered : IsCovered noted = inr (
          inr (
            e,
            ground (arith, m.deads),
            ground (arith, m.there, get_status-fail S K.now id id error v.rows, text_eq_refl id),
          )) in
        let before = midway-IsAccounted v sent m refl refl in
        let after = covered-IsAccounted v noted m covered (inr refl) in
        call_then_rule IsAccounted o.publishes _ _ v (midway-IsAccounted v v m refl refl) before (
          call_then_rule IsAccounted o.records _ _ sent before after (
            call_rule IsAccounted o.acks_failure _ noted after (
              covered-IsAccounted v (settle S P K o acked noted) m covered
                (ground (arith, m.answer)))))

    settle-requeued : (v : Site S Foreign) → IsAccounted v → IsAccounted (settle S P K o requeued v)
    settle-requeued v (a, r) = (λ e. a (ground arith), λ e. r (ground arith))

    requeue-IsAccounted :
        (x : Outcome (Unit {0}) × Site S Foreign)
        → IsAccounted x.1
        → IsAccounted (caught x (λ _. call o.nacks (settle S P K o requeued))).1
    requeue-IsAccounted x q =
        caught_rule IsAccounted x _ q
          (λ e. call_rule IsAccounted o.nacks _ x.1 q (settle-requeued x.1 q))

    routed-IsAccounted :
        (decision : Option Decision) (error : Text) (v : Site S Foreign)
        → decide (retry_count P message) ≡ decision
        → IsMidway S P K o id w v
        → IsAccounted (routed S P K o decision message id error v).1
    routed-IsAccounted none error v e m = midway-IsAccounted v v m refl refl
    routed-IsAccounted (some (retry ttl_ms)) error v e m =
        requeue-IsAccounted _ (route-retry ttl_ms error v e m)
    routed-IsAccounted (some dead) error v e m = requeue-IsAccounted _ (route-dead error v e m)

    process-IsAccounted :
        w.settlement ≡ unsettled
        → get_status S id w.rows ≢ none
        → IsAccounted (process S P K o message id w).1
    unfolding process handle_failure
    process-IsAccounted u h =
        let m = attempt-IsMidway S P K o id w u h in
        caught_rule IsAccounted (attempt S P K o id w) _ (midway-IsAccounted _ _ m refl refl) (λ e.
          routed-IsAccounted (decide (retry_count P message)) e (attempt S P K o id w).1 refl m)

    fresh-IsAccounted : w.settlement ≡ unsettled → IsAccounted w
    fresh-IsAccounted u = (λ a. absurd (ground arith), λ r. absurd (ground arith))

    requeued-IsAccounted :
        w.settlement ≡ unsettled → IsAccounted (call o.nacks (settle S P K o requeued) w).1
    requeued-IsAccounted u =
        let fresh = fresh-IsAccounted u in
        call_rule IsAccounted o.nacks _ w fresh (settle-requeued w fresh)

    rejected-IsAccounted :
        w.settlement ≡ unsettled
        → get_status S id w.rows ≡ none
        → IsAccounted (call o.nacks (settle S P K o rejected) w).1
    rejected-IsAccounted u e =
        call_rule IsAccounted o.nacks _ w (fresh-IsAccounted u) (λ a. absurd (ground arith), λ r. e)

    acked-IsAccounted :
        w.settlement ≡ unsettled
        → get_status S id w.rows ≡ some completed
        → IsAccounted (call o.acks (settle S P K o acked) w).1
    acked-IsAccounted u e =
        call_rule IsAccounted o.acks _ w (fresh-IsAccounted u)
          (λ a. inl e, λ r. absurd (ground arith))

    by_status-IsAccounted :
        (status : Option JobStatus)
        → get_status S id w.rows ≡ status
        → w.settlement ≡ unsettled
        → IsAccounted (by_status S P K o status message id w).1
    by_status-IsAccounted none e u = rejected-IsAccounted u e
    by_status-IsAccounted (some completed) e u = acked-IsAccounted u e
    by_status-IsAccounted (some queued) e u = process-IsAccounted u (λ n. cc)
    by_status-IsAccounted (some processing) e u = process-IsAccounted u (λ n. cc)
    by_status-IsAccounted (some failed) e u = process-IsAccounted u (λ n. cc)

    read_status-IsAccounted :
        (fate : Fate)
        → w.settlement ≡ unsettled
        → IsAccounted (read_status S P K o fate message id w).1
    read_status-IsAccounted returns u = by_status-IsAccounted (get_status S id w.rows) refl u
    read_status-IsAccounted (raises applied e) u = requeued-IsAccounted u
    read_status-IsAccounted (dies applied) u = fresh-IsAccounted u

    handle_message-IsAccounted :
        (path : Text)
        → parse P message ≡ some (id, path)
        → w.settlement ≡ unsettled
        → IsAccounted (handle_message S P K o message w).1
    unfolding handle_message
    handle_message-IsAccounted path e u = rw (e, parsed) (read_status-IsAccounted o.reads u)

    -- However the calls of a delivery end, and wherever the worker dies: if the message of a job has
    -- been acknowledged, then the job is completed, or a copy of the message with the count one up
    -- waits in the retry queue and the job is queued, or a copy is parked in the dead queue and the
    -- job has failed, as `decide` says for the count of the message.
    pub handle_message-IsCovered :
        (path : Text)
        → parse P message ≡ some (id, path)
        → w.settlement ≡ unsettled
        → (handle_message S P K o message w).1.settlement ≡ acked
        → IsCovered (handle_message S P K o message w).1
    handle_message-IsCovered path e u a = (handle_message-IsAccounted path e u).0 a

    pub handle_message-rejected :
        (path : Text)
        → parse P message ≡ some (id, path)
        → w.settlement ≡ unsettled
        → (handle_message S P K o message w).1.settlement ≡ rejected
        → get_status S id (handle_message S P K o message w).1.rows ≡ none
    handle_message-rejected path e u r = (handle_message-IsAccounted path e u).1 r

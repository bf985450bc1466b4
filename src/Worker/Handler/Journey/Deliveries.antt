-- ===== src/Worker/Handler/Journey/Deliveries.antt =====
-- One failing delivery on the way.
use scribeflow.Prelude.{
  ℕ, suc, ◌+◌, ◌≡◌, ◌≢◌, refl, ap, ◌∙◌, List, [], ◌∷◌, some, arith, append-nil, drop-length,
}
use scribeflow.Prelude.Int.{ℤ}
use scribeflow.Text.{Text}
use scribeflow.Text.Equality.{text_eq_refl}
use scribeflow.Jobs.{JobStatus, queued, processing, completed}
use scribeflow.Store.{JobStore}
use scribeflow.Worker.Retry.{retry, decide}
use scribeflow.Worker.Database.{get_status, mark_processing, update_progress, record_retry}
use scribeflow.Worker.Database.Attempts.{
  get_attempts, get_attempts-mark_processing, get_attempts-record_retry,
  get_attempts-update_progress,
}
use scribeflow.Worker.Database.Lookup.{get_status-mark_processing, get_status-record_retry}
use scribeflow.Worker.Message.{Python, Message, parse, retry_count}
use scribeflow.Worker.Message.Headers.{retry_count-set, parse-same_body}
use scribeflow.Worker.Handler.{
  unsettled, acked, Fates, Site, Constants, retry_message, succ, report, process,
}
use scribeflow.Worker.Handler.Midway.{get_status-report}
use scribeflow.Worker.Handler.Journey.{failing, tried, onward, journey, process-retry}
use scribeflow.Worker.Handler.Dispatch.{handle-process}

module _ {Number : Type 0} (S : JobStore Number) (P : Python) (K : Constants Number) where
  open P use {Foreign}

  module _ (reported : List Number) (error : Text) (id : Text) where
    abbrev o : Fates Number
    o = failing S P K reported error

    -- What a delivery finds: the message of the job with its count, and the row.
    pub record IsReady (count : ℤ) (attempts : ℕ) (m : Message Foreign) (w : Site S Foreign)
        : Type 0 where
      pub path : Text
      pub status : JobStatus
      pub named : parse P m ≡ some (id, path)
      pub counted : retry_count P m ≡ count
      pub there : get_status S id w.rows ≡ some status
      pub open_job : status ≢ completed
      pub tries : get_attempts S id w.rows ≡ some attempts

    unfoldable pub after_retry : Site S Foreign → Site S Foreign
    after_retry w = record {
      rows = record_retry S K.now id error (tried S P K reported error id w.rows);
      retry_queue = w.retry_queue;
      dead_queue = w.dead_queue;
      settlement = acked;
    }

    -- A delivery on the way, from what its handler does.
    pub journey-suc :
        (count : ℤ) (a n : ℕ) (m : Message Foreign) (w v : Site S Foreign)
        → IsReady count a m w
        → (process S P K o m id (record w { settlement = unsettled })).1 ≡ v
        → journey S P K reported error (suc n) m w
          ≡ onward S P K w.retry_queue v (journey S P K reported error n)
    unfolding journey
    journey-suc count a n m w v r e =
        ap (λ x. onward S P K w.retry_queue x.1 (journey S P K reported error n))
          (handle-process S P K (o) id r.path m r.status (record w { settlement = unsettled }) refl
            r.named r.there r.open_job)
        ∙ ap (λ u. onward S P K w.retry_queue u (journey S P K reported error n)) e

    pub journey-retry :
        (count : ℤ) (ttl_ms a n : ℕ) (m : Message Foreign) (w : Site S Foreign)
        → IsReady count a m w
        → decide count ≡ some (retry ttl_ms)
        → journey S P K reported error (suc n) m w ≡ (
          some ttl_ms
              ∷ (journey S P K reported error n (retry_message S P K o m ttl_ms) (after_retry w)).0,
          (journey S P K reported error n (retry_message S P K o m ttl_ms) (after_retry w)).1,
        )
    unfolding after_retry
    journey-retry count ttl_ms a n m w r e =
        journey-suc count a n m w _ r (
          process-retry S P K reported error id ttl_ms m (record w { settlement = unsettled })
            (rw r.counted e))
        ∙ rw (
          drop-length w.retry_queue (retry_message S P K o m ttl_ms ∷ []),
          append-nil w.retry_queue,
        )

    get_attempts-report :
        (reported : List Number) (rows : S.Rows)
        → get_attempts S id (report S P K o id reported rows) ≡ get_attempts S id rows
    get_attempts-report [] rows = refl
    get_attempts-report (p ∷ reported) rows =
        get_attempts-report reported (update_progress S K.now id p rows)
        ∙ get_attempts-update_progress S K.now id p rows

    pub tried-get_attempts :
        (rows : S.Rows) (a : ℕ)
        → get_attempts S id rows ≡ some a
        → get_attempts S id (tried S P K reported error id rows) ≡ some (a + 1)
    tried-get_attempts rows a e = ground (
      arith,
      get_attempts-report reported (mark_processing S K.zero K.now id rows),
      get_attempts-mark_processing S K.zero K.now id rows,
    )

    pub tried-get_status :
        (rows : S.Rows) (s : JobStatus)
        → get_status S id rows ≡ some s
        → get_status S id (tried S P K reported error id rows) ≡ some processing
    tried-get_status rows s e = ground (
      arith,
      get_status-report S P K o id id reported (mark_processing S K.zero K.now id rows),
      get_status-mark_processing S K.zero K.now id id rows,
      text_eq_refl id,
    )

    -- After a failure that is retried, the copy finds the job queued, one attempt later.
    pub retry-IsReady :
        (count : ℤ) (ttl_ms a : ℕ) (m : Message Foreign) (w : Site S Foreign)
        → IsReady count a m w
        → IsReady (succ count) (a + 1) (retry_message S P K o m ttl_ms) (after_retry w)
    unfolding after_retry
    retry-IsReady count ttl_ms a m w r = record {
      path = r.path;
      status = queued;
      named = parse-same_body P m (retry_message S P K o m ttl_ms) refl ∙ r.named;
      counted =
          retry_count-set P m.body (some ttl_ms) (succ (retry_count P m)) m.headers
          ∙ ap succ r.counted;
      there = ground (
        arith,
        tried-get_status w.rows r.status r.there,
        get_status-record_retry S K.now id id error (tried S P K reported error id w.rows),
        text_eq_refl id,
      );
      open_job = λ e. cc;
      tries = ground (
        arith,
        tried-get_attempts w.rows a r.tries,
        get_attempts-record_retry S K.now id error (tried S P K reported error id w.rows),
      );
    }

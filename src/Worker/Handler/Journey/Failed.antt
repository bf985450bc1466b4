-- ===== src/Worker/Handler/Journey/Failed.antt =====
-- The whole way of a message whose transcription fails each time.
use scribeflow.Prelude.{
  ℕ, suc, ◌+◌, ◌≡◌, ◌≢◌, refl, ap, ◌∙◌, List, [], ◌∷◌, ◌++◌, some, arith, drop-length_self,
}
use scribeflow.Prelude.Int.{ℤ, pos}
use scribeflow.Text.{Text}
use scribeflow.Text.Equality.{text_eq_refl}
use scribeflow.Jobs.{JobStatus, completed, failed}
use scribeflow.Store.{JobStore}
use scribeflow.Worker.Retry.{retry, dead, decide}
use scribeflow.Worker.Database.{get_status, fail}
use scribeflow.Worker.Database.Attempts.{get_attempts, get_attempts-fail}
use scribeflow.Worker.Database.Lookup.{get_status-fail}
use scribeflow.Worker.Message.{Python, Message, parse, retry_count}
use scribeflow.Worker.Handler.{unsettled, acked, Fates, Site, Constants, dead_message}
use scribeflow.Worker.Handler.Journey.{failing, tried, journey, process-dead}
use scribeflow.Worker.Handler.Journey.Deliveries.{
  IsReady, after_retry, journey-suc, journey-retry, tried-get_attempts, tried-get_status,
  retry-IsReady,
}

decide_0 : decide (pos 0) ≡ some (retry 10000)
unfolding decide
decide_0 = refl

decide_1 : decide (pos 1) ≡ some (retry 30000)
unfolding decide
decide_1 = refl

decide_2 : decide (pos 2) ≡ some (retry 90000)
unfolding decide
decide_2 = refl

decide_3 : decide (pos 3) ≡ some dead
unfolding decide
decide_3 = refl

module _ {Number : Type 0} (S : JobStore Number) (P : Python) (K : Constants Number) where
  open P use {Foreign}

  module _ (reported : List Number) (error : Text) (id : Text) where
    abbrev o : Fates Number
    o = failing S P K reported error

    -- The last delivery.
    journey-dead :
        (count : ℤ) (a n : ℕ) (m : Message Foreign) (w : Site S Foreign)
        → IsReady S P K reported error id count a m w
        → decide count ≡ some dead
        → journey S P K reported error (suc n) m w ≡ (
          [],
          record {
            rows = fail S K.now id error (tried S P K reported error id w.rows);
            retry_queue = w.retry_queue;
            dead_queue = w.dead_queue ++ dead_message S P K o m ∷ [];
            settlement = acked;
          },
        )
    journey-dead count a n m w r e =
        journey-suc S P K reported error id count a n m w _ r (
          process-dead S P K reported error id m (record w { settlement = unsettled })
            (rw r.counted e))
        ∙ rw (drop-length_self w.retry_queue)

    retry_count-dead_message :
        (m : Message Foreign) → retry_count P (dead_message S P K o m) ≡ retry_count P m
    unfolding retry_count
    retry_count-dead_message m = refl

    -- What the last delivery leaves.
    last_delivery :
        (count : ℤ) (a n : ℕ) (m : Message Foreign) (w : Site S Foreign)
        → IsReady S P K reported error id count a m w
        → decide count ≡ some dead
        → let (delays, v) = journey S P K reported error (suc n) m w in
          (delays ≡ [])
          × (get_status S id v.rows ≡ some failed)
          × (get_attempts S id v.rows ≡ some (a + 1))
          × (v.retry_queue ≡ w.retry_queue)
          × ((copy : Message Foreign) × (v.dead_queue ≡ w.dead_queue ++ copy ∷ [])
              × (copy.body ≡ m.body)
              × (retry_count P copy ≡ count))
    last_delivery count a n m w r e = rw (journey-dead count a n m w r e) (
      refl,
      ground (
        arith,
        tried-get_status S P K reported error id w.rows r.status r.there,
        get_status-fail S K.now id id error (tried S P K reported error id w.rows),
        text_eq_refl id,
      ),
      ground (
        arith,
        tried-get_attempts S P K reported error id w.rows a r.tries,
        get_attempts-fail S K.now id error (tried S P K reported error id w.rows),
      ),
      refl,
      (dead_message S P K o m, refl, refl, retry_count-dead_message m ∙ r.counted),
    )

    -- A new message of a job that is not completed, whose transcription fails at each delivery, while
    -- every call of the database and the broker returns, is delivered four times, the copies waiting 10, 30 and 90 seconds; then the job has failed with
    -- four attempts more, the retry queue is as before, and a copy with the same body and the count
    -- 3 stands in the dead queue. More deliveries are not asked for.
    pub journey-failed :
        (m : Message Foreign) (path : Text) (s : JobStatus) (a more : ℕ) (w : Site S Foreign)
        → parse P m ≡ some (id, path)
        → retry_count P m ≡ pos 0
        → get_status S id w.rows ≡ some s
        → s ≢ completed
        → get_attempts S id w.rows ≡ some a
        → let (delays, v) = journey S P K reported error (suc (suc (suc (suc more)))) m w in
          (delays ≡ some 10000 ∷ some 30000 ∷ some 90000 ∷ [])
          × (get_status S id v.rows ≡ some failed)
          × (get_attempts S id v.rows ≡ some (a + 4))
          × (v.retry_queue ≡ w.retry_queue)
          × ((copy : Message Foreign) × (v.dead_queue ≡ w.dead_queue ++ copy ∷ [])
              × (copy.body ≡ m.body)
              × (retry_count P copy ≡ pos 3))
    unfolding after_retry
    journey-failed m path s a more w e c t ne k =
        let r0 : IsReady S P K reported error id (pos 0) a m w = record {
          path = path;
          status = s;
          named = e;
          counted = c;
          there = t;
          open_job = ne;
          tries = k;
        } in
        let r1 = retry-IsReady S P K reported error id (pos 0) 10000 a m w r0 in
        let r2 = retry-IsReady S P K reported error id (pos 1) 30000 (a + 1) _ _ r1 in
        let r3 = retry-IsReady S P K reported error id (pos 2) 90000 (a + 1 + 1) _ _ r2 in
        let (delays, status, tries, retries, copy) =
          last_delivery (pos 3) (a + 1 + 1 + 1) more _ _ r3 decide_3 in
        rw
          (
            journey-retry S P K reported error id (pos 0) 10000 a (suc (suc (suc more))) m w r0
                decide_0,
            journey-retry S P K reported error id (pos 1) 30000 (a + 1) (suc (suc more)) _ _ r1
                decide_1,
            journey-retry S P K reported error id (pos 2) 90000 (a + 1 + 1) (suc more) _ _ r2
                decide_2,
          )
          (
            ap (λ ds. some 10000 ∷ some 30000 ∷ some 90000 ∷ ds) delays,
            status,
            ground (arith, tries),
            retries,
            copy,
          )

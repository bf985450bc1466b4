-- ===== src/Worker/Handler/Journey.antt =====
-- A message whose transcription fails each time.
pub mod Deliveries
pub mod Failed
use scribeflow.Prelude.{
  ℕ, zero, suc, ◌+◌, ◌≡◌, List, [], ◌∷◌, ◌++◌, Option, some, arith, length, drop,
}
use mathlib.Core.Option
use scribeflow.Text.{Text}
use scribeflow.Store.{JobStore}
use scribeflow.Worker.Retry.{retry, dead, decide}
use scribeflow.Worker.Database.{mark_processing, record_retry, fail}
use scribeflow.Worker.Message.{Python, Message, retry_count}
use scribeflow.Worker.Handler.{
  returns, breaks, unsettled, acked, Fates, Site, Constants, settle, retry_message, dead_message,
  report, handle_failure, process, handle_message,
}

module _ {Number : Type 0} (S : JobStore Number) (P : Python) (K : Constants Number) where
  open P use {Foreign}

  -- Every call returns, and the pipeline raises.
  abbrev pub failing : List Number → Text → Fates Number
  failing reported error = record {
    reads = returns;
    marks = returns;
    pipeline = breaks reported error;
    completes = returns;
    acks = returns;
    publishes = returns;
    records = returns;
    acks_failure = returns;
    nacks = returns;
  }

  -- The message is delivered; if that puts copies into the retry queue, the first of them expires
  -- and is delivered next, for as many deliveries as are allowed.
  abbrev pub next_copy : List (Message Foreign) → List (Message Foreign) → List (Message Foreign)
  next_copy before after = drop (length before) after

  -- On with the first of the copies that the delivery has put behind the queue `before`; the result
  -- has the delays of the copies in order.
  abbrev pub followed :
      List (Message Foreign)
      → List (Message Foreign)
      → Site S Foreign
      → (Message Foreign → Site S Foreign → List (Option ℕ) × Site S Foreign)
      → List (Option ℕ) × Site S Foreign
  followed [] before v go = ([], v)
  followed (copy ∷ copies) before v go =
      let (delays, u) = go copy (record v { retry_queue = before ++ copies }) in
      (copy.expiration ∷ delays, u)

  abbrev pub onward :
      List (Message Foreign)
      → Site S Foreign
      → (Message Foreign → Site S Foreign → List (Option ℕ) × Site S Foreign)
      → List (Option ℕ) × Site S Foreign
  onward before v go = followed (next_copy before v.retry_queue) before v go

  unfoldable pub journey :
      List Number → Text → ℕ → Message Foreign → Site S Foreign → List (Option ℕ) × Site S Foreign
  journey reported error zero m w = ([], w)
  journey reported error (suc n) m w =
      onward w.retry_queue
        (handle_message S P K (failing reported error) m (record w { settlement = unsettled })).1
        (journey reported error n)

  module _ (reported : List Number) (error : Text) (id : Text) where
    abbrev pub o : Fates Number
    o = failing reported error

    -- The rows when the pipeline has failed.
    abbrev pub tried : S.Rows → S.Rows
    tried rows = report S P K o id reported (mark_processing S K.zero K.now id rows)

    pub process-retry :
        (ttl_ms : ℕ) (m : Message Foreign) (w : Site S Foreign)
        → decide (retry_count P m) ≡ some (retry ttl_ms)
        → (process S P K o m id w).1 ≡ record {
          rows = record_retry S K.now id error (tried w.rows);
          retry_queue = w.retry_queue ++ retry_message S P K o m ttl_ms ∷ [];
          dead_queue = w.dead_queue;
          settlement = (settle S P K o acked w).settlement;
        }
    unfolding process handle_failure
    process-retry ttl_ms m w e = rw e

    pub process-dead :
        (m : Message Foreign) (w : Site S Foreign)
        → decide (retry_count P m) ≡ some dead
        → (process S P K o m id w).1 ≡ record {
          rows = fail S K.now id error (tried w.rows);
          retry_queue = w.retry_queue;
          dead_queue = w.dead_queue ++ dead_message S P K o m ∷ [];
          settlement = (settle S P K o acked w).settlement;
        }
    unfolding process handle_failure
    process-dead m w e = rw e

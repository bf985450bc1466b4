-- ===== src/Worker/Handler.antt =====
-- `handle_message` and `handle_failure` of worker/main.py. Each call of the database and the broker
-- ends as its `Fate` says, and so does the pipeline of ffmpeg and whisper. A message that is published
-- stands in the queue that the topology routes it to.
pub mod Rules
pub mod Midway
pub mod Dispatch
pub mod Accounts
pub mod Frame
pub mod Diagram
pub mod Journey
pub mod Completed
pub mod Success
mod Tests
use scribeflow.Prelude.{ℕ, ◌+◌, Bool, List, [], ◌∷◌, ◌++◌, Option, none, some, if◌then◌else◌}
use scribeflow.Prelude.Int.{ℤ, pos, negsuc}
use scribeflow.Text.{Text}
use scribeflow.Jobs.{JobStatus, completed, Transcript}
use scribeflow.Store.{JobStore}
use scribeflow.Worker.Retry.{Decision, retry, dead, decide}
use scribeflow.Worker.Database.{
  get_status, mark_processing, update_progress, complete, record_retry, fail,
}
use scribeflow.Worker.Message.{
  Python, number, Message, retry_count_header, with_entry, parse, retry_count,
}

-- How an awaited call ends: it returns; it raises an exception with a text; or the worker dies in it.
-- The flag says whether the call took effect all the same, as when the answer is lost.
pub data Fate : Type 0 where
  returns : Fate
  raises : Bool → Text → Fate
  dies : Bool → Fate

-- How the pipeline ends, with the progress that it has had written.
pub data Run (Number : Type 0) : Type 0 where
  transcribes : List Number → Transcript Number → Run Number
  breaks : List Number → Text → Run Number
  cut_off : List Number → Run Number

-- What the broker is told of the delivery; the first answer counts.
pub data Settlement : Type 0 where
  unsettled acked rejected requeued : Settlement

pub data Outcome (A : Type 0) : Type 0 where
  value : A → Outcome A
  exception : Text → Outcome A
  died : Outcome A

-- The fates of the calls of one delivery.
pub record Fates (Number : Type 0) : Type 0 where
  pub reads : Fate
  pub marks : Fate
  pub pipeline : Run Number
  pub completes : Fate
  pub acks : Fate
  pub publishes : Fate
  pub records : Fate
  pub acks_failure : Fate
  pub nacks : Fate

pub record Site {Number : Type 0} (S : JobStore Number) (Foreign : Type 0) : Type 0 where
  pub rows : S.Rows
  pub retry_queue : List (Message Foreign)
  pub dead_queue : List (Message Foreign)
  pub settlement : Settlement

-- The numbers 0 and 1 of the column of progress, and the time of the database.
pub record Constants (Number : Type 0) : Type 0 where
  pub zero : Number
  pub one : Number
  pub now : ℕ

abbrev pub succ : ℤ → ℤ
succ (pos n) = pos (n + 1)
succ (negsuc ℕ.zero) = pos 0
succ (negsuc (ℕ.suc n)) = negsuc n

abbrev pub settled : Settlement → Settlement → Settlement
settled unsettled answer = answer
settled first answer = first

abbrev pub M : Type 0 → Type 0 → Type 0
M W A = W → Outcome A × W

module _ {W : Type 0} where
  abbrev pub then_with : {A B : Type 0} → Outcome A × W → (A → M W B) → Outcome B × W
  then_with (value a, w) f = f a w
  then_with (exception e, w) f = (exception e, w)
  then_with (died, w) f = (died, w)

  infixl 5 ◌>>=◌ ◌>>◌
  abbrev pub ◌>>=◌ : {A B : Type 0} → M W A → (A → M W B) → M W B
  ◌>>=◌ m f w = then_with (m w) f

  abbrev pub ◌>>◌ : {B : Type 0} → M W (Unit {0}) → M W B → M W B
  ◌>>◌ m k w = then_with (m w) (λ _. k)

  abbrev pub caught : {A : Type 0} → Outcome A × W → (Text → M W A) → Outcome A × W
  caught (value a, w) handler = (value a, w)
  caught (exception e, w) handler = handler e w
  caught (died, w) handler = (died, w)

  -- An awaited call with its effect.
  abbrev pub call : Fate → (W → W) → M W (Unit {0})
  call returns effect w = (value tt, effect w)
  call (raises applied e) effect w = (exception e, if applied then effect w else w)
  call (dies applied) effect w = (died, if applied then effect w else w)

module _ {Number : Type 0} (S : JobStore Number) (P : Python) (K : Constants Number)
    (o : Fates Number) where
  open P use {Foreign}

  abbrev pub on_rows : (S.Rows → S.Rows) → Site S Foreign → Site S Foreign
  on_rows f w = record w { rows = f w.rows }

  abbrev pub settle : Settlement → Site S Foreign → Site S Foreign
  settle answer w = record w { settlement = settled w.settlement answer }

  abbrev pub retry_message : Message Foreign → ℕ → Message Foreign
  retry_message message ttl_ms = record {
    body = message.body;
    headers = with_entry retry_count_header (number (succ (retry_count P message))) message.headers;
    expiration = some ttl_ms;
  }

  abbrev pub dead_message : Message Foreign → Message Foreign
  dead_message message = record {
    body = message.body;
    headers = message.headers;
    expiration = none;
  }

  abbrev pub to_retry_queue : Message Foreign → Site S Foreign → Site S Foreign
  to_retry_queue message w = record w { retry_queue = w.retry_queue ++ message ∷ [] }

  abbrev pub to_dead_queue : Message Foreign → Site S Foreign → Site S Foreign
  to_dead_queue message w = record w { dead_queue = w.dead_queue ++ message ∷ [] }

  -- The second `try` of `handle_failure`.
  abbrev pub route : Decision → Message Foreign → Text → Text → M (Site S Foreign) (Unit {0})
  route (retry ttl_ms) message id error = do
    call o.publishes (to_retry_queue (retry_message message ttl_ms))
    call o.records (on_rows (record_retry S K.now id error))
    call o.acks_failure (settle acked)
  route dead message id error = do
    call o.publishes (to_dead_queue (dead_message message))
    call o.records (on_rows (fail S K.now id error))
    call o.acks_failure (settle acked)

  -- An IndexError of `decide` is raised outside of that `try`.
  abbrev pub routed :
      Option Decision → Message Foreign → Text → Text → M (Site S Foreign) (Unit {0})
  routed none message id error w = (exception [], w)
  routed (some decision) message id error w =
      caught (route decision message id error w) (λ _. call o.nacks (settle requeued))

  unfoldable pub handle_failure : Message Foreign → Text → Text → M (Site S Foreign) (Unit {0})
  handle_failure message id error = routed (decide (retry_count P message)) message id error

  abbrev pub report : Text → List Number → S.Rows → S.Rows
  report id [] rows = rows
  report id (progress ∷ later) rows = report id later (update_progress S K.now id progress rows)

  abbrev pub run_in_thread : Run Number → Text → M (Site S Foreign) (Transcript Number)
  run_in_thread (transcribes reported transcript) id w =
      (value transcript, on_rows (report id reported) w)
  run_in_thread (breaks reported error) id w = (exception error, on_rows (report id reported) w)
  run_in_thread (cut_off reported) id w = (died, on_rows (report id reported) w)

  -- The last `try` of `handle_message`, up to its handler.
  abbrev pub attempt : Text → M (Site S Foreign) (Unit {0})
  attempt id = do
    call o.marks (on_rows (mark_processing S K.zero K.now id))
    transcript ← run_in_thread o.pipeline id
    call o.completes (on_rows (complete S K.one K.now id transcript))
    call o.acks (settle acked)

  unfoldable pub process : Message Foreign → Text → M (Site S Foreign) (Unit {0})
  unfolding handle_failure
  process message id w = caught (attempt id w) (λ error. handle_failure message id error)

  -- What follows on the status that was read.
  abbrev pub by_status : Option JobStatus → Message Foreign → Text → M (Site S Foreign) (Unit {0})
  by_status none message id = call o.nacks (settle rejected)
  by_status (some completed) message id = call o.acks (settle acked)
  by_status (some status) message id = process message id

  abbrev pub read_status : Fate → Message Foreign → Text → M (Site S Foreign) (Unit {0})
  read_status returns message id w = by_status (get_status S id w.rows) message id w
  read_status (raises applied e) message id w = call o.nacks (settle requeued) w
  read_status (dies applied) message id w = (died, w)

  abbrev pub parsed : Option (Text × Text) → Message Foreign → M (Site S Foreign) (Unit {0})
  parsed none message = call o.nacks (settle rejected)
  parsed (some (id, path)) message = read_status o.reads message id

  -- `handle_message` for one delivery.
  unfoldable pub handle_message : Message Foreign → M (Site S Foreign) (Unit {0})
  unfolding process
  handle_message message = parsed (parse P message) message

-- ===== src/System.antt =====
-- API, broker, database and worker together: the rows, the messages of the three queues, and the
-- events that change them. The API's messages are `JSON.stringify` of a JobMessage; the broker keeps
-- a message that is not acknowledged or rejected, and moves rejected and expired ones as the
-- topology says. A delivery and a request run without another event in between, but for the progress
-- that a pipeline has written, which may also arrive late.
pub mod Picked
pub mod Awaited
pub mod Stranded
pub mod Interleaved
mod Samples
mod Tests
use scribeflow.Prelude.{
  ℕ, zero, suc, ◌≡◌, List, [], ◌∷◌, ◌++◌, map, Option, none, some, length, drop,
}
use scribeflow.Text.{Text, codes}
use scribeflow.Text.Utf8.{Bytes}
use scribeflow.Queue.Topology.{JobMessage}
use scribeflow.Store.{JobStore}
use scribeflow.Service.{MulterFile, Outcomes, Platform, World, create}
use scribeflow.Worker.Database.{update_progress}
use scribeflow.Worker.Message.{Python, fields, Message}
use scribeflow.Worker.Handler.{
  Settlement, unsettled, acked, rejected, Fates, Site, Constants, handle_message,
}

-- What `JSON.stringify` writes, as `json.loads` reads it.
pub record Json (P : Python) : Type 0 where
  pub encode : JobMessage → Bytes
  pub text_value : Text → P.Value
  pub number_value : ℕ → P.Value
  pub str-text_value : (t : Text) → P.str (text_value t) ≡ t
  pub loads-encode :
      (m : JobMessage)
      → P.loads (encode m)
        ≡ some (
            fields (
              (codes "jobId", text_value m.job_id)
              ∷ (codes "filePath", text_value m.file_path)
              ∷ (codes "attempt", number_value m.attempt)
              ∷ []))

pub record System {Number : Type 0} (S : JobStore Number) (Foreign : Type 0) : Type 0 where
  pub api : World S
  pub jobs : List (Message Foreign)
  pub retries : List (Message Foreign)
  pub deads : List (Message Foreign)

pub data Event (Number : Type 0) : Type 0 where
  -- a request of the API, with how its calls end, its new id and its time
  uploads : Outcomes → Text → ℕ → MulterFile → Event Number
  -- the n-th message of the jobs queue is delivered to a worker
  delivers : ℕ → Constants Number → Fates Number → Event Number
  -- the n-th message of the retry queue expires
  expires : ℕ → Event Number
  -- a write of progress arrives
  reports : ℕ → Text → Number → Event Number

unfoldable pub pick {ℓ} : {A : Type ℓ} → ℕ → List A → Option (A × List A)
pick n [] = none
pick zero (x ∷ xs) = some (x, xs)
pick (suc n) (x ∷ xs) = elim (pick n xs) [ none ↦ none | some (y, ys) ↦ some (y, x ∷ ys) ]

module _ {Number : Type 0} (S : JobStore Number) (A : Platform Number) (P : Python)
    (J : Json P) where
  open P use {Foreign}

  abbrev pub message_of : JobMessage → Message Foreign
  message_of m = record { body = J.encode m; headers = []; expiration = none }

  -- The messages that a request has sent.
  abbrev pub sent : List JobMessage → List JobMessage → List (Message Foreign)
  sent before after = map message_of (drop (length before) after)

  abbrev pub site : System S Foreign → Site S Foreign
  site s = record {
    rows = s.api.rows;
    retry_queue = s.retries;
    dead_queue = s.deads;
    settlement = unsettled;
  }

  abbrev pub with_site :
      Site S Foreign → List (Message Foreign) → System S Foreign → System S Foreign
  with_site v jobs s = record s {
    api = record s.api { rows = v.rows };
    jobs = jobs;
    retries = v.retry_queue;
    deads = v.dead_queue;
  }

  -- What the broker does with a delivered message that was so answered, or not at all.
  abbrev pub put_back :
      Settlement → Message Foreign → List (Message Foreign) → List (Message Foreign)
  put_back acked m rest = rest
  put_back rejected m rest = rest
  put_back _ m rest = m ∷ rest

  abbrev pub parked : Settlement → Message Foreign → List (Message Foreign) → List (Message Foreign)
  parked rejected m deads = deads ++ m ∷ []
  parked _ m deads = deads

  abbrev pub deliver :
      Constants Number
      → Fates Number
      → Message Foreign
      → List (Message Foreign)
      → System S Foreign
      → System S Foreign
  deliver K o m rest s =
      let v = (handle_message S P K o m (site s)).1 in
      with_site (record v { dead_queue = parked v.settlement m v.dead_queue })
        (put_back v.settlement m rest) s

  unfoldable pub step : Event Number → System S Foreign → System S Foreign
  unfolding pick
  step (uploads o job_id now file) s =
      let w = (create S A o job_id now file s.api).1 in
      record s { api = w; jobs = s.jobs ++ sent s.api.taken w.taken }
  step (delivers n K o) s = elim (pick n s.jobs) [
    | none ↦ s
    | some (m, rest) ↦ deliver K o m rest s
  ]
  step (expires n) s = elim (pick n s.retries) [
    | none ↦ s
    | some (m, rest) ↦ record s { jobs = s.jobs ++ m ∷ []; retries = rest }
  ]
  step (reports now id progress) s = record s {
    api = record s.api { rows = update_progress S now id progress s.api.rows };
  }

-- ===== src/System/Stranded.antt =====
-- No job is stranded: what is queued or processing has a message on its way.
pub mod Uploads
pub mod Deliveries
pub mod Steps
use scribeflow.Prelude.{◌≡◌, ◌⊎◌, Bool, true, false, [], ◌∷◌, Option, none, some, arith}
use scribeflow.Text.{Text}
use scribeflow.Jobs.{JobStatus, queued, processing}
use scribeflow.Store.{JobStore}
use scribeflow.Service.{Platform}
use scribeflow.Worker.Database.{get_status}
use scribeflow.Worker.Message.{Python}
use scribeflow.System.{Json, System, Event, uploads, step}
use scribeflow.System.Awaited.{Awaits}

abbrev pub is_unfinished : Option JobStatus → Bool
is_unfinished (some queued) = true
is_unfinished (some processing) = true
is_unfinished _ = false

module _ {Number : Type 0} (S : JobStore Number) (A : Platform Number) (P : Python)
    (J : Json P) where
  open P use {Foreign}

  -- Every job that is queued or processing is named by a message of the jobs queue, where one that a
  -- worker holds still stands, or by one that waits in the retry queue, or is excused by `Q`.
  abbrev pub NoneStranded : (Text → Type 0) → System S Foreign → Type 0
  NoneStranded Q s =
      (id : Text)
      → is_unfinished (get_status S id s.api.rows) ≡ true
      → Awaits P id s.jobs ⊎ Awaits P id s.retries ⊎ Q id

  -- Uploads get an id that is a UUID and new, and no deletion that undoes one fails.
  abbrev pub IsAllowed : Event Number → System S Foreign → Type 0
  IsAllowed (uploads o job_id now file) s =
      (P.is_uuid job_id ≡ true) × (S.find_one_by job_id s.api.rows ≡ none) × (o.deletes ≡ true)
  IsAllowed _ s = Unit {0}

  pub data Reachable : System S Foreign → Type 0 where
    nothing_yet :
        {s : System S Foreign} → ((id : Text) → S.find_one_by id s.api.rows ≡ none) → Reachable s
    next :
        {s : System S Foreign} (e : Event Number)
        → Reachable s
        → IsAllowed e s
        → Reachable (step S A P J e s)

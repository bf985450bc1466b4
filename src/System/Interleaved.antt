-- ===== src/System/Interleaved.antt =====
-- The system with its requests interleaved: each request waits at a stage of Service.Stages, and between
-- two of its calls other requests go on, messages are delivered, the connection to the broker changes,
-- or the process of the API dies and with it every request that it is at.
pub mod Unpublished
pub mod Rows
pub mod Steps
pub mod Accepted
mod Tests
use scribeflow.Prelude.{List, [], ◌∷◌, ◌++◌, none, some, ℕ}
use scribeflow.Queue.Publisher.{Publisher}
use scribeflow.Store.{JobStore}
use scribeflow.Service.{Outcomes, Platform}
use scribeflow.Service.Stages.{Creation, Stage, first_stage, proceed}
use scribeflow.Worker.Message.{Python}
use scribeflow.System.{Json, System, pick, sent, step}

abbrev pub Request : Type 0 → Type 0
Request Number = Creation × Stage Number

pub record Whole {Number : Type 0} (S : JobStore Number) (Foreign : Type 0) : Type 0 where
  pub system : System S Foreign
  pub pending : List (Request Number)
  -- the requests that the API was at when it died
  pub lost : List (Request Number)

pub data Turn (Number : Type 0) : Type 0 where
  -- a request arrives
  asks : Creation → Turn Number
  -- the call that the n-th request waits for ends
  goes_on : ℕ → Outcomes → Turn Number
  api_dies : Turn Number
  connects : Publisher → Turn Number
  -- an event of the worker, the broker or the progress, or a request that nothing comes in between
  happens : scribeflow.System.Event Number → Turn Number

module _ {Number : Type 0} (S : JobStore Number) (A : Platform Number) (P : Python)
    (J : Json P) where
  open P use {Foreign}

  -- One request after its call, the others as they were.
  abbrev pub gone_on :
      Outcomes → Request Number → List (Request Number) → Whole S Foreign → Whole S Foreign
  gone_on o (c, stage) rest s =
      let (stage', w) = proceed S A o c stage s.system.api in
      record s {
        system = record s.system {
          api = w;
          jobs = s.system.jobs ++ sent S A P J s.system.api.taken w.taken;
        };
        pending = (c, stage') ∷ rest;
      }

  unfoldable pub turn : Turn Number → Whole S Foreign → Whole S Foreign
  unfolding pick proceed first_stage step
  turn (asks c) s = record s { pending = (c, first_stage S A c.file) ∷ s.pending }
  turn (goes_on n o) s = elim (pick n s.pending) [
    | none ↦ s
    | some (request, rest) ↦ gone_on o request rest s
  ]
  turn api_dies s = record s { pending = []; lost = s.pending ++ s.lost }
  turn (connects p) s = record s {
    system = record s.system { api = record s.system.api { publisher = p } };
  }
  turn (happens e) s = record s { system = step S A P J e s.system }

-- ===== src/System/Interleaved/Rows/Known.antt =====
-- What a worker is given is known to it.
use scribeflow.Prelude.{ℕ, ◌≡◌, ◌≢◌, refl, List, some, inl}
use scribeflow.Text.{Text}
use scribeflow.Store.{JobStore}
use scribeflow.Service.{Platform}
use scribeflow.Worker.Message.{Python, Message, parse}
use scribeflow.Worker.Handler.{rejected, Fates, Constants, handle_message}
use scribeflow.Worker.Handler.Accounts.{handle_message-rejected}
use scribeflow.Worker.Handler.Frame.{handle_message-IsFrame}
use scribeflow.System.{Json, pick, site}
use scribeflow.System.Awaited.{Names}
use scribeflow.System.Picked.{Any-picked}
use scribeflow.System.Interleaved.{Whole}
use scribeflow.System.Interleaved.Rows.{HasRow}
use scribeflow.System.Interleaved.Rows.Steps.{Follows, Follows-HasRow}

module _ {Number : Type 0} (S : JobStore Number) (A : Platform Number) (P : Python)
    (J : Json P) where
  open P use {Foreign}

  -- Requests that are interleaved call by call, with each other and with deliveries, expiries, writes
  -- of progress, changes of the connection and deaths of the API, however each call ends, and wherever
  -- the worker dies: a message of the jobs queue that names a job names one whose row is in the
  -- table, and its delivery is not answered by a rejection, as an unknown job is. No confirmation is
  -- lost, and a new id is a UUID that no message and no pending request has.
  pub Follows-handle_message :
      (s : Whole S Foreign) (K : Constants Number) (o : Fates Number) (n : ℕ) (m : Message Foreign)
      (rest : List (Message Foreign)) (id path : Text)
      → Follows S A P J s
      → pick n s.system.jobs ≡ some (m, rest)
      → parse P m ≡ some (id, path)
      → HasRow S id s.system.api.rows
        × ((handle_message S P K o m (site S A P J s.system)).1.settlement ≢ rejected)
  Follows-handle_message s K o n m rest id path f q e =
      let row : HasRow S id s.system.api.rows =
        Follows-HasRow S A P J s id f
          (inl (Any-picked (Names P id) n s.system.jobs rest m q (inl (path, e)))) in
      (
        row,
        (λ r.
            (handle_message-IsFrame S P K o id (site S A P J s.system) m path e).stay id row
              (handle_message-rejected S P K o m id (site S A P J s.system) path e refl r)),
      )

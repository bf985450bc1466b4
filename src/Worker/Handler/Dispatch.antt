-- ===== src/Worker/Handler/Dispatch.antt =====
-- The message of a job that is not completed is processed.
use scribeflow.Prelude.{◌≡◌, ◌≢◌, refl, some}
use scribeflow.Text.{Text}
use scribeflow.Jobs.{JobStatus, queued, processing, completed, failed}
use scribeflow.Store.{JobStore}
use scribeflow.Worker.Database.{get_status}
use scribeflow.Worker.Message.{Python, Message, parse}
use scribeflow.Worker.Handler.{
  returns, Fates, Site, Constants, process, handle_message, by_status, read_status, parsed,
}

module _ {Number : Type 0} (S : JobStore Number) (P : Python) (K : Constants Number)
    (o : Fates Number) where
  open P use {Foreign}

  pub handle-process :
      (id path : Text) (m : Message Foreign) (s : JobStatus) (w : Site S Foreign)
      → o.reads ≡ returns
      → parse P m ≡ some (id, path)
      → get_status S id w.rows ≡ some s
      → s ≢ completed
      → handle_message S P K o m w ≡ process S P K o m id w
  unfolding handle_message
  handle-process id path m s w reads e t ne =
      rw (e, parsed) (rw (reads, read_status) (rw (t, by_status) (others s ne)))
    where
      others :
          (s : JobStatus)
          → s ≢ completed
          → by_status S P K o (some s) m id w ≡ process S P K o m id w
      others queued ne = refl
      others processing ne = refl
      others failed ne = refl
      others completed ne = absurd (ne refl)

-- ===== src/Worker/Handler/Diagram/Moves.antt =====
-- A delivery follows the diagram.
use scribeflow.Prelude.{◌≡◌, ◌≢◌, refl, List, [], some}
use scribeflow.Text.{Text}
use scribeflow.Jobs.{JobStatus, queued, processing, completed, failed}
use scribeflow.Store.{JobStore}
use scribeflow.Store.Journal.{journaled}
use scribeflow.Worker.Database.{get_status}
use scribeflow.Worker.Message.{Python, Message, parse}
use scribeflow.Worker.Handler.{
  Fate, returns, raises, dies, Fates, Site, Constants, unsettled, by_status, read_status, parsed,
  handle_message,
}
use scribeflow.Worker.Handler.Rules.{call_rule}
use scribeflow.Worker.Handler.Diagram.Walks.{begin, again, Walk, here}
use scribeflow.Worker.Handler.Diagram.Clean.{AreClean}
use scribeflow.Worker.Handler.Diagram.{Leads, process-Leads}

module _ {Number : Type 0} (S : JobStore Number) (P : Python) (K : Constants Number)
    (o : Fates Number) where
  open P use {Foreign}

  by_status-Leads :
      (id : Text) (from : JobStatus) (message : Message Foreign) (w : Site (journaled S) Foreign)
      → AreClean o
      → get_status (journaled S) id w.rows ≡ some from
      → Walk id from w.rows.written from
      → from ≢ failed
      → Leads S P K o id from (by_status (journaled S) P K o (some from) message id w).1
  by_status-Leads id queued message w c e walk ne =
      process-Leads S P K o id queued message w c e walk begin
  by_status-Leads id processing message w c e walk ne =
      process-Leads S P K o id processing message w c e walk again
  by_status-Leads id failed message w c e walk ne = absurd (ne refl)
  by_status-Leads id completed message w c e walk ne =
      let h : Leads S P K o id completed w = (completed, e, walk) in
      call_rule (Leads S P K o id completed) o.acks _ w h h

  read_status-Leads :
      (fate : Fate) (id : Text) (from : JobStatus) (message : Message Foreign)
      (w : Site (journaled S) Foreign)
      → AreClean o
      → get_status (journaled S) id w.rows ≡ some from
      → Walk id from w.rows.written from
      → from ≢ failed
      → Leads S P K o id from (read_status (journaled S) P K o fate message id w).1
  read_status-Leads returns id from message w c e walk ne =
      rw e (by_status-Leads id from message w c e walk ne)
  read_status-Leads (raises applied x) id from message w c e walk ne =
      let h : Leads S P K o id from w = (from, e, walk) in
      call_rule (Leads S P K o id from) o.nacks _ w h h
  read_status-Leads (dies applied) id from message w c e walk ne = (from, e, walk)

  -- What a delivery writes into the table of jobs, write by write, follows the diagram of
  -- README.md, wherever the worker dies and however the calls end: every row that it saves is a
  -- row of its job; the status of the first is an arrow from the status that the job had, that
  -- of each later one an arrow from the one before; and the status of the job at the end is that
  -- of the last row saved, or the one it had if none is. This holds if the job has not failed
  -- before, the mark of `processing` does not raise, `complete` has no effect when it raises,
  -- and the acknowledgement behind `complete` does not raise.
  pub handle_message-Leads :
      (id path : Text) (from : JobStatus) (message : Message Foreign) (rows : S.Rows)
      (retry_queue dead_queue : List (Message Foreign))
      → AreClean o
      → parse P message ≡ some (id, path)
      → get_status S id rows ≡ some from
      → from ≢ failed
      → let w : Site (journaled S) Foreign = record {
        rows = record { rows = rows; written = [] };
        retry_queue = retry_queue;
        dead_queue = dead_queue;
        settlement = unsettled;
      } in
        Leads S P K o id from (handle_message (journaled S) P K o message w).1
  unfolding handle_message get_status
  handle_message-Leads id path from message rows retry_queue dead_queue c named e ne =
      rw (named, parsed) (read_status-Leads o.reads id from message _ c e here ne)

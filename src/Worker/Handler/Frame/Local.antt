-- ===== src/Worker/Handler/Frame/Local.antt =====
-- The changes that a delivery makes to the rows: each leaves the status of the other jobs alone, and
-- removes no row.
use mathlib.Core.Option
use scribeflow.Prelude.{if◌then◌else◌, ◌≢◌, ◌≡◌, false, List, none, arith}
use scribeflow.Text.{Text, text_eq}
use scribeflow.Jobs.{JobStatus, queued, processing, completed, failed, Transcript}
use scribeflow.Store.{JobStore}
use scribeflow.Worker.Database.{get_status, mark_processing, complete, record_retry, fail}
use scribeflow.Worker.Database.Lookup.{
  get_status-mark_processing, get_status-complete, get_status-record_retry, get_status-fail,
}
use scribeflow.Worker.Message.{Python}
use scribeflow.Worker.Handler.{Fates, Constants, report}
use scribeflow.Worker.Handler.Midway.{get_status-report}

module _ {Number : Type 0} (S : JobStore Number) (P : Python) (K : Constants Number)
    (o : Fates Number) where
  open P use {Foreign}

  module _ (id : Text) where
    -- A change of rows that leaves the status of the other jobs alone, and removes none.
    pub record IsLocal (f : S.Rows → S.Rows) : Type 0 where
      pub local :
          (other : Text) (rows : S.Rows)
          → text_eq id other ≡ false
          → get_status S other (f rows) ≡ get_status S other rows
      pub keeps :
          (other : Text) (rows : S.Rows)
          → get_status S other rows ≢ none
          → get_status S other (f rows) ≢ none

    -- An update of the row of the job is local.
    update-IsLocal :
        (f : S.Rows → S.Rows) (status : JobStatus)
        → ((other : Text) (rows : S.Rows)
            → get_status S other (f rows) ≡ (
                if text_eq id other
                then Option.map (λ s. status) (get_status S other rows)
                else get_status S other rows))
        → IsLocal f
    update-IsLocal f status e = record {
      local = λ other rows ne. ground (arith, ne, e other rows);
      keeps = λ other rows there. λ q. ground (arith, there, q, e other rows);
    }

    pub mark-IsLocal : IsLocal (mark_processing S K.zero K.now id)
    mark-IsLocal = update-IsLocal _ processing (get_status-mark_processing S K.zero K.now id)

    pub complete-IsLocal :
        (transcript : Transcript Number) → IsLocal (complete S K.one K.now id transcript)
    complete-IsLocal transcript =
        update-IsLocal _ completed
          (λ other rows. get_status-complete S K.one K.now id other transcript rows)

    pub record_retry-IsLocal : (error : Text) → IsLocal (record_retry S K.now id error)
    record_retry-IsLocal error =
        update-IsLocal _ queued (λ other rows. get_status-record_retry S K.now id other error rows)

    pub fail-IsLocal : (error : Text) → IsLocal (fail S K.now id error)
    fail-IsLocal error =
        update-IsLocal _ failed (λ other rows. get_status-fail S K.now id other error rows)

    pub report-IsLocal : (reported : List Number) → IsLocal (report S P K o id reported)
    report-IsLocal reported = record {
      local = λ other rows ne. get_status-report S P K o id other reported rows;
      keeps = λ other rows there. rw (get_status-report S P K o id other reported rows) there;
    }

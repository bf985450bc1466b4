-- ===== src/Worker/Handler/Midway.antt =====
-- The state of a delivery when the pipeline is over, or has failed, or was cut off.
use scribeflow.Prelude.{◌≡◌, ◌≢◌, ◌⊎◌, refl, ◌∙◌, List, [], ◌∷◌, none, some, arith}
use scribeflow.Text.{Text}
use scribeflow.Text.Equality.{text_eq_refl}
use scribeflow.Jobs.{completed, Transcript}
use scribeflow.Store.{JobStore}
use scribeflow.Worker.Database.{get_status, mark_processing, update_progress, complete}
use scribeflow.Worker.Database.Lookup.{
  get_status-mark_processing, get_status-complete, get_status-update_progress,
}
use scribeflow.Worker.Message.{Python}
use scribeflow.Worker.Handler.{
  Run, transcribes, breaks, cut_off, unsettled, acked, Fates, Site, Constants, then_with, call,
  on_rows, settle, report, run_in_thread, attempt,
}
use scribeflow.Worker.Handler.Rules.{call_rule, call_then_rule}

module _ {Number : Type 0} (S : JobStore Number) (P : Python) (K : Constants Number)
    (o : Fates Number) where
  open P use {Foreign}

  pub get_status-report :
      (id other : Text) (reported : List Number) (rows : S.Rows)
      → get_status S other (report S P K o id reported rows) ≡ get_status S other rows
  get_status-report id other [] rows = refl
  get_status-report id other (p ∷ reported) rows =
      get_status-report id other reported (update_progress S K.now id p rows)
      ∙ get_status-update_progress S K.now id other p rows

  module _ (id : Text) (w : Site S Foreign) where
    -- What holds when the pipeline is over or has failed.
    pub record IsMidway (v : Site S Foreign) : Type 0 where
      pub there : get_status S id v.rows ≢ none
      pub answer :
          (v.settlement ≡ unsettled)
          ⊎ ((v.settlement ≡ acked) × (get_status S id v.rows ≡ some completed))
      pub retries : v.retry_queue ≡ w.retry_queue
      pub deads : v.dead_queue ≡ w.dead_queue

    finish-IsMidway :
        (transcript : Transcript Number) (v : Site S Foreign)
        → v.settlement ≡ unsettled
        → IsMidway v
        → IsMidway
            (then_with
              (call o.completes (on_rows S P K o (complete S K.one K.now id transcript)) v)
              (λ _. call o.acks (settle S P K o acked))).1
    finish-IsMidway transcript v u m =
        let saved : Site S Foreign = on_rows S P K o (complete S K.one K.now id transcript) v in
        let done : get_status S id saved.rows ≡ some completed = ground (
          arith,
          m.there,
          get_status-complete S K.one K.now id id transcript v.rows,
          text_eq_refl id,
        ) in
        let after : IsMidway saved = ground (arith, done, u, m.retries, m.deads) in
        call_then_rule IsMidway o.completes _ (λ _. call o.acks (settle S P K o acked)) v m after
          (call_rule IsMidway o.acks _ saved after (ground (arith, done, u, m.retries, m.deads)))

    report-IsMidway :
        (reported : List Number) (v : Site S Foreign)
        → IsMidway v
        → IsMidway (on_rows S P K o (report S P K o id reported) v)
    report-IsMidway reported v m = ground (arith, get_status-report id id reported v.rows)

    run-IsMidway :
        (run : Run Number) (v : Site S Foreign)
        → v.settlement ≡ unsettled
        → IsMidway v
        → IsMidway
            (then_with (run_in_thread S P K o run id v) (λ transcript w'.
              then_with
                (call o.completes (on_rows S P K o (complete S K.one K.now id transcript)) w')
                (λ _. call o.acks (settle S P K o acked)))).1
    run-IsMidway (transcribes reported transcript) v u m =
        finish-IsMidway transcript _ u (report-IsMidway reported v m)
    run-IsMidway (breaks reported error) v u m = report-IsMidway reported v m
    run-IsMidway (cut_off reported) v u m = report-IsMidway reported v m

    pub attempt-IsMidway :
        w.settlement ≡ unsettled → get_status S id w.rows ≢ none → IsMidway (attempt S P K o id w).1
    attempt-IsMidway u h =
        let start : IsMidway w = ground arith in
        let marked : IsMidway (on_rows S P K o (mark_processing S K.zero K.now id) w) =
          ground (arith, get_status-mark_processing S K.zero K.now id id w.rows, text_eq_refl id) in
        call_then_rule IsMidway o.marks _ _ w start marked (run-IsMidway o.pipeline _ u marked)

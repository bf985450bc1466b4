-- ===== src/System/Interleaved/Accepted.antt =====
-- What becomes of an upload that has been answered as accepted.
use scribeflow.Prelude.{
  ◌≡◌, ◌⊎◌, refl, sym, subst, some_inj, ◌∙◌, inl, inr, true, false, List, [], ◌∷◌, ◌++◌, none, some,
  arith, Bool,
}
use scribeflow.Text.{Text}
use scribeflow.Store.{JobStore}
use scribeflow.Service.{CreateResult, ok, Platform}
use scribeflow.Service.Stages.{
  Creation, Stage, rejecting, hashing, looking_up, reusing, promoting, saving, publishing,
  confirming, deleting, discarding, settled,
}
use scribeflow.Worker.Database.{get_status}
use scribeflow.Worker.Message.{Python}
use scribeflow.System.{Json, System}
use scribeflow.System.Awaited.{Awaits}
use scribeflow.System.Picked.{Any, Any-append_left, Any-append_right, Any-with, Distinct-same}
use scribeflow.System.Stranded.{is_unfinished}
use scribeflow.System.Interleaved.{Request, Whole, Turn, turn}
use scribeflow.System.Interleaved.Unpublished.{unpublished}
use scribeflow.System.Interleaved.Steps.{
  AtWork, IsAllowed, Reachable, nothing_yet, next, Reachable-IsAwaited,
}
use scribeflow.System.Interleaved.Rows.{HasRow, IsAhead}
use scribeflow.System.Interleaved.Rows.Steps.{
  Clash, IsSure, Follows, no_message_yet, later, Ahead, IsBacked, Follows-IsBacked,
}

module _ {Number : Type 0} (S : JobStore Number) (A : Platform Number) (P : Python)
    (J : Json P) where
  open P use {Foreign}

  -- A run from an empty table and empty queues, of which each turn is allowed and sure.
  pub data Runs : Whole S Foreign → Type 0 where
    begins :
        {s : System S Foreign}
        → ((id : Text) → S.find_one_by id s.api.rows ≡ none)
        → s.jobs ≡ []
        → s.retries ≡ []
        → Runs (record { system = s; pending = []; lost = [] })
    takes :
        {s : Whole S Foreign} (t : Turn Number)
        → Runs s
        → IsAllowed S A P J t s
        → IsSure S A P J t s
        → Runs (turn S A P J t s)

  Runs-Reachable : (s : Whole S Foreign) → Runs s → Reachable S A P J s
  Runs-Reachable s (begins empty jobs retries) = nothing_yet empty
  Runs-Reachable s (takes t r allowed sure) = next t (Runs-Reachable _ r) allowed

  Runs-Follows : (s : Whole S Foreign) → Runs s → Follows S A P J s
  Runs-Follows s (begins empty jobs retries) = no_message_yet jobs retries
  Runs-Follows s (takes t r allowed sure) = later t (Runs-Follows _ r) sure

  -- A request has been answered with the job.
  abbrev pub IsAnswered : CreateResult Number → Request Number → Type 0
  IsAnswered r q = q.1 ≡ settled (ok r)

  -- A request for the job itself.
  IsAnswered-IsAhead :
      (Named : Type 0) (rows : S.Rows) (r : CreateResult Number) (c : Creation)
      (stage : Stage Number)
      → r.deduplicated ≡ false
      → IsAhead S Named rows c stage
      → stage ≡ settled (ok r)
      → (c.job_id ≡ r.job.id) × HasRow S r.job.id rows
  IsAnswered-IsAhead Named rows r c stage new h e = elim (subst (IsAhead S Named rows c) e h) [
    | inl old ↦ absurd (ground (arith, old, new))
    | inr (id, row) ↦ (sym id, rw id row)
  ]

  unpublished-IsAhead :
      (Named : Type 0) (rows : S.Rows) (id : Text) (c : Creation) (stage : Stage Number)
      → IsAhead S Named rows c stage
      → unpublished stage ≡ some id
      → c.job_id ≡ id
  unpublished-IsAhead Named rows id c (publishing job) (own, h, row) e = sym own ∙ some_inj e
  unpublished-IsAhead Named rows id c (confirming job (some x)) (own, h) e = sym own ∙ some_inj e
  unpublished-IsAhead Named rows id c (deleting job) (own, h) e = sym own ∙ some_inj e
  unpublished-IsAhead Named rows id c (confirming job none) h e = cc
  unpublished-IsAhead Named rows id c (rejecting _) h e = cc
  unpublished-IsAhead Named rows id c hashing h e = cc
  unpublished-IsAhead Named rows id c (looking_up _) h e = cc
  unpublished-IsAhead Named rows id c (reusing _) h e = cc
  unpublished-IsAhead Named rows id c (promoting _) h e = cc
  unpublished-IsAhead Named rows id c (saving _) h e = cc
  unpublished-IsAhead Named rows id c (discarding _) h e = cc
  unpublished-IsAhead Named rows id c (settled _) h e = cc

  module _ (s : Whole S Foreign) (backed : IsBacked S A P J s) (r : CreateResult Number)
      (new : r.deduplicated ≡ false) (answered : Any (IsAnswered r) (s.pending ++ s.lost)) where
    -- The answered request is the one for the id of the job.
    abbrev IsHolder : Request Number → Type 0
    IsHolder q =
        (q.1 ≡ settled (ok r)) × (q.0.job_id ≡ r.job.id) × HasRow S r.job.id s.system.api.rows

    abbrev IsWorker : Request Number → Type 0
    IsWorker q = (unpublished q.1 ≡ some r.job.id) × (q.0.job_id ≡ r.job.id)

    holder : Any IsHolder (s.pending ++ s.lost)
    holder =
        Any-with (Ahead S A P J s.system) (IsAnswered r) IsHolder (s.pending ++ s.lost)
          (λ q h e.
            let (id, row) = IsAnswered-IsAhead _ s.system.api.rows r q.0 q.1 new h e in
            (e, id, row))
          backed.ahead answered

    -- No other request is at the job.
    not-AtWork : AtWork r.job.id (s.pending ++ s.lost) → ⊥
    not-AtWork working =
        let at_it : Any IsWorker (s.pending ++ s.lost) =
          Any-with (Ahead S A P J s.system) (λ q. unpublished q.1 ≡ some r.job.id) IsWorker
            (s.pending ++ s.lost)
            (λ q h e. (e, unpublished-IsAhead _ s.system.api.rows r.job.id q.0 q.1 h e))
            backed.ahead working in
        let (q, (e, same, row), (u, own)) =
          Distinct-same Clash {P = IsHolder} {Q = IsWorker} (s.pending ++ s.lost) (λ x y e. sym e)
            (λ x y h w. h.1 ∙ sym w.1) backed.distinct holder at_it in
        settled_idle q.1 e u
      where
        settled_idle :
            (stage : Stage Number) → stage ≡ settled (ok r) → unpublished stage ≡ some r.job.id → ⊥
        settled_idle stage e u =
            absurd (ground (arith, subst (λ x. unpublished x ≡ some r.job.id) e u))

    IsAnswered-HasRow : HasRow S r.job.id s.system.api.rows
    IsAnswered-HasRow = row_of_holder (s.pending ++ s.lost) holder
      where
        row_of_holder :
            (qs : List (Request Number)) → Any IsHolder qs → HasRow S r.job.id s.system.api.rows
        row_of_holder (q ∷ qs) (inl (e, id, row)) = row
        row_of_holder (q ∷ qs) (inr there) = row_of_holder qs there
        row_of_holder [] never = absurd never

  by_progress :
      (unfinished : Bool) (Waits Done : Type 0)
      → (unfinished ≡ true → Waits)
      → (unfinished ≡ false → Done)
      → Done ⊎ Waits
  by_progress true Waits Done w d = inr (w refl)
  by_progress false Waits Done w d = inl (d refl)

  -- An upload that has been answered as a new job is not lost: in every later state the job has a row,
  -- and either it is over, completed or failed, or a message of the jobs queue or the retry queue
  -- names it. This is so whatever requests, deliveries, expiries, writes of progress, changes of the
  -- connection and deaths of the API come in whatever order, in between the calls of requests too,
  -- however each call ends, and wherever the worker dies; if new ids are UUIDs that nothing has, the
  -- API's deletions succeed and no confirmation is lost.
  pub IsAnswered-Awaits :
      (s : Whole S Foreign) (r : CreateResult Number)
      → Runs s
      → Any (IsAnswered r) (s.pending ++ s.lost)
      → r.deduplicated ≡ false
      → HasRow S r.job.id s.system.api.rows
        × ((is_unfinished (get_status S r.job.id s.system.api.rows) ≡ false)
            ⊎ Awaits P r.job.id s.system.jobs
            ⊎ Awaits P r.job.id s.system.retries)
  IsAnswered-Awaits s r run answered new =
      let backed = Follows-IsBacked S A P J s (Runs-Follows s run) in
      (
        IsAnswered-HasRow s backed r new answered,
        by_progress (is_unfinished (get_status S r.job.id s.system.api.rows)) _ _
            (λ open_job.
              elim (Reachable-IsAwaited S A P J s r.job.id (Runs-Reachable s run) open_job) [
                | inl j ↦ inl j
                | inr (inl waits) ↦ inr waits
                | inr (inr (inl p)) ↦ absurd (
                    not-AtWork s backed r new answered
                      (Any-append_left (λ q. unpublished q.1 ≡ some r.job.id) s.pending s.lost p))
                | inr (inr (inr l)) ↦ absurd (
                    not-AtWork s backed r new answered
                      (Any-append_right (λ q. unpublished q.1 ≡ some r.job.id) s.pending s.lost l))
              ])
            (λ over. over),
      )

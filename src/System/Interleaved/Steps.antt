-- ===== src/System/Interleaved/Steps.antt =====
-- No interleaving strands a job, but for a request that is at it, or was when the API died.
use scribeflow.Prelude.{
  ℕ, ◌≡◌, ◌⊎◌, inl, inr, true, List, [], ◌∷◌, ◌++◌, none, some, arith, Option-cases, All,
}
use scribeflow.Text.{Text}
use scribeflow.Store.{JobStore}
use scribeflow.Service.{Outcomes, Platform}
use scribeflow.Service.Stages.{Creation, Stage, first_stage}
use scribeflow.Worker.Database.{get_status}
use scribeflow.Worker.Database.Lookup.{get_status-none}
use scribeflow.Worker.Message.{Python}
use scribeflow.System.{Json, System, pick}
use scribeflow.System.Awaited.{Names, Awaits}
use scribeflow.System.Picked.{Any, Any-append_left, Any-append_right, Any-pick, All-pick}
use scribeflow.System.Stranded.{is_unfinished, NoneStranded}
use scribeflow.System.Stranded.Steps.{step-NoneStranded}
use scribeflow.System.Interleaved.{
  Request, Whole, Turn, asks, goes_on, api_dies, connects, happens, gone_on, turn,
}
use scribeflow.System.Interleaved.Unpublished.{
  unpublished, HasUuid, proceed-IsCovered, proceed-HasUuid,
}

-- A request of the list has saved the row of the job, and not sent the message for it.
abbrev pub AtWork : {Number : Type 0} → Text → List (Request Number) → Type 0
AtWork id requests = Any (λ r. unpublished r.1 ≡ some id) requests

module _ {Number : Type 0} (S : JobStore Number) (A : Platform Number) (P : Python)
    (J : Json P) where
  open P use {Foreign}

  -- New ids are UUIDs, and no deletion that undoes an upload fails.
  abbrev pub IsAllowed : Turn Number → Whole S Foreign → Type 0
  IsAllowed (asks c) s = P.is_uuid c.job_id ≡ true
  IsAllowed (goes_on n o) s = o.deletes ≡ true
  IsAllowed (happens e) s = scribeflow.System.Stranded.IsAllowed S A P J e s.system
  IsAllowed _ s = Unit {0}

  pub data Reachable : Whole S Foreign → Type 0 where
    nothing_yet :
        {s : System S Foreign}
        → ((id : Text) → S.find_one_by id s.api.rows ≡ none)
        → Reachable (record { system = s; pending = []; lost = [] })
    next :
        {s : Whole S Foreign} (t : Turn Number)
        → Reachable s
        → IsAllowed t s
        → Reachable (turn S A P J t s)

  abbrev Excused : List (Request Number) → List (Request Number) → Text → Type 0
  Excused pending lost id = AtWork id pending ⊎ AtWork id lost

  record IsSound (s : Whole S Foreign) : Type 0 where
    pub kept : NoneStranded S A P J (Excused s.pending s.lost) s.system
    pub uuids : All (λ r. HasUuid S A P J r.0 r.1) s.pending

  -- What excuses a job may grow.
  Excused-more :
      (pending lost pending' lost' : List (Request Number)) (s : System S Foreign)
      → ((id : Text) → Excused pending lost id → Excused pending' lost' id)
      → NoneStranded S A P J (Excused pending lost) s
      → NoneStranded S A P J (Excused pending' lost') s
  Excused-more pending lost pending' lost' s more kept id h = elim (kept id h) [
    | inl j ↦ inl j
    | inr (inl r) ↦ inr (inl r)
    | inr (inr x) ↦ inr (inr (more id x))
  ]

  first_stage-HasUuid :
      (c : Creation) → P.is_uuid c.job_id ≡ true → HasUuid S A P J c (first_stage S A c.file)
  unfolding first_stage
  first_stage-HasUuid c u = ground arith

  module _ (s : Whole S Foreign) (sound : IsSound s) where
    open sound use {kept, uuids}

    module _ (n : ℕ) (o : Outcomes) (c : Creation) (stage : Stage Number)
        (rest : List (Request Number)) (q : pick n s.pending ≡ some ((c, stage), rest)) where
      abbrev after : Whole S Foreign
      after = gone_on S A P J o (c, stage) rest s

      abbrev IsKept : Text → Type 0
      IsKept id =
          Awaits P id after.system.jobs
          ⊎ Awaits P id after.system.retries
          ⊎ Excused after.pending after.lost id

      -- What kept the job keeps it, unless the request itself did.
      IsKept-on :
          (id : Text)
          → Awaits P id s.system.jobs ⊎ Awaits P id s.system.retries ⊎ Excused s.pending s.lost id
          → (unpublished stage ≡ some id) ⊎ IsKept id
      IsKept-on id (inl j) = inr (inl (Any-append_left (Names P id) s.system.jobs _ j))
      IsKept-on id (inr (inl r)) = inr (inr (inl r))
      IsKept-on id (inr (inr (inr l))) = inr (inr (inr (inr l)))
      IsKept-on id (inr (inr (inl p))) =
          elim (Any-pick (λ r. unpublished r.1 ≡ some id) n s.pending rest (c, stage) q p) [
            | inl own ↦ inl own
            | inr other ↦ inr (inr (inr (inl (inr other))))
          ]

      gone_on-IsSound : o.deletes ≡ true → IsSound after
      gone_on-IsSound deletes =
          let (own, others) =
            All-pick (λ r. HasUuid S A P J r.0 r.1) n s.pending rest (c, stage) q uuids in
          record {
            kept = λ id h.
                elim (proceed-IsCovered S A P J o c deletes id stage s.system.api own h) [
                  | inr working ↦ inr (inr (inl (inl working)))
                  | inl (before, inl silent) ↦ elim (IsKept-on id (kept id before)) [
                    | inl own ↦ absurd (silent own)
                    | inr k ↦ k
                  ]
                  | inl (before, inr sends) ↦
                      inl (Any-append_right (Names P id) s.system.jobs _ sends)
                ];
            uuids = (proceed-HasUuid S A P J o c stage s.system.api own, others);
          }

    turn-IsSound : (t : Turn Number) → IsAllowed t s → IsSound (turn S A P J t s)
    unfolding turn
    turn-IsSound (asks c) u = record {
      kept =
          Excused-more s.pending s.lost ((c, first_stage S A c.file) ∷ s.pending) s.lost s.system
            (λ id x. elim x [ inl p ↦ inl (inr p) | inr l ↦ inr l ]) kept;
      uuids = (first_stage-HasUuid c u, uuids);
    }
    turn-IsSound (goes_on n o) deletes = elim (Option-cases (pick n s.pending)) [
      | inl q ↦ rw (q, turn) sound
      | inr (((c, stage), rest), q) ↦ rw (q, turn) (gone_on-IsSound n o c stage rest q deletes)
    ]
    turn-IsSound api_dies u = record {
      kept =
          Excused-more s.pending s.lost [] (s.pending ++ s.lost) s.system
            (λ id x. elim x [
              | inl p ↦ inr (Any-append_left (λ r. unpublished r.1 ≡ some id) s.pending s.lost p)
              | inr l ↦ inr (Any-append_right (λ r. unpublished r.1 ≡ some id) s.pending s.lost l)
            ])
            kept;
      uuids = tt;
    }
    turn-IsSound (connects p) u = record { kept = kept; uuids = uuids }
    turn-IsSound (happens e) allowed = record {
      kept = step-NoneStranded S A P J (Excused s.pending s.lost) s.system kept e allowed;
      uuids = uuids;
    }

  Reachable-IsSound : (s : Whole S Foreign) → Reachable s → IsSound s
  Reachable-IsSound s (nothing_yet {s = first} empty) = record {
    kept = λ id h. absurd (ground (arith, get_status-none S id first.api.rows (empty id)));
    uuids = tt;
  }
  Reachable-IsSound s (next t r allowed) = turn-IsSound _ (Reachable-IsSound _ r) t allowed

  -- Requests that are interleaved call by call, with each other and with deliveries, expiries, writes
  -- of progress and changes of the connection, however each call ends, and an API that may die at any
  -- of them: a job that is queued or processing is named by a message that is in the jobs queue or
  -- waits in the retry queue; or a request is between the saving of its row and its message, or
  -- undoes the row; or was there when the API died. New ids are UUIDs, deletions of the API succeed,
  -- and the first table is empty.
  pub Reachable-IsAwaited :
      (s : Whole S Foreign) (id : Text)
      → Reachable s
      → is_unfinished (get_status S id s.system.api.rows) ≡ true
      → Awaits P id s.system.jobs
        ⊎ Awaits P id s.system.retries
        ⊎ AtWork id s.pending
        ⊎ AtWork id s.lost
  Reachable-IsAwaited s id r unfinished = (Reachable-IsSound s r).kept id unfinished

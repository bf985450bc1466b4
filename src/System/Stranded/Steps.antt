-- ===== src/System/Stranded/Steps.antt =====
-- No event strands a job.
use scribeflow.Prelude.{
  ℕ, ◌≡◌, ◌⊎◌, refl, inl, inr, true, List, [], ◌∷◌, ◌++◌, some, arith, Option-cases,
}
use scribeflow.Text.{Text}
use scribeflow.Store.{JobStore}
use scribeflow.Service.{Platform, create}
use scribeflow.Worker.Database.{get_status}
use scribeflow.Worker.Database.Lookup.{get_status-update_progress, get_status-none}
use scribeflow.Worker.Message.{Python, Message}
use scribeflow.System.{Json, System, Event, uploads, delivers, expires, reports, pick, step}
use scribeflow.System.Awaited.{Names, Awaits}
use scribeflow.System.Picked.{Any-append_left, Any-append_right, Any-pick}
use scribeflow.System.Stranded.{
  is_unfinished, NoneStranded, IsAllowed, Reachable, nothing_yet, next,
}
use scribeflow.System.Stranded.Uploads.{result-NoneStranded}
use scribeflow.System.Stranded.Deliveries.{deliver-NoneStranded}

module _ {Number : Type 0} (S : JobStore Number) (A : Platform Number) (P : Python)
    (J : Json P) where
  open P use {Foreign}

  module _ (Q : Text → Type 0) (s : System S Foreign) (kept : NoneStranded S A P J Q s) where
    expire-NoneStranded :
        (n : ℕ) (m : Message Foreign) (rest : List (Message Foreign))
        → pick n s.retries ≡ some (m, rest)
        → NoneStranded S A P J Q (record s { jobs = s.jobs ++ m ∷ []; retries = rest })
    expire-NoneStranded n m rest q id h = elim (kept id h) [
      | inl j ↦ inl (Any-append_left (Names P id) s.jobs (m ∷ []) j)
      | inr (inl r) ↦ elim (Any-pick (Names P id) n s.retries rest m q r) [
        | inl named ↦ inl (Any-append_right (Names P id) s.jobs (m ∷ []) (inl named))
        | inr still ↦ inr (inl still)
      ]
      | inr (inr x) ↦ inr (inr x)
    ]

    pub step-NoneStranded :
        (e : Event Number) → IsAllowed S A P J e s → NoneStranded S A P J Q (step S A P J e s)
    unfolding step
    step-NoneStranded (uploads o job_id now file) allowed =
        result-NoneStranded S A P J Q s kept o job_id now file
          (create S A o job_id now file s.api).0 (create S A o job_id now file s.api).1 refl allowed
    step-NoneStranded (delivers n K o) allowed = elim (Option-cases (pick n s.jobs)) [
      | inl q ↦ rw (q, step) kept
      | inr ((m, rest), q) ↦ rw (q, step) (deliver-NoneStranded S A P J Q s kept K o m rest n q)
    ]
    step-NoneStranded (expires n) allowed = elim (Option-cases (pick n s.retries)) [
      | inl q ↦ rw (q, step) kept
      | inr ((m, rest), q) ↦ rw (q, step) (expire-NoneStranded n m rest q)
    ]
    step-NoneStranded (reports now id progress) allowed = λ other h.
        kept other (rw (get_status-update_progress S now id other progress s.api.rows) at h)

  Reachable-NoneStranded :
      (s : System S Foreign) → Reachable S A P J s → NoneStranded S A P J (λ _. ⊥) s
  Reachable-NoneStranded s (nothing_yet empty) =
      λ id h. absurd (ground (arith, get_status-none S id s.api.rows (empty id)))
  Reachable-NoneStranded s (next e r allowed) =
      step-NoneStranded (λ _. ⊥) _ (Reachable-NoneStranded _ r) e allowed

  -- Whatever is uploaded, delivered, expired and reported in whatever order, however the calls of the
  -- API and the worker end and wherever the worker dies: a job that is queued or processing is
  -- named by a message that is in the jobs queue, where one that a worker holds still stands, or
  -- that waits in the retry queue; if the first table is empty, new ids are new UUIDs, and the API's
  -- deletions succeed.
  pub Reachable-Awaits :
      (s : System S Foreign) (id : Text)
      → Reachable S A P J s
      → is_unfinished (get_status S id s.api.rows) ≡ true
      → Awaits P id s.jobs ⊎ Awaits P id s.retries
  Reachable-Awaits s id r unfinished = elim (Reachable-NoneStranded s r id unfinished) [
    | inl j ↦ inl j
    | inr (inl waits) ↦ inr waits
    | inr (inr never) ↦ absurd never
  ]

-- ===== src/System/Interleaved/Rows/Grows.antt =====
-- An event of the worker, the broker or the progress names no job anew and removes no row.
use scribeflow.Prelude.{
  ℕ, ◌≡◌, ◌⊎◌, sym, ◌∙◌, inl, inr, List, [], ◌∷◌, ◌++◌, some, Option-cases, All, append-nil,
}
use scribeflow.Text.{Text}
use scribeflow.Store.{JobStore}
use scribeflow.Service.{Platform}
use scribeflow.Worker.Database.Lookup.{get_status-update_progress}
use scribeflow.Worker.Message.{Python, Message, parse}
use scribeflow.Worker.Message.Headers.{parse-same_body}
use scribeflow.Worker.Handler.{Settlement, unsettled, acked, rejected, requeued, Fates, Constants}
use scribeflow.Worker.Handler.Frame.{handle_message-IsFrame, handle_message-malformed}
use scribeflow.System.{
  Json, System, Event, uploads, delivers, expires, reports, pick, site, put_back, deliver, step,
}
use scribeflow.System.Awaited.{Names, Awaits}
use scribeflow.System.Picked.{Any-split, Any-picked}
use scribeflow.System.Interleaved.Rows.{HasRow}

module _ {Number : Type 0} (S : JobStore Number) (A : Platform Number) (P : Python)
    (J : Json P) where
  open P use {Foreign}

  -- A message that may be delivered names the job.
  abbrev pub IsNamed : Text → System S Foreign → Type 0
  IsNamed id s = Awaits P id s.jobs ⊎ Awaits P id s.retries

  -- The system goes on without naming a job anew, and without removing a row.
  pub record Grows (s s' : System S Foreign) : Type 0 where
    pub back : (id : Text) → IsNamed id s' → IsNamed id s
    pub keep : (id : Text) → HasRow S id s.api.rows → HasRow S id s'.api.rows

  -- Copies of a message name what it names.
  copies-Names :
      (id : Text) (m : Message Foreign) (ms : List (Message Foreign))
      → All (λ n. n.body ≡ m.body) ms
      → Awaits P id ms
      → Names P id m
  copies-Names id m [] h a = absurd a
  copies-Names id m (n ∷ ms) (e, h) (inl (path, names)) =
      (path, sym (parse-same_body P m n e) ∙ names)
  copies-Names id m (n ∷ ms) (e, h) (inr a) = copies-Names id m ms h a

  module _ (s : System S Foreign) where
    -- The messages that may be delivered after a delivery are among those before.
    delivered-back :
        (n : ℕ) (m : Message Foreign) (rest retries more : List (Message Foreign))
        (answer : Settlement) (id : Text)
        → pick n s.jobs ≡ some (m, rest)
        → retries ≡ s.retries ++ more
        → All (λ k. k.body ≡ m.body) more
        → Awaits P id (put_back S A P J answer m rest) ⊎ Awaits P id retries
        → IsNamed id s
    delivered-back n m rest retries more answer id q e copies (inl j) =
        inl (Any-picked (Names P id) n s.jobs rest m q (of_put_back answer j))
      where
        of_put_back :
            (answer : Settlement)
            → Awaits P id (put_back S A P J answer m rest)
            → Names P id m ⊎ Awaits P id rest
        of_put_back unsettled h = h
        of_put_back acked h = inr h
        of_put_back rejected h = inr h
        of_put_back requeued h = h
    delivered-back n m rest retries more answer id q e copies (inr r) =
        elim (Any-split (Names P id) s.retries more (rw e at r)) [
          | inl old ↦ inr old
          | inr new ↦
              inl (
                Any-picked (Names P id) n s.jobs rest m q (inl (copies-Names id m more copies new)))
        ]

    deliver-Grows :
        (K : Constants Number) (o : Fates Number) (n : ℕ) (m : Message Foreign)
        (rest : List (Message Foreign))
        → pick n s.jobs ≡ some (m, rest)
        → Grows s (deliver S A P J K o m rest s)
    deliver-Grows K o n m rest q = elim (Option-cases (parse P m)) [
      | inl e ↦
          let (rows, retries) = handle_message-malformed S P K o (site S A P J s) m e in
          record {
            back =
                λ id. delivered-back n m rest _ [] _ id q (retries ∙ sym (append-nil s.retries)) tt;
            keep = λ id h. rw rows h;
          }
      | inr ((own, path), e) ↦
          let f = handle_message-IsFrame S P K o own (site S A P J s) m path e in
          let (more, grown, copies) = f.retries in
          record { back = λ id. delivered-back n m rest _ more _ id q grown copies; keep = f.stay }
    ]

    expire-Grows :
        (n : ℕ) (m : Message Foreign) (rest : List (Message Foreign))
        → pick n s.retries ≡ some (m, rest)
        → Grows s (record s { jobs = s.jobs ++ m ∷ []; retries = rest })
    expire-Grows n m rest q = record {
      back = λ id named. elim named [
        | inr r ↦ inr (Any-picked (Names P id) n s.retries rest m q (inr r))
        | inl j ↦ elim (Any-split (Names P id) s.jobs (m ∷ []) j) [
          | inl old ↦ inl old
          | inr (inl new) ↦ inr (Any-picked (Names P id) n s.retries rest m q (inl new))
          | inr (inr never) ↦ absurd never
        ]
      ];
      keep = λ id h. h;
    }

    -- A request that nothing comes in between is a turn of its own.
    abbrev pub IsOther : Event Number → Type 0
    IsOther (uploads _ _ _ _) = ⊥
    IsOther _ = Unit

    pub step-Grows : (e : Event Number) → IsOther e → Grows s (step S A P J e s)
    unfolding step
    step-Grows (uploads o id now file) h = absurd h
    step-Grows (delivers n K o) h = elim (Option-cases (pick n s.jobs)) [
      | inl q ↦ rw (q, step) (record { back = λ id n. n; keep = λ id r. r })
      | inr ((m, rest), q) ↦ rw (q, step) (deliver-Grows K o n m rest q)
    ]
    step-Grows (expires n) h = elim (Option-cases (pick n s.retries)) [
      | inl q ↦ rw (q, step) (record { back = λ id n. n; keep = λ id r. r })
      | inr ((m, rest), q) ↦ rw (q, step) (expire-Grows n m rest q)
    ]
    step-Grows (reports now id progress) h = record {
      back = λ other n. n;
      keep = λ other r. rw (get_status-update_progress S now id other progress s.api.rows) r;
    }

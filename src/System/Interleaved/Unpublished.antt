-- ===== src/System/Interleaved/Unpublished.antt =====
-- The requests between the saving of a row and the message for it.
use scribeflow.Prelude.{
  ◌≡◌, ◌⊎◌, refl, sym, ◌∙◌, inl, inr, true, false, [], ◌∷◌, ◌++◌, Option, none, some, arith,
  Bool-cases, drop-length,
}
use scribeflow.Text.{Text, text_eq}
use scribeflow.Text.Equality.{text_eq_iff}
use scribeflow.Storage.{promote, sha256}
use scribeflow.Queue.Topology.{JobMessage}
use scribeflow.Queue.Publisher.{Confirm, PublishError, publish_job}
use scribeflow.Store.{JobStore}
use scribeflow.Jobs.{Job}
use scribeflow.Service.{Outcomes, Platform, World}
use scribeflow.Service.Stages.{
  Creation, Stage, rejecting, hashing, looking_up, reusing, promoting, saving, publishing,
  confirming, deleting, discarding, settled, proceed,
}
use scribeflow.Worker.Database.{get_status}
use scribeflow.Worker.Database.Lookup.{get_status-same, get_status-none}
use scribeflow.Worker.Message.{Python}
use scribeflow.System.{Json, sent}
use scribeflow.System.Awaited.{Awaits, parse-encode}
use scribeflow.System.Stranded.{is_unfinished}

-- The job whose row is saved and whose message has not been sent, or not without an error.
abbrev pub unpublished : {Number : Type 0} → Stage Number → Option Text
unpublished (publishing job) = some job.id
unpublished (confirming job (some e)) = some job.id
unpublished (deleting job) = some job.id
unpublished _ = none

module _ {Number : Type 0} (S : JobStore Number) (A : Platform Number) (P : Python)
    (J : Json P) where
  open P use {Foreign}

  -- The id that the job of the request has or gets is a UUID, until its message is sent.
  abbrev pub HasUuid : Creation → Stage Number → Type 0
  HasUuid c (saving job) = P.is_uuid job.id ≡ true
  HasUuid c (publishing job) = P.is_uuid job.id ≡ true
  HasUuid c (confirming _ _) = Unit
  HasUuid c (deleting _) = Unit
  HasUuid c (discarding _) = Unit
  HasUuid c (settled _) = Unit
  HasUuid c _ = P.is_uuid c.job_id ≡ true

  -- What a call of a request does to the job with an id, if it leaves the job queued or processing:
  -- it was so before, and its message is sent if it had to be; or it still has to be sent.
  abbrev pub IsCovered : Text → Stage Number → Stage Number → World S → World S → Type 0
  IsCovered id stage stage' w w' =
      ((is_unfinished (get_status S id w.rows) ≡ true)
        × ((unpublished stage ≡ some id → ⊥) ⊎ Awaits P id (sent S A P J w.taken w'.taken)))
      ⊎ (unpublished stage' ≡ some id)

  other_id :
      (job : Job Number) (id : Text)
      → text_eq job.id id ≡ false
      → ◌≡◌ {A = Option Text} (some job.id) (some id)
      → ⊥
  other_id job id ne e = ground (arith, ne, e, text_eq_iff job.id id)

  -- A request that still has to send the message keeps the job with it.
  held-IsCovered :
      (id : Text) (job : Job Number) (stage stage' : Stage Number) (w w' : World S)
      → unpublished stage ≡ some job.id
      → unpublished stage' ≡ some job.id
      → is_unfinished (get_status S id w.rows) ≡ true
      → IsCovered id stage stage' w w'
  held-IsCovered id job stage stage' w w' e e' h = elim (Bool-cases (text_eq job.id id)) [
    | inl same ↦ inr (rw (e', (text_eq_iff job.id id).0 same) refl)
    | inr ne ↦ inl (h, inl (λ q. other_id job id ne (sym e ∙ q)))
  ]

  publish_job-cases :
      (w : World S) (confirm : Confirm) (m : JobMessage)
      → let (e, taken) = publish_job w.publisher confirm m w.taken in
        ((e ≡ none) × (taken ≡ w.taken ++ m ∷ [])) ⊎ ((error : PublishError) × (e ≡ some error))
  unfolding publish_job
  publish_job-cases w confirm m = ground arith

  pub proceed-HasUuid :
      (o : Outcomes) (c : Creation) (stage : Stage Number) (w : World S)
      → HasUuid c stage
      → HasUuid c (proceed S A o c stage w).0
  unfolding proceed promote sha256
  proceed-HasUuid o c (rejecting reason) w u = tt
  proceed-HasUuid o c hashing w u = ground arith
  proceed-HasUuid o c (looking_up content_hash) w u = ground arith
  proceed-HasUuid o c (reusing existing) w u = tt
  proceed-HasUuid o c (promoting content_hash) w u = ground arith
  proceed-HasUuid o c (saving job) w u = ground arith
  proceed-HasUuid o c (publishing job) w u = tt
  proceed-HasUuid o c (confirming job none) w u = tt
  proceed-HasUuid o c (confirming job (some e)) w u = tt
  proceed-HasUuid o c (deleting job) w u = ground arith
  proceed-HasUuid o c (discarding job) w u = tt
  proceed-HasUuid o c (settled r) w u = tt

  module _ (o : Outcomes) (c : Creation) (deletes : o.deletes ≡ true) (id : Text) where
    save-IsCovered :
        (job : Job Number) (w : World S)
        → let (stage', w') = proceed S A o c (saving job) w in
          is_unfinished (get_status S id w'.rows) ≡ true → IsCovered id (saving job) stage' w w'
    unfolding proceed
    save-IsCovered job w h = elim (Bool-cases o.saves) [
      | inr fails ↦ rw fails (inl (rw fails at h, inl (λ q. cc)))
      | inl saves ↦ elim (Bool-cases (text_eq job.id id)) [
        | inl same ↦ rw saves (inr (rw ((text_eq_iff job.id id).0 same) refl))
        | inr ne ↦
            let old : S.find_one_by id (S.save job w.rows) ≡ S.find_one_by id w.rows =
              ground (arith, ne, S.find_one_by-save id job w.rows) in
            rw saves (
              inl (
                rw (saves, get_status-same S id w.rows (S.save job w.rows) old) at h,
                inl (λ q. cc),
              ))
      ]
    ]

    publish-IsCovered :
        (job : Job Number) (w : World S)
        → P.is_uuid job.id ≡ true
        → let (stage', w') = proceed S A o c (publishing job) w in
          is_unfinished (get_status S id w.rows) ≡ true → IsCovered id (publishing job) stage' w w'
    unfolding proceed
    publish-IsCovered job w u h =
        let m : JobMessage = record { job_id = job.id; file_path = job.file_path; attempt = 0 } in
        elim (publish_job-cases w o.confirm m) [
          | inr (error, e) ↦
              held-IsCovered id job (publishing job) (proceed S A o c (publishing job) w).0 w
                (proceed S A o c (publishing job) w).1 refl (rw e refl) h
          | inl (e, taken) ↦ elim (Bool-cases (text_eq job.id id)) [
            | inr ne ↦ inl (h, inl (other_id job id ne))
            | inl same ↦ inl (
              h,
              inr (
                  rw (taken, drop-length w.taken (m ∷ []))
                    (inl (
                      job.file_path,
                      rw (← (text_eq_iff job.id id).0 same) (parse-encode P J m u),
                    ))),
            )
          ]
        ]

    delete-IsCovered :
        (job : Job Number) (w : World S)
        → let (stage', w') = proceed S A o c (deleting job) w in
          is_unfinished (get_status S id w'.rows) ≡ true → IsCovered id (deleting job) stage' w w'
    unfolding proceed
    delete-IsCovered job w h = elim (Bool-cases (text_eq job.id id)) [
      | inl same ↦
          let gone : S.find_one_by id (S.delete job.id w.rows) ≡ none =
            ground (arith, same, S.find_one_by-delete id job.id w.rows) in
          absurd
            (ground (arith, rw deletes at h, get_status-none S id (S.delete job.id w.rows) gone))
      | inr ne ↦
          let old : S.find_one_by id (S.delete job.id w.rows) ≡ S.find_one_by id w.rows =
            ground (arith, ne, S.find_one_by-delete id job.id w.rows) in
          rw deletes (
            inl (
              rw (deletes, get_status-same S id w.rows (S.delete job.id w.rows) old) at h,
              inl (other_id job id ne),
            ))
    ]

    pub proceed-IsCovered :
        (stage : Stage Number) (w : World S)
        → HasUuid c stage
        → let (stage', w') = proceed S A o c stage w in
          is_unfinished (get_status S id w'.rows) ≡ true → IsCovered id stage stage' w w'
    unfolding proceed
    proceed-IsCovered (rejecting reason) w u h = inl (h, inl (λ q. cc))
    proceed-IsCovered hashing w u h = inl (ground arith, inl (λ q. cc))
    proceed-IsCovered (looking_up content_hash) w u h = inl (ground arith, inl (λ q. cc))
    proceed-IsCovered (reusing existing) w u h = inl (h, inl (λ q. cc))
    proceed-IsCovered (promoting content_hash) w u h = inl (ground arith, inl (λ q. cc))
    proceed-IsCovered (saving job) w u h = save-IsCovered job w h
    proceed-IsCovered (publishing job) w u h = publish-IsCovered job w u h
    proceed-IsCovered (confirming job none) w u h = inl (h, inl (λ q. cc))
    proceed-IsCovered (confirming job (some e)) w u h =
        held-IsCovered id job (confirming job (some e)) (deleting job) w w refl refl h
    proceed-IsCovered (deleting job) w u h = delete-IsCovered job w h
    proceed-IsCovered (discarding job) w u h = inl (h, inl (λ q. cc))
    proceed-IsCovered (settled r) w u h = inl (h, inl (λ q. cc))

-- ===== src/System/Interleaved/Rows.antt =====
-- A call of a request, and the rows that messages name.
pub mod Grows
pub mod Steps
pub mod Known
use scribeflow.Prelude.{
  ◌≡◌, ◌≢◌, ◌⊎◌, refl, ap, inl, inr, true, false, [], ◌∷◌, ◌++◌, Option, none, some, arith,
  Bool-cases, Option-cases, drop-length, drop-length_self,
}
use mathlib.Core.Option
use scribeflow.Text.{Text, text_eq}
use scribeflow.Text.Equality.{text_eq_refl}
use scribeflow.Storage.{Files, sha256}
use scribeflow.Queue.Topology.{JobMessage}
use scribeflow.Queue.Publisher.{lost, PublishError, publish_job}
use scribeflow.Store.{JobStore}
use scribeflow.Jobs.{Job}
use scribeflow.Service.{ok, err, Outcomes, Platform, World, moved, row_of}
use scribeflow.Service.Stages.{
  Creation, Stage, rejecting, hashing, looking_up, reusing, promoting, saving, publishing,
  confirming, deleting, discarding, settled, when_ok, proceed,
}
use scribeflow.Worker.Database.{get_status}
use scribeflow.Worker.Database.Lookup.{get_status-same}
use scribeflow.Worker.Message.{Python}
use scribeflow.System.{Json, sent}
use scribeflow.System.Awaited.{Awaits, parse-encode}

module _ {Number : Type 0} (S : JobStore Number) where
  abbrev pub HasRow : Text → S.Rows → Type 0
  HasRow id rows = get_status S id rows ≢ none

  -- What is known of the job of a request at each stage, where `Named` says that a message of the
  -- queues names it: until its message is sent, and while it is undone, none does; and when the
  -- message is sent, and when the request is answered, the row is there.
  abbrev pub IsAhead : Type 0 → S.Rows → Creation → Stage Number → Type 0
  IsAhead Named rows c hashing = Named → ⊥
  IsAhead Named rows c (looking_up _) = Named → ⊥
  IsAhead Named rows c (promoting _) = Named → ⊥
  IsAhead Named rows c (saving job) = (job.id ≡ c.job_id) × (Named → ⊥)
  IsAhead Named rows c (publishing job) = (job.id ≡ c.job_id) × (Named → ⊥) × HasRow c.job_id rows
  IsAhead Named rows c (confirming job (some e)) = (job.id ≡ c.job_id) × (Named → ⊥)
  IsAhead Named rows c (confirming job none) = (job.id ≡ c.job_id) × HasRow c.job_id rows
  IsAhead Named rows c (deleting job) = (job.id ≡ c.job_id) × (Named → ⊥)
  IsAhead Named rows c (settled (ok r)) =
      (r.deduplicated ≡ true) ⊎ ((r.job.id ≡ c.job_id) × HasRow c.job_id rows)
  IsAhead Named rows c _ = Unit

  pub IsAhead-weaken :
      (Named Named' : Type 0) (rows rows' : S.Rows) (c : Creation) (stage : Stage Number)
      → (Named' → Named)
      → (HasRow c.job_id rows → HasRow c.job_id rows')
      → IsAhead Named rows c stage
      → IsAhead Named' rows' c stage
  IsAhead-weaken Named Named' rows rows' c hashing back keep h = λ n. h (back n)
  IsAhead-weaken Named Named' rows rows' c (looking_up _) back keep h = λ n. h (back n)
  IsAhead-weaken Named Named' rows rows' c (promoting _) back keep h = λ n. h (back n)
  IsAhead-weaken Named Named' rows rows' c (saving job) back keep (e, h) = (e, λ n. h (back n))
  IsAhead-weaken Named Named' rows rows' c (publishing job) back keep (e, h, r) =
      (e, (λ n. h (back n)), keep r)
  IsAhead-weaken Named Named' rows rows' c (confirming job (some e)) back keep (q, h) =
      (q, λ n. h (back n))
  IsAhead-weaken Named Named' rows rows' c (confirming job none) back keep (e, r) = (e, keep r)
  IsAhead-weaken Named Named' rows rows' c (deleting job) back keep (e, h) = (e, λ n. h (back n))
  IsAhead-weaken Named Named' rows rows' c (rejecting _) back keep h = tt
  IsAhead-weaken Named Named' rows rows' c (reusing _) back keep h = tt
  IsAhead-weaken Named Named' rows rows' c (discarding _) back keep h = tt
  IsAhead-weaken Named Named' rows rows' c (settled (ok r)) back keep (inl d) = inl d
  IsAhead-weaken Named Named' rows rows' c (settled (ok r)) back keep (inr (e, row)) =
      inr (e, keep row)
  IsAhead-weaken Named Named' rows rows' c (settled (err f)) back keep h = tt

module _ {Number : Type 0} (S : JobStore Number) (A : Platform Number) (P : Python)
    (J : Json P) where
  open P use {Foreign}

  -- What a call of a request does: the rows of other jobs stay; what it sends names its own job, which
  -- has a row; its own row stays if a message names it; and the request is ahead again.
  pub record IsOwn (Named : Type 0) (c : Creation) (stage' : Stage Number) (w w' : World S)
      : Type 0 where
    pub others :
        (other : Text)
        → text_eq c.job_id other ≡ false
        → get_status S other w'.rows ≡ get_status S other w.rows
    pub sends :
        (id : Text)
        → Awaits P id (sent S A P J w.taken w'.taken)
        → (id ≡ c.job_id) × HasRow S c.job_id w'.rows
    pub keeps : Named → HasRow S c.job_id w.rows → HasRow S c.job_id w'.rows
    pub ahead :
        IsAhead S (Named ⊎ Awaits P c.job_id (sent S A P J w.taken w'.taken)) w'.rows c stage'

  module _ (Named : Type 0) (o : Outcomes) (c : Creation) (sure : o.confirm ≢ lost)
      (uuid : P.is_uuid c.job_id ≡ true) where
    abbrev Result : Stage Number → World S → Type 0
    Result stage w = let (stage', w') = proceed S A o c stage w in IsOwn Named c stage' w w'

    -- A call that neither changes a row nor sends a message.
    quiet :
        (stage' : Stage Number) (w w' : World S)
        → w'.rows ≡ w.rows
        → w'.taken ≡ w.taken
        → IsAhead S Named w.rows c stage'
        → IsOwn Named c stage' w w'
    quiet stage' w w' rows taken h = record {
      others = λ other ne. ap (get_status S other) rows;
      sends = λ id s. absurd (rw (taken, drop-length_self w.taken) at s);
      keeps = λ n r. rw rows r;
      ahead =
          IsAhead-weaken S Named _ w.rows w'.rows c stage'
            (λ n. elim n [ inl m ↦ m | inr s ↦ absurd (rw (taken, drop-length_self w.taken) at s) ])
            (λ r. rw rows r) h;
    }

    no_send : (id : Text) (w : World S) → Awaits P id (sent S A P J w.taken w.taken) → ⊥
    no_send id w s = absurd (rw (drop-length_self w.taken) at s)

    saved :
        (job : Job Number) (rows : S.Rows) → job.id ≡ c.job_id → HasRow S c.job_id (S.save job rows)
    unfolding get_status
    saved job rows e =
        λ q. ground (arith, q, e, S.find_one_by-save c.job_id job rows, text_eq_refl c.job_id)

    saving-IsOwn :
        (job : Job Number) (w : World S) → job.id ≡ c.job_id → (Named → ⊥) → Result (saving job) w
    unfolding proceed
    saving-IsOwn job w e unnamed = elim (Bool-cases o.saves) [
      | inr fails ↦ rw fails (quiet (settled _) w w refl refl tt)
      | inl saves ↦ rw saves (record {
        others = λ other ne.
            get_status-same S other w.rows (S.save job w.rows)
              (ground (arith, ne, e, S.find_one_by-save other job w.rows));
        sends = λ id s. absurd (no_send id w s);
        keeps = λ n r. saved job w.rows e;
        ahead = (
          e,
          (λ n. elim n [ inl m ↦ unnamed m | inr s ↦ no_send c.job_id w s ]),
          saved job w.rows e,
        );
      })
    ]

    deleting-IsOwn :
        (job : Job Number) (w : World S) → job.id ≡ c.job_id → (Named → ⊥) → Result (deleting job) w
    unfolding proceed
    deleting-IsOwn job w e unnamed = elim (Bool-cases o.deletes) [
      | inr fails ↦ rw fails (quiet (settled _) w w refl refl tt)
      | inl deletes ↦ rw deletes (record {
        others = λ other ne.
            get_status-same S other w.rows (S.delete job.id w.rows)
              (ground (arith, ne, e, S.find_one_by-delete other job.id w.rows));
        sends = λ id s. absurd (no_send id w s);
        keeps = λ n r. absurd (unnamed n);
        ahead = tt;
      })
    ]

    sure_cases :
        (w : World S) (m : JobMessage)
        → let (e, taken) = publish_job w.publisher o.confirm m w.taken in
          ((e ≡ none) × (taken ≡ w.taken ++ m ∷ []))
          ⊎ ((error : PublishError) × (e ≡ some error) × (taken ≡ w.taken))
    unfolding publish_job
    sure_cases w m = ground (arith, sure)

    publishing-IsOwn :
        (job : Job Number) (w : World S)
        → job.id ≡ c.job_id
        → (Named → ⊥)
        → HasRow S c.job_id w.rows
        → Result (publishing job) w
    unfolding proceed
    publishing-IsOwn job w e unnamed row =
        let m : JobMessage = record { job_id = job.id; file_path = job.file_path; attempt = 0 } in
        let (error, taken) = publish_job w.publisher o.confirm m w.taken in
        elim (sure_cases w m) [
          | inr (x, q, same) ↦
              quiet (confirming job error) w (record w { taken = taken }) refl same
                (rw q (e, unnamed))
          | inl (q, more) ↦ record {
            others = λ other ne. refl;
            sends = λ id s. elim (rw (more, drop-length w.taken (m ∷ [])) at s) [
              | inr never ↦ absurd never
              | inl (path, names) ↦ (ground (arith, names, e, parse-encode P J m (rw e uuid)), row)
            ];
            keeps = λ n r. r;
            ahead = rw q (e, row);
          }
        ]

    -- Moving the upload changes the files only.
    promoting-IsOwn :
        (promoted : Option (Text × Files)) (content_hash : Text) (w : World S)
        → (Named → ⊥)
        → let (stage', w') =
            when_ok
              (moved S A o promoted w)
              (λ file_path. saving (row_of S A o c.job_id c.now c.file file_path content_hash)) in
          IsOwn Named c stage' w w'
    promoting-IsOwn none content_hash w unnamed = quiet (settled _) w w refl refl tt
    promoting-IsOwn (some (path, files)) content_hash w unnamed =
        quiet (saving (row_of S A o c.job_id c.now c.file path content_hash)) w
          (record w { files = files }) refl refl (refl, unnamed)

    pub proceed-IsOwn :
        (stage : Stage Number) (w : World S) → IsAhead S Named w.rows c stage → Result stage w
    unfolding proceed
    proceed-IsOwn (rejecting reason) w h = quiet _ w _ refl refl tt
    proceed-IsOwn hashing w h = elim (Option-cases (sha256 A.digest o.reads c.file.path w.files)) [
      | inl q ↦ rw q (quiet (settled _) w w refl refl tt)
      | inr (hash, q) ↦ rw q (quiet (looking_up hash) w w refl refl h)
    ]
    proceed-IsOwn (looking_up content_hash) w h = elim (Bool-cases o.finds) [
      | inr fails ↦ rw fails (quiet (settled _) w w refl refl tt)
      | inl finds ↦ elim (Option-cases (S.find_completed content_hash w.rows)) [
        | inl q ↦ rw (finds, q) (quiet (promoting content_hash) w w refl refl h)
        | inr (job, q) ↦ rw (finds, q) (quiet (reusing job) w w refl refl tt)
      ]
    ]
    proceed-IsOwn (reusing existing) w h = quiet _ w _ refl refl (inl refl)
    proceed-IsOwn (promoting content_hash) w h = promoting-IsOwn _ content_hash w h
    proceed-IsOwn (saving job) w (e, h) = saving-IsOwn job w e h
    proceed-IsOwn (publishing job) w (e, h, r) = publishing-IsOwn job w e h r
    proceed-IsOwn (confirming job none) w h = quiet (settled _) w w refl refl (inr h)
    proceed-IsOwn (confirming job (some x)) w h = quiet (deleting job) w w refl refl h
    proceed-IsOwn (deleting job) w (e, h) = deleting-IsOwn job w e h
    proceed-IsOwn (discarding job) w h = quiet _ w _ refl refl tt
    proceed-IsOwn (settled r) w h = quiet (settled r) w w refl refl h

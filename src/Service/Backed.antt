-- ===== src/Service/Backed.antt =====
-- Row before message: whatever the exchange has taken names a row.
use scribeflow.Prelude.{
  ℕ, ◌≡◌, ◌≢◌, refl, ◌∙◌, ap, inl, inr, List, [], ◌∷◌, none, some, arith, Bool-cases, All,
  All-append,
}
use scribeflow.Text.{Text}
use scribeflow.Text.Equality.{text_eq_refl, text_eq_iff}
use scribeflow.Text.Utf8.{Bytes}
use scribeflow.Queue.Topology.{JobMessage}
use scribeflow.Queue.Publisher.{lost}
use scribeflow.Jobs.{Job}
use scribeflow.Store.{JobStore}
use scribeflow.Service.{
  MulterFile, CreateResult, Result, ok, err, Outcomes, Platform, World, create,
}
use scribeflow.Service.Create.{message, IsAccepted, create-IsCreated}
use scribeflow.Service.Failures.{Remains, create-Remains, saved_row}

module _ {Number : Type 0} (S : JobStore Number) where
  -- The message names a row of the table and the file of that row.
  abbrev pub IsBacked : S.Rows → JobMessage → Type 0
  IsBacked rows m =
      (job : Job Number) × (S.find_one_by m.job_id rows ≡ some job) × (job.file_path ≡ m.file_path)

  -- No row is lost or changed.
  abbrev Keeps : S.Rows → S.Rows → Type 0
  Keeps rows rows' =
      (id : Text) (job : Job Number)
      → S.find_one_by id rows ≡ some job
      → S.find_one_by id rows' ≡ some job

  All-IsBacked :
      (rows rows' : S.Rows) (ms : List JobMessage)
      → Keeps rows rows'
      → All (IsBacked rows) ms
      → All (IsBacked rows') ms
  All-IsBacked rows rows' [] k h = tt
  All-IsBacked rows rows' (m ∷ ms) k ((job, found, path), hs) =
      ((job, k m.job_id job found, path), All-IsBacked rows rows' ms k hs)

  save-Keeps :
      (rows : S.Rows) (new : Job Number)
      → S.find_one_by new.id rows ≡ none
      → Keeps rows (S.save new rows)
  save-Keeps rows new unused id job found =
      ground (arith, S.find_one_by-save id new rows, text_eq_iff new.id id)

  save-delete-Keeps :
      (rows : S.Rows) (new : Job Number)
      → S.find_one_by new.id rows ≡ none
      → Keeps rows (S.delete new.id (S.save new rows))
  save-delete-Keeps rows new unused id job found = ground (
    arith,
    S.find_one_by-save id new rows,
    S.find_one_by-delete id new.id (S.save new rows),
    text_eq_iff new.id id,
  )

module _ {Number : Type 0} (S : JobStore Number) (P : Platform Number) (o : Outcomes)
    (job_id : Text) (now : ℕ) (file : MulterFile) (w : World S) where
  -- The same messages over rows that keep what they had.
  unsent :
      (w' : World S)
      → Keeps S w.rows w'.rows
      → w'.taken ≡ w.taken
      → All (IsBacked S w.rows) w.taken
      → All (IsBacked S w'.rows) w'.taken
  unsent w' k e h = rw e (All-IsBacked S w.rows w'.rows w.taken k h)

  of_accepted :
      (bytes : Bytes) (r : CreateResult Number) (w' : World S)
      → S.find_one_by job_id w.rows ≡ none
      → IsAccepted S P o job_id now file w bytes r w'
      → All (IsBacked S w.rows) w.taken
      → All (IsBacked S w'.rows) w'.taken
  of_accepted bytes r w' unused a h =
      let same = ap (λ x. x.job) a.result in
      let id : r.job.id ≡ job_id = ap (λ j. j.id) same in
      let kept : Keeps S w.rows w'.rows =
        rw a.stored (save-Keeps S w.rows r.job (ap (λ i. S.find_one_by i w.rows) id ∙ unused)) in
      let row : S.find_one_by job_id w'.rows ≡ some r.job =
        ground (arith, a.stored, id, S.find_one_by-save job_id r.job w.rows, text_eq_refl job_id) in
      rw a.sent (
        All-append (IsBacked S w'.rows) w.taken (message S P o job_id now file ∷ [])
          (All-IsBacked S w.rows w'.rows w.taken kept h)
          ((r.job, row, ap (λ j. j.file_path) same), tt))

  of_Remains :
      (w' : World S) (hash : Text)
      → S.find_one_by job_id w.rows ≡ none
      → o.confirm ≢ lost
      → Remains S P o job_id now file w w' hash
      → All (IsBacked S w.rows) w.taken
      → All (IsBacked S w'.rows) w'.taken
  of_Remains w' hash unused sure (rows, inr l) h = absurd (sure l)
  of_Remains w' hash unused sure (inl same, inl t) h = unsent w' (rw same (λ id job e. e)) t h
  of_Remains w' hash unused sure (inr changed, inl t) h =
      let new = saved_row S P o job_id now file hash in
      unsent w'
        (rw changed (elim (Bool-cases o.deletes) [
          | inl d ↦ rw d (save-delete-Keeps S w.rows new unused)
          | inr d ↦ rw d (save-Keeps S w.rows new unused)
        ]))
        t h

  by_result :
      (r : Result (CreateResult Number)) (w' : World S)
      → create S P o job_id now file w ≡ (r, w')
      → S.find_one_by job_id w.rows ≡ none
      → o.confirm ≢ lost
      → All (IsBacked S w.rows) w.taken
      → All (IsBacked S w'.rows) w'.taken
  by_result (ok r) w' e unused sure h =
      let c = create-IsCreated S P o job_id now file w w' r e in
      elim c.cases [
        | inl a ↦ of_accepted c.bytes r w' unused a h
        | inr d ↦
            unsent w' (rw (ap (λ x. x.rows) d.unchanged) (λ id job found. found))
              (ap (λ x. x.taken) d.unchanged) h
      ]
  by_result (err f) w' e unused sure h =
      let (hash, remains) = create-Remains S P o job_id now file w w' f e in
      of_Remains w' hash unused sure remains h

  -- If every message that the exchange has taken names a row and the file of that row, this is so
  -- after `create` too, however its calls end and whatever it answers: the new id being unused and
  -- no confirmation being lost.
  pub create-IsBacked :
      S.find_one_by job_id w.rows ≡ none
      → o.confirm ≢ lost
      → All (IsBacked S w.rows) w.taken
      → All
          (IsBacked S (create S P o job_id now file w).1.rows)
          (create S P o job_id now file w).1.taken
  create-IsBacked unused sure h =
      by_result (create S P o job_id now file w).0 (create S P o job_id now file w).1 refl unused
        sure h

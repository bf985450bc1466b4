-- ===== src/System/Stranded/Uploads.antt =====
-- A request of the API strands no job.
use scribeflow.Prelude.{
  ℕ, ◌≡◌, ◌⊎◌, refl, sym, ap, inl, inr, true, List, [], ◌∷◌, ◌++◌, arith, Bool-cases, drop-length,
}
use scribeflow.Text.{Text, text_eq}
use scribeflow.Text.Equality.{text_eq_iff}
use scribeflow.Store.{JobStore}
use scribeflow.Service.{
  MulterFile, CreateResult, Result, ok, err, Outcomes, Platform, World, create,
}
use scribeflow.Service.Create.{message, IsAccepted, create-IsCreated}
use scribeflow.Service.Failures.{create-err_undone}
use scribeflow.Worker.Database.{get_status}
use scribeflow.Worker.Database.Lookup.{get_status-same}
use scribeflow.Worker.Message.{Python, Message}
use scribeflow.System.{Json, System, uploads, message_of, sent}
use scribeflow.System.Awaited.{Names, Awaits, parse-encode}
use scribeflow.System.Picked.{Any-append_left, Any-append_right}
use scribeflow.System.Stranded.{is_unfinished, NoneStranded, IsAllowed}

module _ {Number : Type 0} (S : JobStore Number) (A : Platform Number) (P : Python) (J : Json P)
    (Q : Text → Type 0) where
  open P use {Foreign}

  module _ (s : System S Foreign) (kept : NoneStranded S A P J Q s) where
    kept-append :
        (id : Text) (more : List (Message Foreign))
        → is_unfinished (get_status S id s.api.rows) ≡ true
        → Awaits P id (s.jobs ++ more) ⊎ Awaits P id s.retries ⊎ Q id
    kept-append id more h = elim (kept id h) [
      | inl j ↦ inl (Any-append_left (Names P id) s.jobs more j)
      | inr r ↦ inr r
    ]

    module _ (o : Outcomes) (job_id : Text) (now : ℕ) (file : MulterFile) where
      abbrev after : World S → System S Foreign
      after w = record s { api = w; jobs = s.jobs ++ sent S A P J s.api.taken w.taken }

      accepted-NoneStranded :
          (w : World S) (bytes : List ℕ) (r : CreateResult Number)
          → P.is_uuid job_id ≡ true
          → IsAccepted S A o job_id now file s.api bytes r w
          → NoneStranded S A P J Q (after w)
      accepted-NoneStranded w bytes r u a id h = elim (Bool-cases (text_eq job_id id)) [
        | inl same ↦
            let m = message S A o job_id now file in
            let e : id ≡ job_id = sym ((text_eq_iff job_id id).0 same) in
            let new : sent S A P J s.api.taken w.taken ≡ message_of S A P J m ∷ [] =
              rw (a.sent, drop-length s.api.taken (m ∷ [])) refl in
            inl (
              rw (new, e)
                (Any-append_right (Names P job_id) s.jobs (message_of S A P J m ∷ [])
                  (inl (m.file_path, parse-encode P J m u))))
        | inr other ↦
            let id_of : r.job.id ≡ job_id = ap (λ x. x.job.id) a.result in
            let old : S.find_one_by id w.rows ≡ S.find_one_by id s.api.rows =
              ground (arith, a.stored, id_of, other, S.find_one_by-save id r.job s.api.rows) in
            kept-append id _ (rw (get_status-same S id s.api.rows w.rows old) at h)
      ]

      same-NoneStranded :
          (w : World S)
          → ((id : Text) → S.find_one_by id w.rows ≡ S.find_one_by id s.api.rows)
          → NoneStranded S A P J Q (after w)
      same-NoneStranded w same id h =
          kept-append id _ (rw (get_status-same S id s.api.rows w.rows (same id)) at h)

      pub result-NoneStranded :
          (r : Result (CreateResult Number)) (w : World S)
          → create S A o job_id now file s.api ≡ (r, w)
          → IsAllowed S A P J (uploads o job_id now file) s
          → NoneStranded S A P J Q (after w)
      result-NoneStranded (err f) w e (u, new, deletes) =
          same-NoneStranded w (create-err_undone S A o job_id now file s.api w f e new deletes).0
      result-NoneStranded (ok r) w e (u, new, deletes) =
          let c = create-IsCreated S A o job_id now file s.api w r e in
          elim c.cases [
            | inl a ↦ accepted-NoneStranded w c.bytes r u a
            | inr d ↦ same-NoneStranded w (λ id. ap (λ x. S.find_one_by id x.rows) d.unchanged)
          ]

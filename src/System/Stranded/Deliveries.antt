-- ===== src/System/Stranded/Deliveries.antt =====
-- A delivery to a worker strands no job.
use scribeflow.Prelude.{
  ℕ, ◌≡◌, ◌⊎◌, refl, ◌∙◌, inl, inr, true, false, List, none, some, arith, Option-cases, Bool-cases,
}
use scribeflow.Text.{Text, text_eq}
use scribeflow.Text.Equality.{text_eq_iff}
use scribeflow.Store.{JobStore}
use scribeflow.Service.{Platform}
use scribeflow.Worker.Database.{get_status}
use scribeflow.Worker.Message.{Python, Message, parse}
use scribeflow.Worker.Message.Headers.{parse-same_body}
use scribeflow.Worker.Handler.{
  Settlement, unsettled, acked, rejected, requeued, Fates, Site, Constants, handle_message,
}
use scribeflow.Worker.Handler.Accounts.{handle_message-IsCovered, handle_message-rejected}
use scribeflow.Worker.Handler.Frame.{handle_message-IsFrame, handle_message-malformed}
use scribeflow.System.{Json, System, pick, site, put_back, deliver}
use scribeflow.System.Awaited.{Names, Awaits}
use scribeflow.System.Picked.{Any-append_left, Any-append_right, Any-pick}
use scribeflow.System.Stranded.{is_unfinished, NoneStranded}

module _ {Number : Type 0} (S : JobStore Number) (A : Platform Number) (P : Python) (J : Json P)
    (Q : Text → Type 0) where
  open P use {Foreign}

  module _ (s : System S Foreign) (kept : NoneStranded S A P J Q s) where
    module _ (K : Constants Number) (o : Fates Number) (m : Message Foreign)
        (rest : List (Message Foreign)) where
      abbrev handled : Site S Foreign
      handled = (handle_message S P K o m (site S A P J s)).1

      -- A message that names a job stays for it, unless it is answered for good.
      put_back-Awaits :
          (answer : Settlement) (id : Text)
          → Awaits P id rest
          → Awaits P id (put_back S A P J answer m rest)
      put_back-Awaits unsettled id h = inr h
      put_back-Awaits acked id h = h
      put_back-Awaits rejected id h = h
      put_back-Awaits requeued id h = inr h

      -- The job of the message itself.
      own-Awaits :
          (id path : Text) (answer : Settlement)
          → parse P m ≡ some (id, path)
          → handled.settlement ≡ answer
          → is_unfinished (get_status S id handled.rows) ≡ true
          → Awaits P id (put_back S A P J answer m rest) ⊎ Awaits P id handled.retry_queue ⊎ Q id
      own-Awaits id path unsettled e a h = inl (inl (path, e))
      own-Awaits id path requeued e a h = inl (inl (path, e))
      own-Awaits id path rejected e a h =
          absurd
            (ground (arith, handle_message-rejected S P K o m id (site S A P J s) path e refl a))
      own-Awaits id path acked e a h =
          elim (handle_message-IsCovered S P K o m id (site S A P J s) path e refl a) [
            | inl done ↦ absurd (ground (arith, done))
            | inr (inl (ttl_ms, d, copy, q)) ↦ inr (
                inl (
                  rw copy (
                    Any-append_right (Names P id) s.retries _
                      (inl (path, parse-same_body P m _ refl ∙ e)))))
            | inr (inr (d, copy, f)) ↦ absurd (ground (arith, f))
          ]

      malformed-NoneStranded :
          (n : ℕ)
          → pick n s.jobs ≡ some (m, rest)
          → parse P m ≡ none
          → NoneStranded S A P J Q (deliver S A P J K o m rest s)
      malformed-NoneStranded n q e id h =
          let (rows, retries) = handle_message-malformed S P K o (site S A P J s) m e in
          elim (kept id (rw rows at h)) [
            | inr (inl r) ↦ inr (inl (rw retries r))
            | inr (inr x) ↦ inr (inr x)
            | inl j ↦ elim (Any-pick (Names P id) n s.jobs rest m q j) [
              | inl (path, named) ↦ absurd (ground (arith, named))
              | inr still ↦ inl (put_back-Awaits handled.settlement id still)
            ]
          ]

      others-NoneStranded :
          (n : ℕ) (own path id : Text)
          → pick n s.jobs ≡ some (m, rest)
          → parse P m ≡ some (own, path)
          → text_eq own id ≡ false
          → is_unfinished (get_status S id handled.rows) ≡ true
          → Awaits P id (put_back S A P J handled.settlement m rest)
            ⊎ Awaits P id handled.retry_queue
            ⊎ Q id
      others-NoneStranded n own path id q e ne h =
          let f = handle_message-IsFrame S P K o own (site S A P J s) m path e in
          let (more, grown, copies) = f.retries in
          elim (kept id (rw (f.others id ne) at h)) [
            | inr (inl r) ↦ inr (inl (rw grown (Any-append_left (Names P id) s.retries more r)))
            | inr (inr x) ↦ inr (inr x)
            | inl j ↦ elim (Any-pick (Names P id) n s.jobs rest m q j) [
              | inl (path', named) ↦ absurd (ground (arith, named, e, ne, text_eq_iff own id))
              | inr still ↦ inl (put_back-Awaits handled.settlement id still)
            ]
          ]

      pub deliver-NoneStranded :
          (n : ℕ)
          → pick n s.jobs ≡ some (m, rest)
          → NoneStranded S A P J Q (deliver S A P J K o m rest s)
      deliver-NoneStranded n q id h = elim (Option-cases (parse P m)) [
        | inl e ↦ malformed-NoneStranded n q e id h
        | inr ((own, path), e) ↦ elim (Bool-cases (text_eq own id)) [
          | inl same ↦
              own-Awaits id path handled.settlement (rw (← (text_eq_iff own id).0 same) e) refl h
          | inr ne ↦ others-NoneStranded n own path id q e ne h
        ]
      ]

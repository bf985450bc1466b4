-- ===== src/Web/Page/Consistency.antt =====
-- What the page shows, as long as uploads start one after the other.
use scribeflow.Prelude.{
  ℕ, zero, suc, ◌≡◌, ◌≢◌, ◌⊎◌, refl, inl, inr, Bool, true, false, [], ◌∷◌, Option, none, some,
  arith, Bool-cases,
}
use scribeflow.Text.{Text}
use scribeflow.Text.Equality.{text_eq_iff}
use scribeflow.Web.Page.{
  PageJob, Reply, Upload, posting, fetching, Page, drags, drops, chooses, answers, throws, polled,
  same_id, take_nth, is_busy, id_of, begin, posted, resumed, replace, is_completed, react, blank,
}

same_id-true : (a b : Option Text) → same_id a b ≡ true → a ≡ b
same_id-true none none e = refl
same_id-true none (some b) e = cc
same_id-true (some a) none e = cc
same_id-true (some a) (some b) e = ground (arith, text_eq_iff a b)

module _ {Number : Type 0} (nought : Number) where
  -- Nothing is under way and there is not both a job and an error; or one upload is under way, and
  -- neither is shown.
  pub data IsConsistent : Page Number → Type 0 where
    idle :
        {page : Page Number}
        → page.uploads ≡ []
        → page.uploading ≡ false
        → (page.job ≡ none) ⊎ (page.upload_error ≡ none)
        → IsConsistent page
    busy_with :
        {page : Page Number} (u : Upload)
        → page.uploads ≡ u ∷ []
        → page.uploading ≡ true
        → page.job ≡ none
        → page.upload_error ≡ none
        → IsConsistent page

  -- The page takes a file only while it is not busy; and the API answers a poll that succeeds with a
  -- job, which has an id.
  pub data Reachable : Page Number → Type 0 where
    start : Reachable (blank nought)
    dragged :
        {page : Page Number} (over : Bool)
        → Reachable page
        → Reachable (react nought (drags over) page)
    dropped :
        {page : Page Number} (name : Text)
        → Reachable page
        → is_busy nought page ≡ false
        → Reachable (react nought (drops name) page)
    chosen :
        {page : Page Number} (name : Text)
        → Reachable page
        → is_busy nought page ≡ false
        → Reachable (react nought (chooses name) page)
    answered :
        {page : Page Number} (n : ℕ) (reply : Reply Number)
        → Reachable page
        → Reachable (react nought (answers n reply) page)
    thrown :
        {page : Page Number} (n : ℕ) (message : Text)
        → Reachable page
        → Reachable (react nought (throws n message) page)
    polled_job :
        {page : Page Number} (reply : Reply Number)
        → Reachable page
        → reply.body.id ≢ none
        → Reachable (react nought (polled reply) page)

  dragged-IsConsistent :
      (page : Page Number) (over : Bool)
      → IsConsistent page
      → IsConsistent (react nought (drags over) page)
  unfolding react
  dragged-IsConsistent page over (idle us up one) = idle us up one
  dragged-IsConsistent page over (busy_with u us up job error) = busy_with u us up job error

  begin-IsConsistent :
      (page : Page Number) (name : Text)
      → IsConsistent page
      → is_busy nought page ≡ false
      → IsConsistent (begin nought name page)
  unfolding begin is_busy
  begin-IsConsistent page name (idle us up one) h =
      busy_with (posting name) (ground arith) refl refl refl
  begin-IsConsistent page name (busy_with u us up job error) h = absurd (ground arith)

  dropped-IsConsistent :
      (page : Page Number) (name : Text)
      → IsConsistent page
      → is_busy nought page ≡ false
      → IsConsistent (react nought (drops name) page)
  unfolding react is_busy
  dropped-IsConsistent page name v h =
      begin-IsConsistent (record page { dragging = false }) name (dragged-IsConsistent page false v)
        h

  chosen-IsConsistent :
      (page : Page Number) (name : Text)
      → IsConsistent page
      → is_busy nought page ≡ false
      → IsConsistent (react nought (chooses name) page)
  unfolding react
  chosen-IsConsistent page name v h = begin-IsConsistent page name v h

  -- An upload that ends well is shown, one that fails leaves an error.
  resumed-IsConsistent :
      (page : Page Number) (u : Upload) (reply : Reply Number)
      → page.uploads ≡ []
      → page.uploading ≡ true
      → page.job ≡ none
      → page.upload_error ≡ none
      → IsConsistent (resumed nought u reply page)
  unfolding posted
  resumed-IsConsistent page fetching reply us up job error = idle us refl (inr error)
  resumed-IsConsistent page (posting name) reply us up job error = elim (Bool-cases reply.ok) [
    | inr e ↦ rw e (idle us refl (inl job))
    | inl e ↦ elim (Bool-cases (is_completed reply.body.status)) [
      | inl c ↦ rw (e, c) (busy_with fetching (ground arith) up job error)
      | inr c ↦ rw (e, c) (idle us refl (inr error))
    ]
  ]

  answered-IsConsistent :
      (page : Page Number) (n : ℕ) (reply : Reply Number)
      → IsConsistent page
      → IsConsistent (react nought (answers n reply) page)
  unfolding react take_nth
  answered-IsConsistent page n reply (idle us up one) = rw (us, react) (idle us up one)
  answered-IsConsistent page zero reply (busy_with u us up job error) =
      rw (us, react) (resumed-IsConsistent (record page { uploads = [] }) u reply refl up job error)
  answered-IsConsistent page (suc n) reply (busy_with u us up job error) =
      rw (us, react) (busy_with u us up job error)

  thrown-IsConsistent :
      (page : Page Number) (n : ℕ) (message : Text)
      → IsConsistent page
      → IsConsistent (react nought (throws n message) page)
  unfolding react take_nth
  thrown-IsConsistent page n message (idle us up one) = rw (us, react) (idle us up one)
  thrown-IsConsistent page zero message (busy_with u us up job error) =
      rw (us, react) (idle refl refl (inl job))
  thrown-IsConsistent page (suc n) message (busy_with u us up job error) =
      rw (us, react) (busy_with u us up job error)

  replace-none : (fresh : PageJob Number) → fresh.id ≢ none → replace nought fresh none ≡ none
  replace-none fresh h = ground arith

  polled-IsConsistent :
      (page : Page Number) (reply : Reply Number)
      → reply.body.id ≢ none
      → IsConsistent page
      → IsConsistent (react nought (polled reply) page)
  unfolding react
  polled-IsConsistent page reply h (idle us up (inr error)) = elim (Bool-cases reply.ok) [
    | inl e ↦ rw e (idle us up (inr error))
    | inr e ↦ rw e (idle us up (inr error))
  ]
  polled-IsConsistent page reply h (idle us up (inl job)) = elim (Bool-cases reply.ok) [
    | inl e ↦ rw e (idle us up (inl (ground (arith, job, replace-none reply.body h))))
    | inr e ↦ rw e (idle us up (inl job))
  ]
  polled-IsConsistent page reply h (busy_with u us up job error) = elim (Bool-cases reply.ok) [
    | inl e ↦ rw e (busy_with u us up (ground (arith, job, replace-none reply.body h)) error)
    | inr e ↦ rw e (busy_with u us up job error)
  ]

  -- As long as a file is taken only while the page is not busy, and a poll that succeeds brings a
  -- job with an id: either no upload is under way, `uploading` is false and there is not both a job
  -- and an error; or exactly one upload is under way, `uploading` is true and there is neither.
  pub Reachable-IsConsistent : (page : Page Number) → Reachable page → IsConsistent page
  Reachable-IsConsistent page start = idle refl refl (inl refl)
  Reachable-IsConsistent page (dragged over r) =
      dragged-IsConsistent _ over (Reachable-IsConsistent _ r)
  Reachable-IsConsistent page (dropped name r free) =
      dropped-IsConsistent _ name (Reachable-IsConsistent _ r) free
  Reachable-IsConsistent page (chosen name r free) =
      chosen-IsConsistent _ name (Reachable-IsConsistent _ r) free
  Reachable-IsConsistent page (answered n reply r) =
      answered-IsConsistent _ n reply (Reachable-IsConsistent _ r)
  Reachable-IsConsistent page (thrown n message r) =
      thrown-IsConsistent _ n message (Reachable-IsConsistent _ r)
  Reachable-IsConsistent page (polled_job reply r h) =
      polled-IsConsistent _ reply h (Reachable-IsConsistent _ r)

  -- A poll never changes which job is shown, nor the error, nor what is under way: whatever it is
  -- answered, and however late, the id of the shown job stays.
  pub react-polled :
      (page : Page Number) (reply : Reply Number)
      → let page' = react nought (polled reply) page in
        (id_of nought page'.job ≡ id_of nought page.job)
        × (page'.upload_error ≡ page.upload_error)
        × (page'.uploading ≡ page.uploading)
        × (page'.uploads ≡ page.uploads)
  unfolding react
  react-polled page reply = ground (arith, same_id-true (id_of nought page.job) reply.body.id)

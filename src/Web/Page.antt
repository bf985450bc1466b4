-- ===== src/Web/Page.antt =====
-- The state of web/app/page.tsx: a step for each event that the page reacts to. A call of `upload` or
-- of a poll stands at the `await` where it waits. Web.View models what it shows.
pub mod Consistency
mod Tests
use scribeflow.Prelude.{
  ℕ, zero, suc, Bool, true, false, not, ◌||◌, List, [], ◌∷◌, ◌++◌, Option, none, some,
  if◌then◌else◌,
}
use scribeflow.Text.{Text, codes, text_eq, to_decimal}
use scribeflow.Jobs.{JobStatus, queued, processing, completed, Transcript}

-- A body of JSON that the page takes for a job. In the body of an error, a property can be missing.
pub record PageJob (Number : Type 0) : Type 0 where
  pub id : Option Text
  pub status : Option JobStatus
  pub original_name : Option Text
  pub progress : Option Number
  pub duration_sec : Option Number
  pub language : Option Text
  pub error : Option Text
  pub transcript : Option (Transcript Number)

-- `res.ok`, `res.status`, the body and its `message`.
pub record Reply (Number : Type 0) : Type 0 where
  pub ok : Bool
  pub status : ℕ
  pub body : PageJob Number
  pub message : Option Text

-- Where a call of `upload` waits: for the answer to the POST, with the name of the file, or for the
-- job of a deduplicated upload.
pub data Upload : Type 0 where
  posting : Text → Upload
  fetching : Upload

pub record Page (Number : Type 0) : Type 0 where
  pub job : Option (PageJob Number)
  pub uploading : Bool
  pub dragging : Bool
  pub upload_error : Option Text
  pub uploads : List Upload

pub data Event (Number : Type 0) : Type 0 where
  -- `onDragOver` and `onDragLeave`
  drags : Bool → Event Number
  -- a file is dropped or chosen
  drops : Text → Event Number
  chooses : Text → Event Number
  -- the await of the n-th call of `upload` ends: the answer and its body are here, or it throws
  answers : ℕ → Reply Number → Event Number
  throws : ℕ → Text → Event Number
  -- a poll is answered; one that throws changes nothing
  polled : Reply Number → Event Number

abbrev pub same_id : Option Text → Option Text → Bool
same_id none none = true
same_id (some a) (some b) = text_eq a b
same_id _ _ = false

abbrev pub is_pending : Option JobStatus → Bool
is_pending (some queued) = true
is_pending (some processing) = true
is_pending _ = false

abbrev pub is_completed : Option JobStatus → Bool
is_completed (some completed) = true
is_completed _ = false

abbrev pub or_text : Option Text → Text → Text
or_text none fallback = fallback
or_text (some text) fallback = text

unfoldable pub take_nth : ℕ → List Upload → Option (Upload × List Upload)
take_nth n [] = none
take_nth zero (u ∷ us) = some (u, us)
take_nth (suc n) (u ∷ us) = elim (take_nth n us) [ none ↦ none | some (v, vs) ↦ some (v, u ∷ vs) ]

module _ {Number : Type 0} (nought : Number) where
  abbrev pub id_of : Option (PageJob Number) → Option Text
  id_of none = none
  id_of (some job) = job.id

  -- The effect polls while this holds.
  abbrev pub is_polling : Page Number → Bool
  is_polling page = elim page.job [ none ↦ false | some job ↦ is_pending job.status ]

  -- `busy`.
  unfoldable pub is_busy : Page Number → Bool
  is_busy page = page.uploading || is_polling page

  -- The start of `upload(file)`.
  unfoldable pub begin : Text → Page Number → Page Number
  begin name page = record page {
    upload_error = none;
    job = none;
    uploading = true;
    uploads = posting name ∷ page.uploads;
  }

  -- `catch` and `finally`, and `finally` behind `setJob`.
  abbrev pub fail : Text → Page Number → Page Number
  fail message page = record page { upload_error = some message; uploading = false }

  abbrev pub show : PageJob Number → Page Number → Page Number
  show job page = record page { job = some job; uploading = false }

  -- `upload` from the answer to the POST on.
  unfoldable pub posted : Text → Reply Number → Page Number → Page Number
  posted name reply page =
      if not reply.ok
      then fail
          (or_text reply.message
            (codes "Upload failed (" ++ (to_decimal reply.status ++ codes ")")))
          page
      else if is_completed reply.body.status
      then record page { uploads = fetching ∷ page.uploads }
      else show
          (record {
            id = reply.body.id;
            status = reply.body.status;
            original_name = some name;
            progress = some nought;
            duration_sec = none;
            language = none;
            error = none;
            transcript = none;
          })
          page

  abbrev pub resumed : Upload → Reply Number → Page Number → Page Number
  resumed (posting name) reply page = posted name reply page
  resumed fetching reply page = show reply.body page

  abbrev pub replace : PageJob Number → Option (PageJob Number) → Option (PageJob Number)
  replace fresh current = if same_id (id_of current) fresh.id then some fresh else current

  unfoldable pub react : Event Number → Page Number → Page Number
  unfolding begin posted take_nth
  react (drags over) page = record page { dragging = over }
  react (drops name) page = begin name (record page { dragging = false })
  react (chooses name) page = begin name page
  react (answers n reply) page = elim (take_nth n page.uploads) [
    | none ↦ page
    | some (u, us) ↦ resumed u reply (record page { uploads = us })
  ]
  react (throws n message) page = elim (take_nth n page.uploads) [
    | none ↦ page
    | some (u, us) ↦ fail message (record page { uploads = us })
  ]
  react (polled reply) page =
      if reply.ok then record page { job = replace reply.body page.job } else page

  abbrev pub blank : Page Number
  blank = record {
    job = none;
    uploading = false;
    dragging = false;
    upload_error = none;
    uploads = [];
  }

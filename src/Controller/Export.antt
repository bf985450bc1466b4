-- ===== src/Controller/Export.antt =====
-- The answers of `GET /v1/transcriptions/:id/export`.
use scribeflow.Prelude.{
  ℕ, ◌≡◌, ◌≢◌, ◌⊎◌, refl, inl, inr, Bool, true, false, some, none, arith, Option, All, Bool-cases,
  Option-cases, List,
}
use scribeflow.Floats.{Floats}
use scribeflow.Text.{Text}
use scribeflow.Subtitles.{SubtitleFormat, srt, vtt, map_from}
use scribeflow.Subtitles.Reader.{Cue, read_srt, read_vtt}
use scribeflow.Subtitles.Cues.{IsPlain, cue_of, read_srt-to_srt, read_vtt-to_vtt}
use scribeflow.Jobs.{completed, Transcript, Job}
use scribeflow.Store.{JobStore}
use scribeflow.Service.{http, internal, Result, ok, err, Outcomes, Platform, World, find_by_id}
use scribeflow.Controller.{Response, render, subtitle_file, export_job, export}

-- The status of the answer to a request.
abbrev pub answered : {A : Type 0} → Result (Response A) → ℕ
answered (ok response) = response.status
answered (err (http status message)) = status
answered (err internal) = 500

abbrev pub read_as : SubtitleFormat → Text → Option (List Cue)
read_as srt t = read_srt t
read_as vtt t = read_vtt t

module _ (F : Floats) where
  open F use {Number}

  -- The job has a transcript to export.
  abbrev pub IsExportable : Job Number → Type 0
  IsExportable job = (job.status ≡ completed) × (job.transcript ≢ none)

  answered-export_job :
      (format : SubtitleFormat) (job : Job Number)
      → ((answered (export_job F format job) ≡ 200) × IsExportable job)
        ⊎ ((answered (export_job F format job) ≡ 409)
            × ((job.status ≢ completed) ⊎ (job.transcript ≡ none)))
  answered-export_job format job = ground arith

  read_as-render :
      (format : SubtitleFormat) (transcript : Transcript Number)
      → All (IsPlain F) transcript.segments
      → read_as format (render F format transcript)
        ≡ some (map_from 0 (cue_of F) transcript.segments)
  read_as-render srt transcript h = read_srt-to_srt F transcript.segments h
  read_as-render vtt transcript h = read_vtt-to_vtt F transcript.segments h

  module _ (S : JobStore Number) (P : Platform Number) (o : Outcomes) (is_uuid : Text → Bool)
      (param : Text) (format : SubtitleFormat) (w : World S) where
    -- Which answer an export gives, for each state of the table.
    pub data IsRightAnswer : ℕ → Type 0 where
      bad_id : is_uuid param ≡ false → IsRightAnswer 400
      unreadable : is_uuid param ≡ true → o.finds ≡ false → IsRightAnswer 500
      unknown :
          is_uuid param ≡ true
          → o.finds ≡ true
          → S.find_one_by param w.rows ≡ none
          → IsRightAnswer 404
      conflict :
          (job : Job Number)
          → is_uuid param ≡ true
          → o.finds ≡ true
          → S.find_one_by param w.rows ≡ some job
          → (job.status ≢ completed) ⊎ (job.transcript ≡ none)
          → IsRightAnswer 409
      exported :
          (job : Job Number)
          → is_uuid param ≡ true
          → o.finds ≡ true
          → S.find_one_by param w.rows ≡ some job
          → IsExportable job
          → IsRightAnswer 200

    -- An export that finds its job answers 200 for a job with a transcript, and 409 otherwise.
    IsRightAnswer-found :
        (job : Job Number)
        → is_uuid param ≡ true
        → o.finds ≡ true
        → S.find_one_by param w.rows ≡ some job
        → IsRightAnswer (answered (export_job F format job))
    IsRightAnswer-found job u f e = elim (answered-export_job format job) [
      | inl (a, exportable) ↦ rw a (exported job u f e exportable)
      | inr (a, not_yet) ↦ rw a (conflict job u f e not_yet)
    ]

    abbrev result : Result (Response Text) × World S
    result = export F S P o is_uuid param format w

    pub export-found :
        (job : Job Number)
        → is_uuid param ≡ true
        → o.finds ≡ true
        → S.find_one_by param w.rows ≡ some job
        → result ≡ (export_job F format job, w)
    unfolding export find_by_id
    export-found job u f e = ground arith

    export-bad_id : is_uuid param ≡ false → (answered result.0 ≡ 400) × (result.1 ≡ w)
    unfolding export
    export-bad_id u = ground arith

    export-unreadable :
        is_uuid param ≡ true → o.finds ≡ false → (answered result.0 ≡ 500) × (result.1 ≡ w)
    unfolding export find_by_id
    export-unreadable u f = ground arith

    export-unknown :
        is_uuid param ≡ true
        → o.finds ≡ true
        → S.find_one_by param w.rows ≡ none
        → (answered result.0 ≡ 404) × (result.1 ≡ w)
    unfolding export find_by_id
    export-unknown u f e = ground arith

    -- A request for an export in a format is answered and changes nothing. The answer is 400 for an id that
    -- is no UUID, 500 if the table cannot be read, 404 if no row has the id, 409 if the row's job is
    -- not completed or has no transcript, and 200 if it is completed with a transcript.
    pub export-IsRightAnswer :
        let (r, w') = export F S P o is_uuid param format w in IsRightAnswer (answered r) × (w' ≡ w)
    export-IsRightAnswer = elim (Bool-cases (is_uuid param)) [
      | inr u ↦ let (a, same) = export-bad_id u in (rw a (bad_id u), same)
      | inl u ↦ elim (Bool-cases o.finds) [
        | inr f ↦ let (a, same) = export-unreadable u f in (rw a (unreadable u f), same)
        | inl f ↦ elim (Option-cases (S.find_one_by param w.rows)) [
          | inl e ↦ let (a, same) = export-unknown u f e in (rw a (unknown u f e), same)
          | inr (job, e) ↦ rw (export-found job u f e) (IsRightAnswer-found job u f e, refl)
        ]
      ]
    ]

    -- The file that an export of a completed job sends, in the format that is asked for, is read
    -- back as the cues of the job's transcript, in order, if their texts are one line each and their
    -- times do not lie before the start.
    pub read_as-export :
        (job : Job Number) (transcript : Transcript Number)
        → is_uuid param ≡ true
        → o.finds ≡ true
        → S.find_one_by param w.rows ≡ some job
        → job.status ≡ completed
        → job.transcript ≡ some transcript
        → All (IsPlain F) transcript.segments
        → (response : Response Text) × ((export F S P o is_uuid param format w).0 ≡ ok response)
          × (response.status ≡ 200)
          × (read_as format response.body ≡ some (map_from 0 (cue_of F) transcript.segments))
    read_as-export job transcript u f e done there plain = (
      subtitle_file F format job.id transcript,
      rw (export-found job u f e) (ground arith),
      refl,
      read_as-render format transcript plain,
    )

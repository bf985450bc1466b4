-- ===== src/Controller/Query/Exports.antt =====
-- The answers of `GET /v1/transcriptions/:id/export?format=…`, for any format.
use scribeflow.Prelude.{
  ℕ, ◌≡◌, ◌≢◌, ◌⊎◌, refl, inl, inr, Bool, Option, none, some, arith, Bool-cases,
}
use scribeflow.Floats.{Floats}
use scribeflow.Text.{Text, codes, text_eq}
use scribeflow.Text.Equality.{text_eq_iff}
use scribeflow.Subtitles.{SubtitleFormat, srt, vtt}
use scribeflow.Store.{JobStore}
use scribeflow.Service.{Outcomes, Platform, World}
use scribeflow.Controller.Export.{answered, IsRightAnswer, export-IsRightAnswer}
use scribeflow.Controller.Query.{format_of, export_query}

-- A request asks for a format by its name, and for SubRip by none.
pub data Asks : Option Text → SubtitleFormat → Type 0 where
  by_default : Asks none srt
  for_srt : Asks (some (codes "srt")) srt
  for_vtt : Asks (some (codes "vtt")) vtt

-- The value of the query is another one.
abbrev pub IsUnknownFormat : Option Text → Type 0
IsUnknownFormat none = ⊥
IsUnknownFormat (some value) = (value ≢ codes "srt") × (value ≢ codes "vtt")

format_of-cases :
    (format : Option Text)
    → ((format_of format ≡ none) × IsUnknownFormat format)
      ⊎ ((f : SubtitleFormat) × (format_of format ≡ some f) × Asks format f)
unfolding format_of
format_of-cases none = inr (srt, refl, by_default)
format_of-cases (some value) = elim (Bool-cases (text_eq value (codes "srt"))) [
  | inl e ↦
      let same = (text_eq_iff value (codes "srt")).0 e in inr (srt, rw e refl, rw same for_srt)
  | inr n ↦ elim (Bool-cases (text_eq value (codes "vtt"))) [
    | inl e ↦
        let same = (text_eq_iff value (codes "vtt")).0 e in
        inr (vtt, rw (n, e) refl, rw same for_vtt)
    | inr m ↦ inl (
      rw (n, m) refl,
      (
        λ e. ground (arith, n, (text_eq_iff value (codes "srt")).1 e),
        λ e. ground (arith, m, (text_eq_iff value (codes "vtt")).1 e),
      ),
    )
  ]
]

module _ (F : Floats) where
  open F use {Number}

  module _ (S : JobStore Number) (P : Platform Number) (o : Outcomes) (is_uuid : Text → Bool)
      (param : Text) (format : Option Text) (w : World S) where
    -- Which answer a request for an export gives, for each format and each state of the table.
    pub data IsAnswer : ℕ → Type 0 where
      bad_format : IsUnknownFormat format → IsAnswer 400
      in_format :
          {status : ℕ} (f : SubtitleFormat)
          → Asks format f
          → IsRightAnswer F S P o is_uuid param f w status
          → IsAnswer status

    -- Every request for an export is answered and changes nothing. The answer is 400 for a format
    -- that is given and neither srt nor vtt, and 400 for an id that is no UUID; otherwise 500 if the
    -- table cannot be read, 404 if no row has the id, 409 if the row's job is not completed or has no
    -- transcript, and 200 if it is completed with a transcript.
    pub export_query-IsAnswer :
        let (r, w') = export_query F S P o is_uuid param format w in
        IsAnswer (answered r) × (w' ≡ w)
    unfolding export_query
    export_query-IsAnswer = elim (format_of-cases format) [
      | inl (q, unknown) ↦ rw q (bad_format unknown, refl)
      | inr (f, q, asks) ↦
          let (right, same) = export-IsRightAnswer F S P o is_uuid param f w in
          rw q (in_format f asks right, same)
    ]

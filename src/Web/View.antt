-- ===== src/Web/View.antt =====
-- What web/app/page.tsx shows: the texts, links and parts of the page, without their layout. What a
-- job has not got is undefined in the source.
pub mod Downloads
mod Tests
use scribeflow.Prelude.{
  Bool, true, false, not, List, [], ◌∷◌, ◌++◌, map, Option, none, some, if◌then◌else◌, length,
}
use scribeflow.Floats.{Floats}
use scribeflow.Text.{Text, codes, to_decimal, to_string}
use scribeflow.Jobs.{JobStatus, queued, processing, completed, failed, Transcript, status_text}
use scribeflow.Subtitles.{TranscriptSegment}
use scribeflow.Web.Clock.{format_clock}
use scribeflow.Web.Page.{PageJob, Page, is_busy, or_text}

-- The `accept` of the file input.
abbrev pub accepted : Text
accepted = codes ".wav,.mp3,.m4a,.flac,.ogg,.webm"

-- A link with its text, and a line of the transcript with its time.
pub record Link : Type 0 where
  pub href : Text
  pub caption : Text

pub record Line : Type 0 where
  pub time : Text
  pub words : Text

-- The part of the card below its head.
pub data Detail : Type 0 where
  -- the width of the bar in percent, and the text below
  progress_bar : Text → Text → Detail
  failure : Text → Detail
  result : List Link → Text → List Line → Detail
  nothing : Detail

pub record Card : Type 0 where
  pub name : Text
  pub id : Text
  -- the text of the chip and the classes of its style
  pub chip : Text
  pub style : Text
  pub detail : Detail

-- The drop zone: whether a click on it opens the chooser of files, the files that it offers, the
-- classes of its style, and its texts.
pub record Zone : Type 0 where
  pub is_disabled : Bool
  pub opens : Bool
  pub accepts : Text
  pub style : Text
  pub prompt : Text
  pub hint : Text

pub record View : Type 0 where
  pub zone : Zone
  pub error_box : Option Text
  pub card : Option Card

abbrev pub dragging_style : Bool → Text
dragging_style true = codes "border-sky-500 bg-sky-500/10"
dragging_style false = codes "border-neutral-300 hover:border-sky-400 dark:border-neutral-700"

abbrev pub busy_style : Bool → Text
busy_style true = codes "pointer-events-none opacity-60"
busy_style false = []

-- The `styles` of `StatusChip`.
abbrev pub style_of : JobStatus → Text
style_of queued = codes "bg-amber-100 text-amber-800 dark:bg-amber-950 dark:text-amber-300"
style_of processing = codes "bg-sky-100 text-sky-800 dark:bg-sky-950 dark:text-sky-300"
style_of completed = codes "bg-green-100 text-green-800 dark:bg-green-950 dark:text-green-300"
style_of failed = codes "bg-red-100 text-red-800 dark:bg-red-950 dark:text-red-300"

-- `${text}`, and `{text}` in the markup.
abbrev pub in_template : Option Text → Text
in_template none = codes "undefined"
in_template (some text) = text

abbrev pub in_markup : Option Text → Text
in_markup none = []
in_markup (some text) = text

-- `uploadError && …`: an empty text shows nothing.
abbrev pub shown_error : Option Text → Option Text
shown_error (some (c ∷ text)) = some (c ∷ text)
shown_error _ = none

module _ (F : Floats) where
  open F use {Number, of_ℕ, times, round, truthy}

  -- `Math.round(job.progress * 100)` in a text.
  abbrev pub percent : Option Number → Text
  percent none = codes "NaN"
  percent (some progress) = to_string (round (times progress (of_ℕ 100)))

  abbrev pub language_part : Option Text → Text
  language_part (some (c ∷ language)) = codes "language: " ++ c ∷ language
  language_part _ = []

  abbrev pub duration_part : Option Number → Text
  duration_part none = []
  duration_part (some seconds) =
      if truthy seconds then codes " · " ++ format_clock F seconds else []

  abbrev pub line_of : TranscriptSegment Number → Line
  line_of segment = record { time = format_clock F segment.start; words = segment.text }

  abbrev pub export_link : Option Text → Text → Text → Link
  export_link id format caption = record {
    href = codes "/api/transcriptions/" ++ (in_template id ++ (codes "/export?format=" ++ format));
    caption = caption;
  }

  -- `job.status === 'completed' && job.transcript && …`
  abbrev pub result_of : Option (Transcript Number) → PageJob Number → Detail
  result_of none job = nothing
  result_of (some transcript) job =
      result
        (export_link job.id (codes "srt") (codes "Download SRT")
          ∷ export_link job.id (codes "vtt") (codes "Download VTT")
          ∷ [])
        (language_part job.language
          ++ (duration_part job.duration_sec
              ++ (codes " · " ++ (to_decimal (length transcript.segments) ++ codes " segments"))))
        (map line_of transcript.segments)

  -- The three conditions on the status.
  abbrev pub detail_of : Option JobStatus → PageJob Number → Detail
  detail_of (some queued) job =
      progress_bar (percent job.progress ++ codes "%") (codes "Waiting for a worker…")
  detail_of (some processing) job =
      progress_bar (percent job.progress ++ codes "%")
        (codes "Transcribing — " ++ (percent job.progress ++ codes "%"))
  detail_of (some failed) job = failure (or_text job.error (codes "Transcription failed"))
  detail_of (some completed) job = result_of job.transcript job
  detail_of none job = nothing

  abbrev pub chip_of : Option JobStatus → Text
  chip_of none = []
  chip_of (some status) = status_text status

  abbrev pub chip_style : Option JobStatus → Text
  chip_style none = codes "undefined"
  chip_style (some status) = style_of status

  unfoldable pub card_of : PageJob Number → Card
  card_of job = record {
    name = in_markup job.original_name;
    id = in_markup job.id;
    chip = chip_of job.status;
    style = chip_style job.status;
    detail = detail_of job.status job;
  }

  abbrev pub card_if : Option (PageJob Number) → Option Card
  card_if none = none
  card_if (some job) = some (card_of job)

  abbrev pub zone_of : Bool → Page Number → Zone
  zone_of busy page = record {
    is_disabled = busy;
    opens = not busy;
    accepts = accepted;
    style =
        codes
          "cursor-pointer rounded-2xl border-2 border-dashed p-10 text-center transition-colors "
        ++ (dragging_style page.dragging ++ b' ' ∷ busy_style busy);
    prompt = if page.uploading then codes "Uploading…" else codes "Drop an audio file here";
    hint = codes "or click to browse — wav, mp3, m4a, flac, ogg, webm (max 200 MB)";
  }

  unfoldable pub view : Number → Page Number → View
  unfolding card_of is_busy
  view nought page = record {
    zone = zone_of (is_busy nought page) page;
    error_box = shown_error page.upload_error;
    card = card_if page.job;
  }

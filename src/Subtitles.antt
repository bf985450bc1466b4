-- ===== src/Subtitles.antt =====
-- api/src/transcriptions/srt.util.ts, and the segment type of entities/job.entity.ts.
pub mod Timestamp
pub mod Reader
pub mod Cues
mod Tests
use scribeflow.Prelude.{ℕ, suc, ◌+◌, List, [], ◌∷◌, ◌++◌}
use scribeflow.Prelude.Int.{ℤ, rem, floor_div}
use scribeflow.Floats.{Floats}
use scribeflow.Text.{Text, codes, join, to_decimal, to_string, pad_start}

pub data SubtitleFormat : Type 0 where
  srt vtt : SubtitleFormat

pub record TranscriptSegment (Number : Type 0) : Type 0 where
  pub id : ℕ
  pub start : Number
  pub end : Number
  pub text : Text

-- `items.map((item, index) => …)`, with the index of the first item.
unfoldable pub map_from {ℓ κ} : {A : Type ℓ} {B : Type κ} → ℕ → (A → ℕ → B) → List A → List B
map_from index f [] = []
map_from index f (item ∷ items) = f item index ∷ map_from (suc index) f items

-- `String(z).padStart(width, '0')`.
unfoldable pub padded : ℤ → ℕ → Text
unfolding to_string pad_start
padded z width = pad_start (to_string z) width b'0'

-- `formatTimestamp` from the rounded number of milliseconds on.
unfoldable pub format_ms : ℤ → ℕ → Text
unfolding padded rem floor_div
format_ms total_ms separator =
    let ms = rem total_ms 1000 in
    let total_seconds = floor_div total_ms 1000 in
    let s = rem total_seconds 60 in
    let m = rem (floor_div total_seconds 60) 60 in
    let h = floor_div total_seconds 3600 in
    padded h 2 ++ b':' ∷ (padded m 2 ++ b':' ∷ (padded s 2 ++ separator ∷ padded ms 3))

module _ (F : Floats) where
  open F use {Number, of_ℕ, times, round}

  unfoldable pub format_timestamp : Number → ℕ → Text
  unfolding format_ms
  format_timestamp seconds separator = format_ms (round (times seconds (of_ℕ 1000))) separator

  -- The text of one cue.
  unfoldable pub block : ℕ → TranscriptSegment Number → ℕ → Text
  block separator segment index =
      to_decimal (index + 1)
      ++ b'\n'
        ∷ (format_timestamp segment.start separator
            ++ (codes " --> "
                ++ (format_timestamp segment.end separator
                    ++ b'\n' ∷ (segment.text ++ b'\n' ∷ []))))

  unfoldable pub to_srt : List (TranscriptSegment Number) → Text
  unfolding block map_from join format_timestamp to_decimal
  to_srt segments = join (b'\n' ∷ []) (map_from 0 (block b',') segments)

  unfoldable pub to_vtt : List (TranscriptSegment Number) → Text
  unfolding block map_from join format_timestamp to_decimal
  to_vtt segments =
      let cues = join (b'\n' ∷ []) (map_from 0 (block b'.') segments) in codes "WEBVTT\n\n" ++ cues

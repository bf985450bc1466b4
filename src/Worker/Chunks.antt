-- ===== src/Worker/Chunks.antt =====
-- The pure functions of worker/transcriber.py. `strip` is `str.strip`. The start of a chunk is a float
-- that holds a whole number, since it is a sum of the setting CHUNK_SEC.
pub mod Tiling
use scribeflow.Prelude.{
  ℕ, zero, suc, ◌+◌, List, [], ◌∷◌, ◌++◌, map, Option, none, some, if◌then◌else◌,
}
use mathlib.Core.Option
use scribeflow.Text.{Text, codes, join}
use scribeflow.Subtitles.{TranscriptSegment}
use scribeflow.Jobs.{Transcript}
use scribeflow.Worker.Seconds.{Seconds, min_of}

pub record RawSegment (Number : Type 0) : Type 0 where
  pub start : Number
  pub end : Number
  pub text : Text

pub record Chunk (Number : Type 0) : Type 0 where
  pub start : ℕ
  pub length : Number

module _ (P : Seconds) where
  open P use {Number, of_ℕ, lt, plus, minus, round_2}

  abbrev pub chunk_at : Number → ℕ → ℕ → Chunk Number
  chunk_at duration chunk_sec start = record {
    start = start;
    length = min_of P (of_ℕ chunk_sec) (minus duration (of_ℕ start));
  }

  -- The loop, from a start on; none if the fuel runs out.
  unfoldable pub plan_from : ℕ → Number → ℕ → ℕ → Option (List (Chunk Number))
  plan_from zero duration chunk_sec start = none
  plan_from (suc fuel) duration chunk_sec start =
      let rest =
        Option.map (λ chunks. chunk_at duration chunk_sec start ∷ chunks)
          (plan_from fuel duration chunk_sec (start + chunk_sec)) in
      if lt (of_ℕ start) duration then rest else some []

  unfoldable pub plan_chunks : ℕ → Number → ℕ → Option (List (Chunk Number))
  unfolding plan_from
  plan_chunks fuel duration chunk_sec = plan_from fuel duration chunk_sec 0

  abbrev pub shifted : Number → RawSegment Number → RawSegment Number
  shifted offset_sec raw = record {
    start = plus raw.start offset_sec;
    end = plus raw.end offset_sec;
    text = raw.text;
  }

  unfoldable pub offset_segments : List (RawSegment Number) → Number → List (RawSegment Number)
  offset_segments raw offset_sec = map (shifted offset_sec) raw

  -- The loop over what is merged so far.
  unfoldable pub merge_from :
      List (RawSegment Number) → List (ℕ × List (RawSegment Number)) → List (RawSegment Number)
  unfolding offset_segments
  merge_from merged [] = merged
  merge_from merged ((start, raw) ∷ results) =
      merge_from (merged ++ offset_segments raw (of_ℕ start)) results

  unfoldable pub merge_chunks : List (ℕ × List (RawSegment Number)) → List (RawSegment Number)
  unfolding merge_from
  merge_chunks results = merge_from [] results

  module _ (strip : Text → Text) where
    -- `enumerate` counts from a number on.
    unfoldable pub shape_from : ℕ → List (RawSegment Number) → List (TranscriptSegment Number)
    shape_from index [] = []
    shape_from index (raw ∷ rest) =
        record {
          id = index;
          start = round_2 raw.start;
          end = round_2 raw.end;
          text = strip raw.text;
        }
        ∷ shape_from (index + 1) rest

    unfoldable pub shape_segments : List (RawSegment Number) → List (TranscriptSegment Number)
    unfolding shape_from
    shape_segments raw = shape_from 0 raw

  unfoldable pub build_transcript :
      List (TranscriptSegment Number) → Text → Number → Transcript Number
  build_transcript segments language duration = record {
    text = join (codes " ") (map (λ s. s.text) segments);
    language = language;
    duration = round_2 duration;
    segments = segments;
  }

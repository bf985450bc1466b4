-- ===== src/Worker/Transcriber.antt =====
-- `transcribe` of worker/transcriber.py. How whisper and ffmpeg fare with each chunk is an argument, and
-- what is passed to `on_progress` is collected. The language is empty where the source has None, which
-- `or` treats alike.
pub mod Merged
use scribeflow.Prelude.{
  ℕ, ◌+◌, ◌==◌, Bool, List, [], ◌∷◌, ◌++◌, map, Option, none, some, length, if◌then◌else◌,
}
use scribeflow.Text.{Text, codes, text_eq}
use scribeflow.Jobs.{Transcript}
use scribeflow.Worker.Seconds.{Seconds, min_of}
use scribeflow.Worker.Handler.{Outcome, value, exception, died}
use scribeflow.Worker.Chunks.{
  RawSegment, Chunk, plan_chunks, offset_segments, shape_segments, build_transcript,
}
use scribeflow.Worker.Audio.{Ending, slice_wav}

-- How an iteration over whisper's segments ends, or an unlink.
pub data Finish : Type 0 where
  finishes : Finish
  throws : Text → Finish
  stops : Finish

-- One chunk: the run of ffmpeg that cuts it out, the segments that whisper yields before the iteration
-- ends, the language of the chunk, and the removal of its file.
pub record Hearing (Number : Type 0) : Type 0 where
  pub slicing : Ending
  pub segments : List (RawSegment Number)
  pub language : Text
  pub ends : Finish
  pub unlinks : Finish

-- What was passed to `on_progress`, and how the call ended.
abbrev pub Trace : Type 0 → Type 0 → Type 0
Trace Number A = List Number × Outcome A

module _ {Number : Type 0} where
  abbrev pub then_trace : {A B : Type 0} → Trace Number A → (A → Trace Number B) → Trace Number B
  then_trace (fractions, value a) f = let (later, b) = f a in (fractions ++ later, b)
  then_trace (fractions, exception e) f = (fractions, exception e)
  then_trace (fractions, died) f = (fractions, died)

  infixl 5 ◌>>=◌
  abbrev pub ◌>>=◌ : {A B : Type 0} → Trace Number A → (A → Trace Number B) → Trace Number B
  t >>= f = then_trace t f

  abbrev pub lifted : {A : Type 0} → Outcome A → Trace Number A
  lifted outcome = ([], outcome)

abbrev pub finished : {A : Type 0} → Finish → A → Outcome A
finished finishes a = value a
finished (throws e) a = exception e
finished stops a = died

abbrev pub or_text : Text → Text → Text
or_text [] other = other
or_text (c ∷ text) other = c ∷ text

module _ (P : Seconds) where
  open P use {Number, of_ℕ, lt, plus, divide}

  -- `scaled(fraction)` of `_scaled_progress`.
  unfoldable pub scaled : ℕ → ℕ → Number → Number
  scaled index total fraction = divide (plus (of_ℕ index) fraction) (of_ℕ total)

  abbrev pub fraction_of : Number → RawSegment Number → Number
  fraction_of duration segment = min_of P (divide segment.end duration) (of_ℕ 1)

  abbrev pub fractions_of :
      Bool → (Number → Number) → Number → List (RawSegment Number) → List Number
  fractions_of timed on_progress duration segments =
      if timed then map (λ s. on_progress (fraction_of duration s)) segments else []

  -- `_transcribe_wav`
  unfoldable pub transcribe_wav :
      Number → (Number → Number) → Hearing Number → Trace Number (List (RawSegment Number) × Text)
  transcribe_wav duration on_progress hearing = (
    fractions_of (lt (of_ℕ 0) duration) on_progress duration hearing.segments,
    finished hearing.ends (hearing.segments, hearing.language),
  )

  module _ (strip : Text → Text) (wav_dir wav_path : Text) where
    -- The file of a chunk: the whole one, or one that is cut out.
    abbrev pub chunk_file : ℕ → ℕ → Hearing Number → Outcome Text
    chunk_file total index hearing =
        if total == 1 then value wav_path else slice_wav strip wav_dir index hearing.slicing

    abbrev pub clean_up : Text → Hearing Number → Outcome (Unit {0})
    clean_up path hearing = if text_eq path wav_path then value tt else finished hearing.unlinks tt

    -- One round of the loop: the shifted segments of the chunk, and its language.
    unfoldable pub transcribe_chunk :
        ℕ → ℕ → Chunk Number → Hearing Number → Trace Number (List (RawSegment Number) × Text)
    unfolding transcribe_wav offset_segments
    transcribe_chunk total index chunk hearing = do
      path ← lifted (chunk_file total index hearing)
      heard ← transcribe_wav chunk.length (scaled index total) hearing
      done ← lifted (clean_up path hearing)
      lifted (value (offset_segments P heard.0 (of_ℕ chunk.start), heard.1))

    -- The loop over the chunks from an index on, with what is merged and the language so far.
    unfoldable pub transcribe_from :
        (ℕ → Hearing Number)
        → ℕ
        → ℕ
        → List (Chunk Number)
        → List (RawSegment Number)
        → Text
        → Trace Number (List (RawSegment Number) × Text)
    transcribe_from hears total index [] merged language = lifted (value (merged, language))
    transcribe_from hears total index (chunk ∷ chunks) merged language = do
      heard ← transcribe_chunk total index chunk (hears index)
      transcribe_from hears total (index + 1) chunks (merged ++ heard.0) (or_text language heard.1)

    abbrev pub transcribe_chunks :
        (ℕ → Hearing Number)
        → Number
        → Option (List (Chunk Number))
        → Option (Trace Number (Transcript Number))
    transcribe_chunks hears duration none = none
    transcribe_chunks hears duration (some chunks) = some (do
      heard ← transcribe_from hears (length chunks) 0 chunks [] []
      lifted (
          value (
            build_transcript P (shape_segments P strip heard.0) (or_text heard.1 (codes "unknown"))
              duration)))

    abbrev pub chunks_for : ℕ → ℕ → ℕ → Number → Option (List (Chunk Number))
    chunks_for fuel chunk_threshold_sec chunk_sec duration =
        if lt (of_ℕ chunk_threshold_sec) duration
        then plan_chunks P fuel duration chunk_sec
        else some (record { start = 0; length = duration } ∷ [])

    -- None if the fuel for planning runs out.
    unfoldable pub transcribe :
        ℕ → ℕ → ℕ → (ℕ → Hearing Number) → Number → Option (Trace Number (Transcript Number))
    unfolding transcribe_from
    transcribe fuel chunk_threshold_sec chunk_sec hears duration =
        transcribe_chunks hears duration (chunks_for fuel chunk_threshold_sec chunk_sec duration)

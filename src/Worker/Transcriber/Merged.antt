-- ===== src/Worker/Transcriber/Merged.antt =====
-- What `transcribe` returns when whisper and ffmpeg do their work.
use scribeflow.Prelude.{
  ℕ, ◌+◌, ◌≤◌, ◌<◌, ◌≡◌, refl, inl, inr, ◌==◌, List, [], ◌∷◌, ◌++◌, some, length, Bool-cases,
}
use scribeflow.Prelude.Int.{pos}
use scribeflow.Text.{Text, codes, text_eq}
use scribeflow.Subtitles.{TranscriptSegment}
use scribeflow.Jobs.{Transcript}
use scribeflow.Worker.Seconds.{Seconds, exact_below}
use scribeflow.Worker.Handler.{value}
use scribeflow.Worker.Audio.{exits, slice_wav, chunk_path}
use scribeflow.Worker.Chunks.{
  RawSegment, Chunk, offset_segments, merge_from, merge_chunks, shape_from, shape_segments,
  build_transcript,
}
use scribeflow.Worker.Chunks.Tiling.{plan_chunks-Tiles}
use scribeflow.Worker.Transcriber.{
  finishes, Hearing, or_text, transcribe_wav, transcribe_chunk, transcribe_from, chunks_for,
  transcribe, chunk_file, clean_up, scaled, fractions_of,
}

-- ffmpeg cuts the chunk out, whisper goes through it, and its file is removed.
pub record Succeeds {Number : Type 0} (hearing : Hearing Number) : Type 0 where
  pub out : Text
  pub errors : Text
  pub slicing : hearing.slicing ≡ exits (pos 0) out errors
  pub ends : hearing.ends ≡ finishes
  pub unlinks : hearing.unlinks ≡ finishes

-- The segments are numbered without a gap.
abbrev pub IsNumbered : {Number : Type 0} → ℕ → List (TranscriptSegment Number) → Type 0
IsNumbered index [] = Unit {0}
IsNumbered index (segment ∷ segments) = (segment.id ≡ index) × IsNumbered (index + 1) segments

module _ {Number : Type 0} (hears : ℕ → Hearing Number) where
  -- The start of each chunk with what was heard in it.
  abbrev pub results_of : ℕ → List (Chunk Number) → List (ℕ × List (RawSegment Number))
  results_of index [] = []
  results_of index (chunk ∷ chunks) =
      (chunk.start, (hears index).segments) ∷ results_of (index + 1) chunks

  -- The language of the first chunk that has one.
  abbrev pub first_language : ℕ → List (Chunk Number) → Text
  first_language index [] = []
  first_language index (chunk ∷ chunks) =
      or_text (hears index).language (first_language (index + 1) chunks)

or_text_assoc : (a b c : Text) → or_text (or_text a b) c ≡ or_text a (or_text b c)
or_text_assoc [] b c = refl
or_text_assoc (x ∷ a) b c = refl

or_text_nil : (a : Text) → or_text a [] ≡ a
or_text_nil [] = refl
or_text_nil (x ∷ a) = refl

module _ (P : Seconds) (strip : Text → Text) where
  open P use {Number, of_ℕ, lt, ceil}

  shape_from-IsNumbered :
      (index : ℕ) (raw : List (RawSegment Number)) → IsNumbered index (shape_from P strip index raw)
  unfolding shape_from
  shape_from-IsNumbered index [] = tt
  shape_from-IsNumbered index (r ∷ raw) = (refl, shape_from-IsNumbered (index + 1) raw)

  module _ (wav_dir wav_path : Text) where
    chunk_file-value :
        (total index : ℕ) (hearing : Hearing Number)
        → Succeeds hearing
        → (path : Text) × (chunk_file P strip wav_dir wav_path total index hearing ≡ value path)
    unfolding slice_wav
    chunk_file-value total index hearing s = elim (Bool-cases (total == 1)) [
      | inl whole ↦ (wav_path, rw whole refl)
      | inr cut ↦ (chunk_path strip wav_dir index, rw (cut, s.slicing) refl)
    ]

    clean_up-value :
        (path : Text) (hearing : Hearing Number)
        → Succeeds hearing
        → clean_up P strip wav_dir wav_path path hearing ≡ value tt
    clean_up-value path hearing s = elim (Bool-cases (text_eq path wav_path)) [
      | inl whole ↦ rw whole refl
      | inr cut ↦ rw (cut, s.unlinks) refl
    ]

    transcribe_chunk-value :
        (total index : ℕ) (chunk : Chunk Number) (hearing : Hearing Number)
        → Succeeds hearing
        → (fractions : List Number) × (transcribe_chunk P strip wav_dir wav_path total index chunk
              hearing
            ≡ (
              fractions,
              value (offset_segments P hearing.segments (of_ℕ chunk.start), hearing.language),
            ))
    unfolding transcribe_chunk transcribe_wav
    transcribe_chunk-value total index chunk hearing s =
        let (path, e) = chunk_file-value total index hearing s in
        (
          fractions_of P (lt (of_ℕ 0) chunk.length) (scaled P index total) chunk.length
                hearing.segments
              ++ [],
          rw (e, s.ends, clean_up-value path hearing s) refl,
        )

    transcribe_from-merged :
        (hears : ℕ → Hearing Number)
        → ((index : ℕ) → Succeeds (hears index))
        → (total index : ℕ) (chunks : List (Chunk Number)) (merged : List (RawSegment Number))
          (language : Text)
        → (fractions : List Number) × (transcribe_from P strip wav_dir wav_path hears total index
              chunks merged language
            ≡ (
              fractions,
              value (
                merge_from P merged (results_of hears index chunks),
                or_text language (first_language hears index chunks),
              ),
            ))
    unfolding transcribe_from merge_from
    transcribe_from-merged hears s total index [] merged language =
        ([], rw (or_text_nil language) refl)
    transcribe_from-merged hears s total index (chunk ∷ chunks) merged language =
        let (fractions, e) = transcribe_chunk-value total index chunk (hears index) (s index) in
        let (later, f) =
          transcribe_from-merged hears s total (index + 1) chunks
            (merged ++ offset_segments P (hears index).segments (of_ℕ chunk.start))
            (or_text language (hears index).language) in
        (
          fractions ++ later,
          rw
              (
                e,
                f,
                or_text_assoc language (hears index).language
                    (first_language hears (index + 1) chunks),
              )
              refl,
        )

    module _ (hears : ℕ → Hearing Number) (s : (index : ℕ) → Succeeds (hears index))
        (chunk_threshold_sec chunk_sec : ℕ) (duration : Number) where
      chunks_for-some :
          (fuel : ℕ)
          → 1 ≤ chunk_sec
          → ceil duration + chunk_sec < exact_below
          → ceil duration < fuel
          → (chunks : List (Chunk Number)) × (chunks_for P strip wav_dir wav_path fuel
                chunk_threshold_sec chunk_sec duration
              ≡ some chunks)
      chunks_for-some fuel positive short enough =
          elim (Bool-cases (lt (of_ℕ chunk_threshold_sec) duration)) [
            | inr whole ↦ (record { start = 0; length = duration } ∷ [], rw whole refl)
            | inl long ↦
                let (chunks, e, tiles, low, high) =
                  plan_chunks-Tiles P duration chunk_sec positive short fuel enough in
                (chunks, rw (long, e) refl)
          ]

      -- If every call of ffmpeg and whisper succeeds, the chunks are a second long or longer and the
      -- seconds of the audio are exact, `transcribe` ends with a transcript: its segments are those
      -- that `merge_chunks` makes of what was heard in each chunk, shaped, and numbered from 0 without a
      -- gap; its language is the first one that a chunk has, or "unknown".
      pub transcribe-IsMerged :
          (fuel : ℕ)
          → 1 ≤ chunk_sec
          → ceil duration + chunk_sec < exact_below
          → ceil duration < fuel
          → (chunks : List (Chunk Number)) × (fractions : List Number) × (t : Transcript Number)
            × (chunks_for P strip wav_dir wav_path fuel chunk_threshold_sec chunk_sec duration
                ≡ some chunks)
            × (transcribe P strip wav_dir wav_path fuel chunk_threshold_sec chunk_sec hears duration
                ≡ some (fractions, value t))
            × (t.segments ≡ shape_segments P strip (merge_chunks P (results_of hears 0 chunks)))
            × IsNumbered 0 t.segments
            × (t.language ≡ or_text (first_language hears 0 chunks) (codes "unknown"))
      unfolding transcribe shape_segments merge_chunks build_transcript
      transcribe-IsMerged fuel positive short enough =
          let (chunks, e) = chunks_for-some fuel positive short enough in
          let (fractions, f) = transcribe_from-merged hears s (length chunks) 0 chunks [] [] in
          let raw = merge_from P [] (results_of hears 0 chunks) in
          (
            chunks,
            fractions ++ [],
            build_transcript P (shape_from P strip 0 raw)
                (or_text (first_language hears 0 chunks) (codes "unknown")) duration,
            e,
            rw (e, f) refl,
            refl,
            shape_from-IsNumbered 0 raw,
            refl,
          )

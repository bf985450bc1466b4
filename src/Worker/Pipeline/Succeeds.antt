-- ===== src/Worker/Pipeline/Succeeds.antt =====
-- From a file with audio to a completed job.
use scribeflow.Prelude.{ℕ, ◌+◌, ◌≤◌, ◌<◌, ◌≡◌, ◌≢◌, refl, Bool, List, some}
use scribeflow.Text.{Text}
use scribeflow.Jobs.{completed, Transcript, Job}
use scribeflow.Store.{JobStore}
use scribeflow.Worker.Seconds.{Seconds, exact_below}
use scribeflow.Worker.Chunks.{Chunk, merge_chunks, shape_segments}
use scribeflow.Worker.Audio.{Probed, Parsed, probe, normalize}
use scribeflow.Worker.Message.{Python, Message, parse}
use scribeflow.Worker.Handler.{
  value, Run, transcribes, unsettled, acked, Site, Constants, handle_message,
}
use scribeflow.Worker.Handler.Success.{succeeding, IsTranscribed, handle_message-IsTranscribed}
use scribeflow.Worker.Progress.{reported}
use scribeflow.Worker.Transcriber.{chunks_for}
use scribeflow.Worker.Transcriber.Merged.{Succeeds, IsNumbered, results_of, transcribe-IsMerged}
use scribeflow.Worker.Pipeline.{Media, ChunkSettings, run_pipeline, or_broken}

module _ (P : Seconds) (is_step : P.Number → P.Number → Bool) (strip : Text → Text)
    (loads : Text → Parsed Probed) (float : Text → Parsed P.Number) (settings : ChunkSettings)
    (tmp_dir : Text) where
  open P use {Number, ceil}

  -- The file and its normalized version pass the probe, which reads the duration of the latter, and
  -- ffmpeg and whisper go through each chunk.
  pub record IsAudio (media : Media Number) (duration : Number) : Type 0 where
    pub raw_duration : Number
    pub probed : probe strip loads float media.probing ≡ value raw_duration
    pub created : media.creating ≡ value tt
    pub wav_path : Text
    pub normalized : normalize strip tmp_dir media.normalizing ≡ value wav_path
    pub probed_normalized : probe strip loads float media.probing_normalized ≡ value duration
    pub heard : (index : ℕ) → Succeeds (media.hears index)

  -- The transcript of what was heard in the chunks of the audio.
  pub record IsTranscriptOf (media : Media Number) (wav_path : Text) (fuel : ℕ) (duration : Number)
      (t : Transcript Number) : Type 0 where
    pub chunks : List (Chunk Number)
    pub planned :
        chunks_for P strip tmp_dir wav_path fuel settings.chunk_threshold_sec settings.chunk_sec
          duration
        ≡ some chunks
    pub merged :
        t.segments ≡ shape_segments P strip (merge_chunks P (results_of media.hears 0 chunks))
    pub numbered : IsNumbered 0 t.segments

  module _ (fuel : ℕ) (media : Media Number) (duration : Number) (a : IsAudio media duration)
      (positive : 1 ≤ settings.chunk_sec) (short : ceil duration + settings.chunk_sec < exact_below)
      (enough : ceil duration < fuel) where
    run_pipeline-transcribes :
        (written : List Number) × (t : Transcript Number) × (run_pipeline P is_step strip loads
            float settings tmp_dir fuel media
          ≡ some (transcribes written t))
        × IsTranscriptOf media a.wav_path fuel duration t
    unfolding run_pipeline
    run_pipeline-transcribes =
        let (chunks, fractions, t, planned, e, merged, numbered, language) =
          transcribe-IsMerged P strip tmp_dir a.wav_path media.hears a.heard
            settings.chunk_threshold_sec settings.chunk_sec duration fuel positive short enough in
        (
          reported P is_step fractions,
          t,
          rw (a.probed, a.created, or_broken)
              (rw (a.normalized, or_broken) (rw (a.probed_normalized, or_broken) (rw e refl))),
          record { chunks = chunks; planned = planned; merged = merged; numbered = numbered },
        )

    -- A message of a job that is not completed, whose file is audio: if every call returns, the chunks
    -- are a second long or longer and the seconds of the audio are exact, the pipeline ends, the
    -- message is acknowledged and nothing else is sent, and the job is completed with a transcript
    -- whose segments are the merged ones of all chunks, numbered from 0 without a gap.
    pub run_pipeline-completes :
        (S : JobStore Number) (Q : Python) (K : Constants Number) (id path : Text)
        (message : Message Q.Foreign) (w : Site S Q.Foreign) (job : Job Number)
        → parse Q message ≡ some (id, path)
        → S.find_one_by id w.rows ≡ some job
        → job.status ≢ completed
        → w.settlement ≡ unsettled
        → (run : Run Number) × (t : Transcript Number) × (run_pipeline P is_step strip loads float
              settings tmp_dir fuel media
            ≡ some run)
          × IsTranscriptOf media a.wav_path fuel duration t
          × (let v = (handle_message S Q K (succeeding run) message w).1 in
              (v.settlement ≡ acked)
              × (v.retry_queue ≡ w.retry_queue)
              × (v.dead_queue ≡ w.dead_queue)
              × ((job' : Job Number) × (S.find_one_by id v.rows ≡ some job')
                  × IsTranscribed S Q K job t job'))
    run_pipeline-completes S Q K id path message w job e there ne u =
        let (written, t, ran, is_of) = run_pipeline-transcribes in
        (
          transcribes written t,
          t,
          ran,
          is_of,
          handle_message-IsTranscribed S Q K written t id path message w job e there ne u,
        )

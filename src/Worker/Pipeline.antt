-- ===== src/Worker/Pipeline.antt =====
-- `run_pipeline` of worker/main.py, with the reporter of progress: how a call of it ends for
-- `handle_message`, as a `Run`. The temporary directory is a path, and its removal does not
-- fail.
pub mod Succeeds
mod Tests
use scribeflow.Prelude.{ℕ, Bool, [], ◌∷◌, Option, some}
use mathlib.Core.Option
use scribeflow.Text.{Text}
use scribeflow.Jobs.{Transcript}
use scribeflow.Worker.Seconds.{Seconds}
use scribeflow.Worker.Audio.{Ending, Probed, Parsed, probe, normalize}
use scribeflow.Worker.Handler.{Outcome, value, exception, died, Run, transcribes, breaks, cut_off}
use scribeflow.Worker.Progress.{reported}
use scribeflow.Worker.Transcriber.{Hearing, Trace, transcribe}

-- How the calls of ffprobe, tempfile, ffmpeg and whisper for one file end.
pub record Media (Number : Type 0) : Type 0 where
  pub probing : Ending
  -- `tempfile.TemporaryDirectory`
  pub creating : Outcome (Unit {0})
  pub normalizing : Ending
  pub probing_normalized : Ending
  pub hears : ℕ → Hearing Number

-- The two settings of worker/settings.py, which takes negative integers too.
pub record ChunkSettings : Type 0 where
  pub chunk_threshold_sec : ℕ
  pub chunk_sec : ℕ

abbrev pub default_chunk_settings : ChunkSettings
default_chunk_settings = record { chunk_threshold_sec = 600; chunk_sec = 300 }

module _ (P : Seconds) (is_step : P.Number → P.Number → Bool) (strip : Text → Text)
    (loads : Text → Parsed Probed) (float : Text → Parsed P.Number) (settings : ChunkSettings)
    (tmp_dir : Text) where
  open P use {Number}

  -- The call as the handler sees it, with the fractions that the reporter has written.
  abbrev pub run_of : Trace Number (Transcript Number) → Run Number
  run_of (fractions, value t) = transcribes (reported P is_step fractions) t
  run_of (fractions, exception e) = breaks (reported P is_step fractions) e
  run_of (fractions, died) = cut_off (reported P is_step fractions)

  abbrev pub or_broken : {A : Type 0} → Outcome A → (A → Option (Run Number)) → Option (Run Number)
  or_broken (value a) f = f a
  or_broken (exception e) f = some (breaks [] e)
  or_broken died f = some (cut_off [])

  -- None if the fuel for planning chunks runs out.
  unfoldable pub run_pipeline : ℕ → Media Number → Option (Run Number)
  run_pipeline fuel media = or_broken (probe strip loads float media.probing) (λ _.
      or_broken media.creating (λ _.
        or_broken (normalize strip tmp_dir media.normalizing) (λ wav_path.
          or_broken (probe strip loads float media.probing_normalized) (λ duration.
            Option.map run_of (
              transcribe P strip tmp_dir wav_path fuel settings.chunk_threshold_sec
                settings.chunk_sec media.hears duration)))))

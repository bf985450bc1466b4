-- ===== src/Worker/Audio.antt =====
-- worker/audio.py. How a run of ffmpeg or ffprobe ends is an argument, and so is what `json.loads` and
-- `float` make of a text: a value, or an exception with a text. `strip` is `str.strip`.
use scribeflow.Prelude.{
  ℕ, ◌-◌, ◌==◌, Bool, false, List, ◌++◌, Option, none, some, if◌then◌else◌, length, drop, any,
}
use scribeflow.Prelude.Int.{ℤ, pos, negsuc}
use scribeflow.Text.{Text, codes, text_eq, to_decimal, pad_start}
use scribeflow.Worker.Handler.{Outcome, value, exception, died}

-- The end of `subprocess.run`: the program exits, is stopped by the timeout, or cannot be started; or
-- the worker dies.
pub data Ending : Type 0 where
  exits : ℤ → Text → Text → Ending
  times_out : Ending
  cannot_start : Text → Ending
  dies : Ending

pub record Completed : Type 0 where
  pub returncode : ℤ
  pub stdout : Text
  pub stderr : Text

-- What `probe` reads of the JSON of ffprobe: the `codec_type` of each stream, and the duration.
pub record Probed : Type 0 where
  pub codec_types : List (Option Text)
  pub duration : Option Text

pub data Parsed (A : Type 0) : Type 0 where
  reads : A → Parsed A
  fails : Text → Parsed A

abbrev pub probe_timeout_sec : ℕ
probe_timeout_sec = 60

abbrev pub normalize_timeout_sec : ℕ
normalize_timeout_sec = 600

abbrev pub stderr_tail_chars : ℕ
stderr_tail_chars = 400

-- `_run(cmd, timeout_sec)`, for a command with that name.
unfoldable pub run : Text → ℕ → Ending → Outcome Completed
run command timeout_sec (exits code out errors) =
    value (record { returncode = code; stdout = out; stderr = errors })
run command timeout_sec times_out =
    exception (command ++ (codes " timed out after " ++ (to_decimal timeout_sec ++ codes "s")))
run command timeout_sec (cannot_start text) = exception text
run command timeout_sec dies = died

abbrev pub is_zero : ℤ → Bool
is_zero (pos n) = n == 0
is_zero (negsuc n) = false

infixl 5 ◌>>=◌
abbrev pub ◌>>=◌ : {A B : Type 0} → Outcome A → (A → Outcome B) → Outcome B
value a >>= f = f a
exception e >>= f = exception e
died >>= f = died

abbrev pub parsed : {A : Type 0} → Parsed A → Outcome A
parsed (reads a) = value a
parsed (fails text) = exception text

module _ (strip : Text → Text) where
  -- `_tail(stderr)`: the last characters of the stripped text.
  unfoldable pub tail : Text → Text
  tail stderr = drop (length (strip stderr) - stderr_tail_chars) (strip stderr)

  -- `if result.returncode != 0: raise …`
  abbrev pub check_exit : Text → Completed → Outcome Completed
  check_exit label result =
      if is_zero result.returncode then value result else exception (label ++ tail result.stderr)

  abbrev pub is_audio : Option Text → Bool
  is_audio none = false
  is_audio (some codec_type) = text_eq codec_type (codes "audio")

  module _ {Number : Type 0} (loads : Text → Parsed Probed) (float : Text → Parsed Number) where
    abbrev pub duration_of : Option Text → Outcome Number
    duration_of none = exception (codes "could not determine audio duration")
    duration_of (some text) = parsed (float text)

    abbrev pub check_streams : Probed → Outcome Number
    check_streams data_read =
        if any is_audio data_read.codec_types
        then duration_of data_read.duration
        else exception (codes "file contains no audio stream")

    unfoldable pub probe : Ending → Outcome Number
    unfolding run tail
    probe ending = do
      result ← run (codes "ffprobe") probe_timeout_sec ending
      result ← check_exit (codes "ffprobe rejected the file: ") result
      data_read ← parsed (loads result.stdout)
      check_streams data_read

  -- The path of the normalized file.
  unfoldable pub normalize : Text → Ending → Outcome Text
  unfolding run tail
  normalize out_dir ending = do
    result ← run (codes "ffmpeg") normalize_timeout_sec ending
    result ← check_exit (codes "ffmpeg normalization failed: ") result
    value (out_dir ++ codes "/normalized.wav")

  abbrev pub chunk_path : Text → ℕ → Text
  chunk_path parent index =
      parent ++ (codes "/chunk-" ++ (pad_start (to_decimal index) 4 b'0' ++ codes ".wav"))

  -- The path of one chunk, written into the directory of the source.
  unfoldable pub slice_wav : Text → ℕ → Ending → Outcome Text
  unfolding run tail
  slice_wav parent index ending = do
    result ← run (codes "ffmpeg") normalize_timeout_sec ending
    result ← check_exit (codes "ffmpeg chunking failed: ") result
    value (chunk_path parent index)

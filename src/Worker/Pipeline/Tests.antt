-- ===== src/Worker/Pipeline/Tests.antt =====
-- The cases of worker/tests/test_chunking.py and test_transcriber.py, and the theorems at an audio file
-- of 650 seconds.
use scribeflow.Prelude.{
  ℕ, ◌+◌, ◌*◌, ◌/◌, ◌≤◌, ◌<◌, ◌≡◌, refl, Bool, true, List, [], ◌∷◌, ◌++◌, Option, none, some, leb,
  length, arith,
}
use scribeflow.Prelude.Int.{pos}
use scribeflow.Text.{Text, codes, text_eq, to_decimal}
use scribeflow.Jobs.{queued, Job, Transcript}
use scribeflow.Store.Memory.{memory}
use scribeflow.Service.Samples.{jobs}
use scribeflow.Worker.Seconds.Micros.{seconds}
use scribeflow.Worker.Chunks.{RawSegment, Chunk, plan_chunks, merge_chunks, shape_segments}
use scribeflow.Worker.Chunks.Tiling.{Tiles, plan_chunks-Tiles, plan_chunks-eq_none}
use scribeflow.Worker.Audio.{
  Ending, exits, times_out, Probed, Parsed, reads, fails, probe, normalize,
}
use scribeflow.Worker.Message.{Message, parse, lookup}
use scribeflow.Worker.Message.Samples.{python, encode}
use scribeflow.Worker.Handler.{
  value, Run, breaks, unsettled, acked, Site, Constants, handle_message,
}
use scribeflow.Worker.Handler.Success.{succeeding, IsTranscribed}
use scribeflow.Worker.Progress.{reported}
use scribeflow.Worker.Progress.Writes.{length-reported}
use scribeflow.Worker.Transcriber.{Hearing, finishes}
use scribeflow.Worker.Pipeline.{Media, default_chunk_settings, run_pipeline}
use scribeflow.Worker.Pipeline.Succeeds.{IsAudio, IsTranscriptOf, run_pipeline-completes}

abbrev s : ℕ → ℕ
s n = n * 1000000

planned :
    (plan_chunks seconds 1000 (s 600) 300
      ≡ some (record { start = 0; length = s 300 } ∷ record { start = 300; length = s 300 } ∷ []))
    × (plan_chunks seconds 1000 (s 650) 300
        ≡ some (
            record { start = 0; length = s 300 }
            ∷ record { start = 300; length = s 300 }
            ∷ record { start = 600; length = s 50 }
            ∷ []))
    × (plan_chunks seconds 1000 0 300 ≡ some [])
unfolding plan_chunks
planned = (refl, refl, refl)

abbrev raw : ℕ → ℕ → Text → RawSegment ℕ
raw start end text = record { start = start; end = end; text = text }

shaped :
    shape_segments seconds
      (λ t. t)
      (merge_chunks seconds (
        (0, raw 0 4249990 (codes "one") ∷ [])
        ∷ (300, raw 500000 3000000 (codes "three") ∷ [])
        ∷ []))
    ≡ record { id = 0; start = 0; end = 4250000; text = codes "one" }
      ∷ record { id = 1; start = 300500000; end = s 303; text = codes "three" }
      ∷ []
unfolding shape_segments merge_chunks
shaped = refl

plan_chunks-Tiles_example :
    (chunks : List (Chunk ℕ)) × (plan_chunks seconds 1000 (s 650) 300 ≡ some chunks)
    × Tiles seconds (s 650) 300 0 chunks
    × (650 ≤ length chunks * 300)
    × (length chunks * 300 < 950)
plan_chunks-Tiles_example =
    plan_chunks-Tiles seconds (s 650) 300 (omega arith) (omega arith) 1000 (omega arith)

plan_chunks-eq_none_example : plan_chunks seconds 1000000 (s 650) 0 ≡ none
plan_chunks-eq_none_example = plan_chunks-eq_none seconds (s 650) 1000000 (omega arith)

-- A tenth of a second, and how many tenths stand below a fraction.
abbrev is_step : ℕ → ℕ → Bool
is_step last fraction = leb (last + 100000) fraction

abbrev tenths : ℕ → ℕ
tenths a = a / 100000

is_step-tenths : (a b : ℕ) → is_step a b ≡ true → tenths a + 1 ≤ tenths b
is_step-tenths a b e = ground arith

abbrev fractions : List ℕ
fractions = 50000 ∷ 100000 ∷ 150000 ∷ 999000 ∷ 1000000 ∷ []

reported_twice : reported seconds is_step fractions ≡ 100000 ∷ 1000000 ∷ []
unfolding reported
reported_twice = refl

length-reported_example : length (reported seconds is_step fractions) ≤ 10
length-reported_example =
    length-reported seconds is_step tenths is_step-tenths 10 fractions (omega arith) (omega arith)

-- The stdout of ffprobe in the tests names a stream, and the duration is 650 seconds.
abbrev loads : Text → Parsed Probed
loads (c ∷ out) =
    reads (record { codec_types = some (c ∷ out) ∷ []; duration = some (codes "650") })
loads [] = fails (codes "Expecting value")

abbrev float : Text → Parsed ℕ
float text = reads (s 650)

abbrev ok : Text → Ending
ok out = exits (pos 0) out []

abbrev hearing : ℕ → Hearing ℕ
hearing index = record {
  slicing = ok [];
  segments = raw 0 4000000 (codes "Hi.") ∷ [];
  language = codes "en";
  ends = finishes;
  unlinks = finishes;
}

abbrev media : Ending → Media ℕ
media probing = record {
  probing = probing;
  creating = value tt;
  normalizing = ok [];
  probing_normalized = ok (codes "audio");
  hears = hearing;
}

abbrev dir : Text
dir = codes "/tmp/scribeflow-1"

abbrev ran : Ending → Option (Run ℕ)
ran probing =
    run_pipeline seconds is_step (λ t. t) loads float default_chunk_settings dir 1000
      (media probing)

refused :
    (ran (ok (codes "video")) ≡ some (breaks [] (codes "file contains no audio stream")))
    × (ran times_out ≡ some (breaks [] (codes "ffprobe timed out after 60s")))
    × (ran (exits (pos 1) [] (codes "bad"))
        ≡ some (breaks [] (codes "ffprobe rejected the file: bad")))
unfolding run_pipeline probe text_eq to_decimal
refused = (refl, refl, refl)

media-IsAudio :
    IsAudio seconds is_step
      (λ t. t)
      loads
      float
      default_chunk_settings
      dir
      (media (ok (codes "audio")))
      (s 650)
unfolding probe normalize text_eq
media-IsAudio = record {
  raw_duration = s 650;
  probed = refl;
  created = refl;
  wav_path = dir ++ codes "/normalized.wav";
  normalized = refl;
  probed_normalized = refl;
  heard = λ index. record { out = []; errors = []; slicing = refl; ends = refl; unlinks = refl };
}

abbrev constants : Constants ℕ
constants = record { zero = 0; one = s 1; now = 7 }

abbrev id : Text
id = codes "j1"

abbrev path : Text
path = codes "/data/audio/j1.mp3"

abbrev job : Job ℕ
job = record {
  id = id;
  status = queued;
  original_name = codes "a.mp3";
  file_path = path;
  content_hash = some (codes "00ff");
  language = none;
  duration_sec = none;
  progress = 0;
  attempts = 0;
  error = none;
  transcript = none;
  created_at = 5;
  updated_at = 5;
}

abbrev message : Message Text
message = record {
  body = encode (record { job_id = id; file_path = path; attempt = 0 });
  headers = [];
  expiration = none;
}

site : Site jobs Text
unfolding memory
site = record { rows = job ∷ []; retry_queue = []; dead_queue = []; settlement = unsettled }

named : parse python message ≡ some (id, path)
unfolding parse text_eq lookup
named = refl

there : jobs.find_one_by id site.rows ≡ some job
unfolding memory site text_eq
there = refl

waiting : site.settlement ≡ unsettled
unfolding site
waiting = refl

run_pipeline-completes_example :
    (run : Run ℕ) × (t : Transcript ℕ) × (ran (ok (codes "audio")) ≡ some run)
    × IsTranscriptOf seconds is_step
        (λ t. t)
        loads
        float
        default_chunk_settings
        dir
        (media (ok (codes "audio")))
        (dir ++ codes "/normalized.wav")
        1000
        (s 650)
        t
    × (let v = (handle_message jobs python constants (succeeding run) message site).1 in
        (v.settlement ≡ acked)
        × (v.retry_queue ≡ site.retry_queue)
        × (v.dead_queue ≡ site.dead_queue)
        × ((job' : Job ℕ) × (jobs.find_one_by id v.rows ≡ some job')
            × IsTranscribed jobs python constants job t job'))
unfolding media-IsAudio
run_pipeline-completes_example =
    run_pipeline-completes seconds is_step (λ t. t) loads float default_chunk_settings dir 1000
      (media (ok (codes "audio"))) (s 650) media-IsAudio (omega arith) (omega arith) (omega arith)
      jobs python constants id path message site job named there (λ e. cc) waiting

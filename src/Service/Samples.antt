-- ===== src/Service/Samples.antt =====
-- A configuration, outcomes, an upload and a world in memory, for tests.
use scribeflow.Prelude.{ℕ, true, false, [], ◌∷◌, none, some}
use scribeflow.Text.{Text, codes}
use scribeflow.Storage.{Files}
use scribeflow.Queue.Publisher.{Publisher, Confirm}
use scribeflow.Jobs.{completed, Transcript, Job}
use scribeflow.Store.{JobStore}
use scribeflow.Store.Memory.{memory}
use scribeflow.Service.{MulterFile, Outcomes, Platform, World}

-- The digest of the tests is the content itself, and progress is a number.
abbrev pub platform : Platform ℕ
platform = record {
  unicode_lower = λ s. s;
  digest = λ bytes. bytes;
  audio_dir = codes "/data/audio";
  zero = 0;
}

abbrev pub resolves : Confirm → Outcomes
resolves c = record {
  reads = true;
  finds = true;
  renames = true;
  saves = true;
  deletes = true;
  unlinks = true;
  confirm = c;
}

abbrev pub upload : MulterFile
upload = record {
  original_name = codes "Sample.MP3";
  mime_type = codes "audio/mpeg";
  path = codes "/data/audio/tmp/t.upload";
}

abbrev pub jobs : JobStore ℕ
jobs = memory ℕ

abbrev pub one_upload : Files
one_upload = (codes "/data/audio/tmp/t.upload", 7 ∷ 8 ∷ []) ∷ []

abbrev pub connected : Publisher
connected = record { connection = some 0; channel = some 0; shutting_down = false }

unfoldable pub start : World jobs
unfolding memory
start = record { rows = []; files = one_upload; taken = []; publisher = connected }

abbrev pub id : Text
id = codes "j1"

abbrev pub spoken : Transcript ℕ
spoken = record {
  text = codes "Hello.";
  language = codes "en";
  duration = 4900000;
  segments = record { id = 0; start = 0; end = 4900000; text = codes "Hello." } ∷ [];
}

abbrev pub done_job : Job ℕ
done_job = record {
  id = id;
  status = completed;
  original_name = codes "Sample.MP3";
  file_path = codes "/data/audio/j1.mp3";
  content_hash = some (7 ∷ 8 ∷ []);
  language = some (codes "en");
  duration_sec = some 4900000;
  progress = 1000000;
  attempts = 0;
  error = none;
  transcript = some spoken;
  created_at = 5;
  updated_at = 9;
}

unfoldable pub done : World jobs
unfolding memory start
done = record start { rows = done_job ∷ [] }

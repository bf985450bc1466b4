-- ===== src/System/Awaited.antt =====
-- Messages that name a job.
use scribeflow.Prelude.{◌≡◌, List, [], none, some, true}
use scribeflow.Text.{Text, text_eq}
use scribeflow.Queue.Topology.{JobMessage}
use scribeflow.Worker.Message.{Python, Message, parse, lookup}
use scribeflow.System.{Json}
use scribeflow.System.Picked.{Any}

module _ (P : Python) where
  open P use {Foreign}

  abbrev pub Names : Text → Message Foreign → Type 0
  Names id m = (path : Text) × (parse P m ≡ some (id, path))

  -- A message of the list names the job.
  abbrev pub Awaits : Text → List (Message Foreign) → Type 0
  Awaits id ms = Any (Names id) ms

  -- A message of the API names its job.
  pub parse-encode :
      (J : Json P) (m : JobMessage)
      → P.is_uuid m.job_id ≡ true
      → parse P (record { body = J.encode m; headers = []; expiration = none })
        ≡ some (m.job_id, m.file_path)
  unfolding parse lookup text_eq
  parse-encode J m u =
      rw (J.loads-encode m, J.str-text_value m.job_id, J.str-text_value m.file_path, u)

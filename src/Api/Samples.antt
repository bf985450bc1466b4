-- ===== src/Api/Samples.antt =====
-- A matcher of routes, and what the tests of the API start from.
use scribeflow.Prelude.{true, List, [], ◌∷◌, Option, none, some, if◌then◌else◌}
use scribeflow.Text.{Text, codes, text_eq}
use scribeflow.Text.Split.{split_on}
use scribeflow.Config.{EnvironmentVariables}
use scribeflow.Queue.Publisher.{acked}
use scribeflow.Store.Memory.{memory}
use scribeflow.Service.{World}
use scribeflow.Service.Samples.{resolves, jobs, connected, id}
use scribeflow.Api.{Document, Turn, Match, differs, fits}

-- Routes match part by part.
unfoldable pub parts_match : List Text → List Text → Match
unfolding text_eq
parts_match [] [] = fits []
parts_match (p ∷ ps) (s ∷ ss) =
    if text_eq p (codes ":id")
    then elim (parts_match ps ss) [ fits _ ↦ fits s | other ↦ other ]
    else if text_eq p s
    then parts_match ps ss
    else differs
parts_match _ _ = differs

unfoldable pub matches : Text → Text → Text → Text → Match
unfolding parts_match split_on
matches route pattern method path =
    if text_eq route method
    then parts_match (split_on b'/' pattern) (split_on b'/' path)
    else differs

-- Swagger's page, and nothing else of it.
unfoldable pub swagger : Text → Text → Option Document
unfolding text_eq
swagger method path =
    if text_eq path (codes "/docs")
    then some (record { status = 200; text = codes "Swagger UI" })
    else none

abbrev pub env : EnvironmentVariables
env = record {
  api_key = codes "k1";
  port = 3000;
  max_upload_mb = 1;
  database_url = codes "db";
  rabbitmq_url = codes "mq";
  audio_dir = codes "/data/audio";
}

abbrev pub turn : Turn
turn = record {
  outcomes = resolves acked;
  database = true;
  writes = true;
  upload_id = codes "u1";
  job_id = id;
  now = 5;
}

unfoldable pub empty : World jobs
unfolding memory
empty = record { rows = []; files = []; taken = []; publisher = connected }

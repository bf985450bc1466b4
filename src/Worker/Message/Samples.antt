-- ===== src/Worker/Message/Samples.antt =====
-- A value of `Python` for tests: a body is the length of the id, the id, the length of the path, the
-- path, and one number; JSON values are texts.
use scribeflow.Prelude.{
  ◌≡◌, [], ◌∷◌, ◌++◌, Option, none, some, leb, length, take, drop, take-length, drop-length,
}
use scribeflow.Text.{Text, codes}
use scribeflow.Text.Utf8.{Bytes}
use scribeflow.Queue.Topology.{JobMessage}
use scribeflow.Worker.Message.{Payload, fields, Python}

abbrev dict_of : Text → Bytes → Option (Payload Text)
dict_of id [] = none
dict_of id (n ∷ rest) = some (
    fields
      ((codes "jobId", id) ∷ (codes "filePath", take n rest) ∷ (codes "attempt", drop n rest) ∷ []))

abbrev loads : Bytes → Option (Payload Text)
loads [] = none
loads (n ∷ rest) = dict_of (take n rest) (drop n rest)

-- Any text with a unit is a UUID.
abbrev pub python : Python
python = record {
  Value = Text;
  Foreign = Text;
  loads = loads;
  str = λ t. t;
  is_uuid = λ t. leb 1 (length t);
  int_of = λ t. none;
}

abbrev pub encode : JobMessage → Bytes
encode m = length m.job_id ∷ (m.job_id ++ length m.file_path ∷ (m.file_path ++ m.attempt ∷ []))

pub loads-encode :
    (m : JobMessage)
    → python.loads (encode m)
      ≡ some (
          fields (
            (codes "jobId", m.job_id)
            ∷ (codes "filePath", m.file_path)
            ∷ (codes "attempt", m.attempt ∷ [])
            ∷ []))
loads-encode m = rw (
  take-length m.job_id (length m.file_path ∷ (m.file_path ++ m.attempt ∷ [])),
  drop-length m.job_id (length m.file_path ∷ (m.file_path ++ m.attempt ∷ [])),
  take-length m.file_path (m.attempt ∷ []),
  drop-length m.file_path (m.attempt ∷ []),
)

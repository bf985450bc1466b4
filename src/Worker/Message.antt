-- ===== src/Worker/Message.antt =====
-- A delivered message, and what worker/main.py reads of it. What Python's libraries do is the record
-- `Python`: `loads` is `json.loads`, `str` the text of a JSON value, `is_uuid` whether `uuid.UUID`
-- takes a text, and `int_of` is `int` at a header's value that is no integer. None is an exception.
pub mod Headers
pub mod Samples
use scribeflow.Prelude.{ℕ, List, [], ◌∷◌, Bool, Option, none, some, if◌then◌else◌}
use scribeflow.Prelude.Int.{ℤ, pos}
use scribeflow.Text.{Text, codes, text_eq}
use scribeflow.Text.Utf8.{Bytes}
use scribeflow.Worker.Retry.{max_retries}

-- A JSON text that is read: a dictionary, or another value, which cannot be indexed by a string.
pub data Payload (Value : Type 0) : Type 0 where
  fields : List (Text × Value) → Payload Value
  other : Payload Value

pub record Python : Type 1 where
  pub Value : Type 0
  pub Foreign : Type 0
  pub loads : Bytes → Option (Payload Value)
  pub str : Value → Text
  pub is_uuid : Text → Bool
  pub int_of : Foreign → Option ℤ

pub data HeaderValue (Foreign : Type 0) : Type 0 where
  number : ℤ → HeaderValue Foreign
  foreign : Foreign → HeaderValue Foreign

pub record Message (Foreign : Type 0) : Type 0 where
  pub body : Bytes
  pub headers : List (Text × HeaderValue Foreign)
  -- in milliseconds
  pub expiration : Option ℕ

abbrev pub retry_count_header : Text
retry_count_header = codes "x-retry-count"

unfoldable pub lookup {ℓ} : {A : Type ℓ} → Text → List (Text × A) → Option A
lookup key [] = none
lookup key ((name, value) ∷ rest) = if text_eq name key then some value else lookup key rest

-- `{**headers, key: value}`
unfoldable pub with_entry {ℓ} : {A : Type ℓ} → Text → A → List (Text × A) → List (Text × A)
with_entry key value [] = (key, value) ∷ []
with_entry key value ((name, old) ∷ rest) =
    if text_eq name key then (name, value) ∷ rest else (name, old) ∷ with_entry key value rest

module _ (P : Python) where
  open P use {Value, Foreign, loads, str, is_uuid, int_of}

  abbrev pub both_texts : Option Value → Option Value → Option (Text × Text)
  both_texts (some id) (some path) = if is_uuid (str id) then some (str id, str path) else none
  both_texts _ _ = none

  abbrev pub payload_of : Option (Payload Value) → Option (Text × Text)
  payload_of (some (fields dict)) =
      both_texts (lookup (codes "jobId") dict) (lookup (codes "filePath") dict)
  payload_of _ = none

  -- The first `try` of `handle_message`: the id and the path, or none for a malformed message.
  unfoldable pub parse : Message Foreign → Option (Text × Text)
  parse message = payload_of (loads message.body)

  -- `int(headers.get(RETRY_COUNT_HEADER, 0))`, and the count for a corrupted header.
  abbrev pub count_of : Option (HeaderValue Foreign) → ℤ
  count_of none = pos 0
  count_of (some (number n)) = n
  count_of (some (foreign x)) = elim (int_of x) [ none ↦ pos max_retries | some n ↦ n ]

  unfoldable pub retry_count : Message Foreign → ℤ
  unfolding lookup
  retry_count message = count_of (lookup retry_count_header message.headers)

-- ===== src/Subtitles/Reader.antt =====
-- A reader for the rendered subtitles, independent of the code that writes them: it splits the text
-- into lines, the timing line at its spaces, and a timestamp at its colons and its separator.
use scribeflow.Prelude.{ℕ, ◌+◌, ◌*◌, List, [], ◌∷◌, Option, none, some, if◌then◌else◌}
use scribeflow.Text.{Text, codes, text_eq}
use scribeflow.Text.Decimal.{read}
use scribeflow.Text.Split.{split_on}

pub record Cue : Type 0 where
  pub index : ℕ
  pub start_ms : ℕ
  pub end_ms : ℕ
  pub text : Text

infixl 5 ◌>>=◌
abbrev ◌>>=◌ {ℓ κ} : {A : Type ℓ} {B : Type κ} → Option A → (A → Option B) → Option B
none >>= f = none
some a >>= f = f a

seconds_of : List Text → Option (ℕ × ℕ)
seconds_of (s ∷ ms ∷ []) = some (read s, read ms)
seconds_of _ = none

fields_of : ℕ → List Text → Option ℕ
fields_of separator (h ∷ m ∷ rest ∷ []) = do
  (s, ms) ← seconds_of (split_on separator rest)
  some (((read h * 60 + read m) * 60 + s) * 1000 + ms)
fields_of separator _ = none

-- "HH:MM:SS<separator>mmm", in milliseconds.
unfoldable pub read_timestamp : ℕ → Text → Option ℕ
unfolding fields_of seconds_of
read_timestamp separator t = fields_of separator (split_on b':' t)

interval_of : ℕ → List Text → Option (ℕ × ℕ)
interval_of separator (a ∷ arrow ∷ b ∷ []) = do
  start ← read_timestamp separator a
  stop ← read_timestamp separator b
  if text_eq arrow (codes "-->") then some (start, stop) else none
interval_of separator _ = none

-- "<timestamp> --> <timestamp>".
unfoldable pub read_timing : ℕ → Text → Option (ℕ × ℕ)
unfolding interval_of
read_timing separator line = interval_of separator (split_on b' ' line)

-- Cues of four lines: the number, the timing, the text and an empty line. The text may end with an
-- empty line of its own.
unfoldable pub read_lines : ℕ → List Text → Option (List Cue)
read_lines separator [] = some []
read_lines separator (number ∷ timing ∷ text ∷ [] ∷ rest) = do
  (start, stop) ← read_timing separator timing
  cues ← read_lines separator rest
  some (record { index = read number; start_ms = start; end_ms = stop; text = text } ∷ cues)
read_lines separator ([] ∷ []) = some []
read_lines separator _ = none

unfoldable pub read_srt : Text → Option (List Cue)
unfolding read_lines
read_srt t = read_lines b',' (split_on b'\n' t)

-- The first two lines are "WEBVTT" and an empty one.
unfoldable pub read_vtt_lines : List Text → Option (List Cue)
read_vtt_lines (header ∷ [] ∷ lines) =
    if text_eq header (codes "WEBVTT") then read_lines b'.' lines else none
read_vtt_lines _ = none

unfoldable pub read_vtt : Text → Option (List Cue)
unfolding read_vtt_lines
read_vtt t = read_vtt_lines (split_on b'\n' t)

-- ===== src/System/Samples.antt =====
-- The JSON of the tests, and a system before the first request.
use scribeflow.Prelude.{ℕ, refl, [], ◌∷◌}
use scribeflow.Text.{Text}
use scribeflow.Service.Samples.{jobs, start}
use scribeflow.Worker.Message.Samples.{python, encode, loads-encode}
use scribeflow.Worker.Handler.{Constants}
use scribeflow.System.{Json, System}

abbrev pub json : Json python
json = record {
  encode = encode;
  text_value = λ t. t;
  number_value = λ n. n ∷ [];
  str-text_value = λ t. refl;
  loads-encode = loads-encode;
}

unfoldable pub initial : System jobs Text
initial = record { api = start; jobs = []; retries = []; deads = [] }

abbrev pub constants : Constants ℕ
constants = record { zero = 0; one = 1000000; now = 7 }

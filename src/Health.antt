-- ===== src/Health.antt =====
-- api/src/health/health.controller.ts. `database` says whether the query of the database resolves.
pub mod Readiness
mod Tests
use scribeflow.Prelude.{Bool, true, false, if◌then◌else◌, ◌&&◌}
use scribeflow.Text.{Text, codes, text_eq}
use scribeflow.Queue.Publisher.{Publisher, is_connected}

-- The body of an answer, or of the error 503.
pub data Health : Type 0 where
  healthy : Text → Health
  unavailable : Text → Text → Text → Health

abbrev pub up_or_down : Bool → Text
up_or_down true = codes "up"
up_or_down false = codes "down"

-- `check()`.
unfoldable pub check : Bool → Publisher → Health
unfolding text_eq is_connected
check database publisher =
    let db = up_or_down database in
    let broker = up_or_down (is_connected publisher) in
    if text_eq db (codes "up") && text_eq broker (codes "up")
    then healthy (codes "ok")
    else unavailable (codes "error") db broker

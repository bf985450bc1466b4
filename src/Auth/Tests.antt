-- ===== src/Auth/Tests.antt =====
-- The requests of api-key.guard.spec.ts, and the theorems at them.
use scribeflow.Prelude.{◌≡◌, refl, ◌≢◌, Bool, true, false, Option, none, some, arith, All}
use scribeflow.Text.{Text, codes}
use scribeflow.Text.Utf8.{utf8, IsScalarUnit}
use scribeflow.Auth.{ExecutionContext, granted, rejected, can_activate, constant_time_equals}

abbrev key : Text
key = codes "correct-key"

abbrev request : Option Bool → Option Text → ExecutionContext
request public header = record { reflected = λ _. public; header = λ _. header }

requests :
    (can_activate key (request (some false) none) ≡ rejected)
    × (can_activate key (request (some false) (some (codes "wrong-key"))) ≡ rejected)
    × (can_activate key (request (some false) (some key)) ≡ granted)
    × (can_activate key (request (some true) none) ≡ granted)
unfolding can_activate constant_time_equals utf8
requests = (refl, refl, refl, refl)

key-IsScalarUnit : All IsScalarUnit key
key-IsScalarUnit = omega arith

not_public : ◌≢◌ {A = Option Bool} (some false) (some true)
not_public = λ e. cc

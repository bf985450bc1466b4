-- ===== src/Health/Tests.antt =====
-- The probe before and after the publisher has connected.
use scribeflow.Prelude.{◌≡◌, refl, true, List, [], ◌∷◌}
use scribeflow.Text.{codes}
use scribeflow.Queue.Topology.{JobMessage}
use scribeflow.Queue.Publisher.{Event, resumes, init}
use scribeflow.Health.{unavailable, check}

abbrev connects : List Event
connects = resumes 0 true ∷ resumes 0 true ∷ []

abbrev message : JobMessage
message = record { job_id = codes "j1"; file_path = codes "/data/audio/j1.mp3"; attempt = 0 }

starting_up : check true init.publisher ≡ unavailable (codes "error") (codes "up") (codes "down")
unfolding check
starting_up = refl

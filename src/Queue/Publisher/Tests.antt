-- ===== src/Queue/Publisher/Tests.antt =====
-- Runs of the publisher, and the theorems at concrete events.
use scribeflow.Prelude.{
  ℕ, ◌+◌, ◌≤◌, ◌≡◌, refl, true, false, List, [], ◌∷◌, ◌++◌, some, none, length,
}
use scribeflow.Queue.Publisher.{
  System, dialing, reconnecting, failed, Event, resumes, connection_closes, channel_closes, run,
  init,
}
use scribeflow.Queue.Publisher.Invariant.{Inv, run-Inv}
use scribeflow.Queue.Publisher.Shutdown.{work_left, steps_taken, steps_taken-le}
use scribeflow.Queue.Publisher.Storm.{refused, length-tasks_refused}

-- The first attempt fails, the second succeeds; then the channel and its connection close.
abbrev recovery : List Event
recovery =
    resumes 0 false
    ∷ resumes 0 true
    ∷ resumes 0 true
    ∷ resumes 0 true
    ∷ channel_closes 0
    ∷ connection_closes 0
    ∷ []

recovers : (run recovery init).tasks ≡ reconnecting dialing ∷ []
unfolding run
recovers = refl

-- Thirty attempts that fail end the start.
abbrev fail_once : List Event
fail_once = resumes 0 false ∷ resumes 0 true ∷ []

abbrev times_over : List Event → ℕ → List Event
times_over es ℕ.zero = []
times_over es (ℕ.suc n) = es ++ times_over es n

gives_up : (run (times_over fail_once 30) init).startup ≡ failed
unfolding run
gives_up = refl

run-Inv_example : Inv (run recovery init)
run-Inv_example = run-Inv recovery

abbrev stopping : System
stopping = record init {
  publisher = record { connection = none; channel = none; shutting_down = true };
}

steps_taken-le_example :
    steps_taken (resumes 0 true ∷ resumes 0 true ∷ []) stopping
      + work_left (run (resumes 0 true ∷ resumes 0 true ∷ []) stopping).tasks
    ≤ work_left stopping.tasks
steps_taken-le_example = steps_taken-le (resumes 0 true ∷ resumes 0 true ∷ []) stopping refl

length-tasks_refused_example : length (run (refused 3) init).tasks ≡ 4
length-tasks_refused_example = length-tasks_refused 3

-- A loop that dialled while another one connected opens a second connection: the publisher refers
-- to one of the two only.
abbrev two_connections : List Event
two_connections =
    resumes 0 true
    ∷ resumes 0 false
    ∷ resumes 0 true
    ∷ resumes 1 true
    ∷ resumes 0 true
    ∷ resumes 0 true
    ∷ resumes 0 true
    ∷ resumes 0 true
    ∷ []

leaks :
    ((run two_connections init).live ≡ 2 ∷ 1 ∷ [])
    × ((run two_connections init).publisher.connection ≡ some 2)
unfolding run
leaks = (refl, refl)

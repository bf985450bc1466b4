-- ===== src/Queue/Publisher/Storm.antt =====
-- What happens when a connection opens and its channel or topology is refused, as when a queue
-- exists with other arguments: the connection is closed, and its close starts a loop beside the
-- task that failed, which goes on too.
use scribeflow.Prelude.{
  ℕ, zero, suc, ◌+◌, ◌≡◌, ap, ◌∙◌, true, false, List, [], ◌∷◌, ◌++◌, none, ==_refl, arith, length,
}
use scribeflow.Queue.Publisher.{
  dialing, sleeping, Task, starting, reconnecting, pending, System, Event, resumes, run, init,
}

-- The first task connects, its declaration fails, and the connection is closed.
abbrev pub refused_once : List Event
refused_once = resumes 0 true ∷ resumes 0 false ∷ resumes 0 true ∷ []

abbrev pub refused : ℕ → List Event
refused zero = []
refused (suc n) = refused_once ++ refused n

-- No connection is open, and `n` have been; the first task waits for the next one.
abbrev storm : ℕ → Task → List Task → System
storm n t ts = record {
  publisher = record { connection = none; channel = none; shutting_down = false };
  startup = pending;
  live = [];
  next = n;
  tasks = t ∷ ts;
}

run-refused_once :
    (n : ℕ) (ts : List Task)
    → run refused_once (storm n (reconnecting dialing) ts)
      ≡ storm (suc n) (reconnecting dialing) (reconnecting sleeping ∷ ts)
unfolding run
run-refused_once n ts = ground (arith, ==_refl n)

storm-grows :
    (k n : ℕ) (ts : List Task)
    → length (run (refused k) (storm n (reconnecting dialing) ts)).tasks ≡ suc (length ts) + k
unfolding run
storm-grows zero n ts = omega arith
storm-grows (suc k) n ts =
    ap (λ s. length (run (refused k) s).tasks) (run-refused_once n ts)
    ∙ (storm-grows k (suc n) (reconnecting sleeping ∷ ts) ∙ omega arith)

-- Each refused declaration adds a task: after `n` connections since the start that open, are refused
-- their topology and are closed, with no sleep over in between, `n + 1` tasks are at work.
pub length-tasks_refused : (n : ℕ) → length (run (refused n) init).tasks ≡ n + 1
unfolding run
length-tasks_refused zero = omega arith
length-tasks_refused (suc n) = storm-grows n 1 (starting 1 sleeping ∷ []) ∙ omega arith

-- ===== src/Web/Page/Tests.antt =====
-- An upload on the page, step by step.
use scribeflow.Prelude.{ℕ, ◌≡◌, refl, true, false, Option, none, some}
use scribeflow.Floats.Micros.{micros}
use scribeflow.Text.{Text, codes}
use scribeflow.Jobs.{JobStatus, queued, completed}
use scribeflow.Web.Clock.{format_clock}
use scribeflow.Web.Page.{PageJob, Reply, Page, drops, answers, is_busy, react, blank}
use scribeflow.Web.Page.Consistency.{
  IsConsistent, Reachable, start, dropped, answered, Reachable-IsConsistent,
}

clocks :
    (format_clock micros 59999000 ≡ codes "00:59")
    × (format_clock micros 3661500000 ≡ codes "1:01:01")
unfolding format_clock
clocks = (refl, refl)

abbrev body : Option Text → Option JobStatus → PageJob ℕ
body id status = record {
  id = id;
  status = status;
  original_name = none;
  progress = none;
  duration_sec = none;
  language = none;
  error = none;
  transcript = none;
}

abbrev accepted : JobStatus → Reply ℕ
accepted status = record {
  ok = true;
  status = 202;
  body = body (some (codes "j1")) (some status);
  message = none;
}

once_uploaded : Page ℕ
unfolding react
once_uploaded = react 0 (answers 0 (accepted queued)) (react 0 (drops (codes "a.mp3")) (blank 0))

polls_then : is_busy 0 once_uploaded ≡ true
unfolding once_uploaded is_busy
polls_then = refl

once_uploaded-Reachable : Reachable 0 once_uploaded
unfolding once_uploaded is_busy
once_uploaded-Reachable = answered 0 (accepted queued) (dropped (codes "a.mp3") start refl)

Reachable-IsConsistent_example : IsConsistent 0 once_uploaded
Reachable-IsConsistent_example = Reachable-IsConsistent 0 once_uploaded once_uploaded-Reachable

-- The job of a deduplicated upload is asked for without a look at `ok`: the body of an error is
-- shown as a job without id and status, and no error appears.
abbrev gone : Reply ℕ
gone = record { ok = false; status = 404; body = body none none; message = some (codes "no job") }

error_as_job :
    let page =
      react 0
        (answers 0 gone)
        (react 0 (answers 0 (accepted completed)) (react 0 (drops (codes "a.mp3")) (blank 0))) in
    (page.job ≡ some (body none none)) × (page.upload_error ≡ none)
unfolding react
error_as_job = (refl, refl)

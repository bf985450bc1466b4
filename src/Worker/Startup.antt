-- ===== src/Worker/Startup.antt =====
-- The start and the shutdown of the worker: `Database.connect` and `close` of worker/db.py, and
-- `connect_with_retry` and `run` of worker/main.py. How each call ends is an argument, and the calls are
-- collected in their order. The signal handlers set `stop`, whose coming is the end of `waits`; an
-- interrupt before they are installed is not modelled.
pub mod Balanced
mod Tests
use scribeflow.Prelude.{ℕ, zero, suc, ◌+◌, Bool, [], ◌∷◌, ◌++◌, Option, none, some, if◌then◌else◌}
use scribeflow.Text.{Text, codes}
use scribeflow.Worker.Handler.{Outcome, value, exception, died}
use scribeflow.Worker.Transcriber.{Trace, lifted, ◌>>=◌}

pub data Server : Type 0 where
  postgres rabbitmq : Server

-- The calls: `opened` and `closes` are those that take and give back a pool or a connection.
pub data Call : Type 0 where
  tries : Server → ℕ → Call
  opened : Server → Call
  sleeps : Call
  opens_channel : Call
  sets_qos : ℕ → Call
  declares : Call
  consumes : Call
  cancels : Call
  waits_in_flight : Call
  closes : Server → Call

-- How the calls end, the attempts by their number. `finishes` says whether the job in flight ends
-- within the grace.
pub record Endings : Type 0 where
  pub create_pool : ℕ → Outcome (Unit {0})
  pub connect_robust : ℕ → Outcome (Unit {0})
  pub channel : Outcome (Unit {0})
  pub qos : Outcome (Unit {0})
  pub topology : Outcome (Unit {0})
  pub consume : Outcome (Unit {0})
  pub stop : Outcome (Unit {0})
  pub cancel : Outcome (Unit {0})
  pub finishes : Outcome Bool
  pub close_connection : Outcome (Unit {0})
  pub close_pool : Outcome (Unit {0})

-- The worker ends with the job in flight finished, or leaves it to be delivered again.
pub data Exit : Type 0 where
  clean redelivers : Exit

-- Python's text of `last_error`.
abbrev pub error_text : Option Text → Text
error_text none = codes "None"
error_text (some error) = error

abbrev pub called : {A : Type 0} → Call → Outcome A → Trace Call A
called call outcome = (call ∷ [], outcome)

abbrev pub attempt_or :
    Server → ℕ → Outcome (Unit {0}) → (Text → Trace Call (Unit {0})) → Trace Call (Unit {0})
attempt_or server attempt (value _) again = (tries server attempt ∷ opened server ∷ [], value tt)
attempt_or server attempt (exception e) again =
    let (later, outcome) = again e in (tries server attempt ∷ sleeps ∷ later, outcome)
attempt_or server attempt died again = (tries server attempt ∷ [], died)

-- The loop of both functions, with the attempts that are left, the number of the next one and the
-- last error.
unfoldable pub connect_from :
    Server → Text → (ℕ → Outcome (Unit {0})) → ℕ → ℕ → Option Text → Trace Call (Unit {0})
connect_from server label ends zero attempt last_error =
    lifted (exception (label ++ error_text last_error))
connect_from server label ends (suc left) attempt last_error =
    attempt_or server attempt (ends attempt)
      (λ e. connect_from server label ends left (attempt + 1) (some e))

-- `Database.connect`
unfoldable pub connect : ℕ → Endings → Trace Call (Unit {0})
unfolding connect_from
connect retry_max endings =
    connect_from postgres (codes "could not connect to postgres: ") endings.create_pool retry_max 1
      none

unfoldable pub connect_with_retry : ℕ → Endings → Trace Call (Unit {0})
unfolding connect_from
connect_with_retry retry_max endings =
    connect_from rabbitmq (codes "could not connect to rabbitmq: ") endings.connect_robust retry_max
      1 none

abbrev pub after_close : {A : Type 0} → Outcome A → Outcome (Unit {0}) → Outcome A
after_close outcome (value _) = outcome
after_close outcome (exception e) = exception e
after_close outcome died = died

-- `try … finally` and `async with`: the server is closed, whether the body returns or raises.
abbrev pub with_close : {A : Type 0} → Server → Outcome (Unit {0}) → Trace Call A → Trace Call A
with_close server close (calls, died) = (calls, died)
with_close server close (calls, outcome) = (calls ++ closes server ∷ [], after_close outcome close)

abbrev pub exit_of : Bool → Exit
exit_of in_time = if in_time then clean else redelivers

-- The body of `async with connection`.
unfoldable pub session : Endings → Trace Call Exit
session endings = do
  _ ← called opens_channel endings.channel
  _ ← called (sets_qos 1) endings.qos
  _ ← called declares endings.topology
  _ ← called consumes endings.consume
  _ ← lifted endings.stop
  _ ← called cancels endings.cancel
  in_time ← called waits_in_flight endings.finishes
  lifted (value (exit_of in_time))

unfoldable pub run : ℕ → Endings → Trace Call Exit
unfolding connect connect_with_retry session
run retry_max endings = do
  _ ← connect retry_max endings
  with_close postgres endings.close_pool (do
    _ ← connect_with_retry retry_max endings
    with_close rabbitmq endings.close_connection (session endings))

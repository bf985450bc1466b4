-- ===== src/Worker/Startup/Tests.antt =====
-- Runs of the worker: one to the end, one without a broker, and one whose topology fails.
use scribeflow.Prelude.{◌≡◌, refl, true, false, [], ◌∷◌, ◌==◌, if◌then◌else◌}
use scribeflow.Text.{codes}
use scribeflow.Worker.Handler.{value, exception}
use scribeflow.Worker.Startup.{
  postgres, rabbitmq, tries, opened, sleeps, opens_channel, sets_qos, declares, consumes, cancels,
  waits_in_flight, closes, Endings, clean, redelivers, run,
}
use scribeflow.Worker.Startup.Balanced.{Leads, run-Leads}

abbrev all_return : Endings
all_return = record {
  create_pool = λ k. if k == 1 then exception (codes "refused") else value tt;
  connect_robust = λ k. value tt;
  channel = value tt;
  qos = value tt;
  topology = value tt;
  consume = value tt;
  stop = value tt;
  cancel = value tt;
  finishes = value true;
  close_connection = value tt;
  close_pool = value tt;
}

abbrev no_broker : Endings
no_broker = record all_return { connect_robust = λ k. exception (codes "no route") }

abbrev no_topology : Endings
no_topology = record all_return { topology = exception (codes "PRECONDITION_FAILED") }

runs :
    (run 30 all_return ≡ (
      tries postgres 1
          ∷ sleeps
          ∷ tries postgres 2
          ∷ opened postgres
          ∷ tries rabbitmq 1
          ∷ opened rabbitmq
          ∷ opens_channel
          ∷ sets_qos 1
          ∷ declares
          ∷ consumes
          ∷ cancels
          ∷ waits_in_flight
          ∷ closes rabbitmq
          ∷ closes postgres
          ∷ [],
      value clean,
    ))
    × ((run 2 no_broker).1 ≡ exception (codes "could not connect to rabbitmq: no route"))
    × ((run 0 all_return).1 ≡ exception (codes "could not connect to postgres: None"))
    × ((run 30 (record all_return { finishes = value false })).1 ≡ value redelivers)
unfolding run
runs = (refl, refl, refl, refl)

run-Leads_example : Leads 30 [] [] [] (run 30 no_topology)
run-Leads_example = run-Leads 30 no_topology

-- ===== src/Queue/Topology.antt =====
-- api/src/queue/topology.ts, and its counterpart worker/queue_topology.py with the names of
-- worker/settings.py. A declaration is a call on the channel; the calls stand in their order.
pub mod Routes
pub mod Agreement
mod Tests
use scribeflow.Prelude.{ℕ, Bool, true, List, [], ◌∷◌, Option, none, some}
use scribeflow.Text.{Text, codes}

abbrev pub exchange : Text
exchange = codes "scribeflow"

abbrev pub dlx_exchange : Text
dlx_exchange = codes "scribeflow.dlx"

abbrev pub jobs_queue : Text
jobs_queue = codes "transcription.jobs"

abbrev pub retry_queue : Text
retry_queue = codes "transcription.retry"

abbrev pub dead_queue : Text
dead_queue = codes "transcription.dead"

abbrev pub routing_key_job : Text
routing_key_job = codes "job"

abbrev pub routing_key_retry : Text
routing_key_retry = codes "retry"

abbrev pub routing_key_dead : Text
routing_key_dead = codes "dead"

pub record JobMessage : Type 0 where
  pub job_id : Text
  pub file_path : Text
  pub attempt : ℕ

-- "x-dead-letter-exchange" and "x-dead-letter-routing-key".
pub record DeadLetter : Type 0 where
  pub to : Text
  pub key : Text

pub data Declaration : Type 0 where
  -- name, type "direct", durable
  assert_exchange : Text → Text → Bool → Declaration
  -- name, durable, arguments
  assert_queue : Text → Bool → Option DeadLetter → Declaration
  -- queue, exchange, routing key
  bind_queue : Text → Text → Text → Declaration

unfoldable pub assert_topology : List Declaration
assert_topology =
    assert_exchange exchange (codes "direct") true
    ∷ assert_exchange dlx_exchange (codes "direct") true
    ∷ assert_queue jobs_queue true (some (record { to = dlx_exchange; key = routing_key_dead }))
    ∷ bind_queue jobs_queue exchange routing_key_job
    ∷ assert_queue retry_queue true (some (record { to = exchange; key = routing_key_job }))
    ∷ bind_queue retry_queue exchange routing_key_retry
    ∷ assert_queue dead_queue true none
    ∷ bind_queue dead_queue dlx_exchange routing_key_dead
    ∷ []

-- The names in the worker's settings, which its environment can set.
pub record Settings : Type 0 where
  pub exchange : Text
  pub dlx_exchange : Text
  pub jobs_queue : Text
  pub retry_queue : Text
  pub dead_queue : Text

abbrev pub default_settings : Settings
default_settings = record {
  exchange = codes "scribeflow";
  dlx_exchange = codes "scribeflow.dlx";
  jobs_queue = codes "transcription.jobs";
  retry_queue = codes "transcription.retry";
  dead_queue = codes "transcription.dead";
}

unfoldable pub declare_topology : Settings → List Declaration
declare_topology settings =
    assert_exchange settings.exchange (codes "direct") true
    ∷ assert_exchange settings.dlx_exchange (codes "direct") true
    ∷ assert_queue settings.jobs_queue true
        (some (record { to = settings.dlx_exchange; key = codes "dead" }))
    ∷ bind_queue settings.jobs_queue settings.exchange (codes "job")
    ∷ assert_queue settings.retry_queue true
        (some (record { to = settings.exchange; key = codes "job" }))
    ∷ bind_queue settings.retry_queue settings.exchange (codes "retry")
    ∷ assert_queue settings.dead_queue true none
    ∷ bind_queue settings.dead_queue settings.dlx_exchange (codes "dead")
    ∷ []

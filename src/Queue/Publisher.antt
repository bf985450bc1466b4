-- ===== src/Queue/Publisher.antt =====
-- api/src/queue/publisher.service.ts, as a state machine of its asynchronous tasks and of the events
-- that amqplib delivers. A task stands at the `await` where it waits; an event lets one task go on
-- or calls a handler. Connections are numbered in the order in which they open, and each has one
-- confirm channel, which goes by the number of its connection.
pub mod Invariant
pub mod Shutdown
pub mod Storm
mod Tests
use scribeflow.Prelude.{
  ℕ, zero, suc, ◌+◌, Bool, true, false, not, ◌&&◌, List, [], ◌∷◌, ◌++◌, Option, none, some, ◌==◌,
  leb, if◌then◌else◌, any,
}
use scribeflow.Queue.Topology.{JobMessage}

abbrev pub startup_retry_max : ℕ
startup_retry_max = 30

-- The fields of `PublisherService` that change.
pub record Publisher : Type 0 where
  pub connection : Option ℕ
  pub channel : Option ℕ
  pub shutting_down : Bool

-- Where `connect()` and the loop around it wait.
pub data Phase : Type 0 where
  -- `await connect(this.url)`
  dialing : Phase
  -- `await connection.createConfirmChannel()` and `await assertTopology(channel)`
  declaring : ℕ → Phase
  -- `await connection.close()` in the handler of a failure
  closing : ℕ → Phase
  -- `await sleep(…)`
  sleeping : Phase

pub data Task : Type 0 where
  -- `connectWithRetry`, with its attempt
  starting : ℕ → Phase → Task
  -- `reconnectForever`
  reconnecting : Phase → Task

-- What became of `onModuleInit`.
pub data Startup : Type 0 where
  pending : Startup
  connected : ℕ → Startup
  failed : Startup

pub record System : Type 0 where
  pub publisher : Publisher
  pub startup : Startup
  -- the connections that are open, and the number of the next one
  pub live : List ℕ
  pub next : ℕ
  pub tasks : List Task

abbrev pub is_null : Option ℕ → Bool
is_null none = true
is_null (some c) = false

abbrev pub refers_to : Option ℕ → ℕ → Bool
refers_to none c = false
refers_to (some d) c = d == c

abbrev pub contains : List ℕ → ℕ → Bool
contains xs c = any (λ d. d == c) xs

abbrev pub without : ℕ → List ℕ → List ℕ
without c [] = []
without c (d ∷ ds) = if d == c then without c ds else d ∷ without c ds

unfoldable pub is_connected : Publisher → Bool
is_connected p = not (is_null p.channel)

abbrev pub spawn : Task → System → System
spawn t s = record s { tasks = t ∷ s.tasks }

-- The test of `reconnectForever`, and its call of `connect`.
unfoldable pub reconnect_forever : System → System
reconnect_forever s =
    if not s.publisher.shutting_down && is_null s.publisher.channel
    then spawn (reconnecting dialing) s
    else s

-- `connection.on('close', …)`.
unfoldable pub on_connection_close : System → System
unfolding reconnect_forever
on_connection_close s =
    let cleared = record s {
      publisher = record s.publisher { channel = none; connection = none };
    } in
    if not s.publisher.shutting_down then reconnect_forever cleared else cleared

-- Connection `c` closes. A connection that is closed already delivers no event.
unfoldable pub close_connection : ℕ → System → System
unfolding on_connection_close
close_connection c s =
    if contains s.live c then on_connection_close (record s { live = without c s.live }) else s

-- `channel.on('close', …)`; the close of the connection that it asks for comes as an event.
unfoldable pub on_channel_close : ℕ → System → System
on_channel_close c s =
    if not s.publisher.shutting_down && refers_to s.publisher.channel c
    then record s { publisher = record s.publisher { channel = none } }
    else s

-- `connect` failed: each of its callers sleeps.
abbrev pub asleep : Task → Task
asleep (starting attempt phase) = starting attempt sleeping
asleep (reconnecting phase) = reconnecting sleeping

-- `connect` returned: `connectWithRetry` returns, `reconnectForever` goes back to its test.
unfoldable pub finish : Task → System → System
unfolding reconnect_forever
finish (starting attempt phase) s = record s { startup = connected attempt }
finish (reconnecting phase) s = reconnect_forever s

-- The sleep is over.
unfoldable pub wake : Task → System → System
unfolding reconnect_forever
wake (starting attempt phase) s =
    if leb (attempt + 1) startup_retry_max
    then spawn (starting (attempt + 1) dialing) s
    else record s { startup = failed }
wake (reconnecting phase) s = reconnect_forever s

abbrev pub at : Task → Phase → Task
at (starting attempt phase) phase' = starting attempt phase'
at (reconnecting phase) phase' = reconnecting phase'

abbrev pub phase_of : Task → Phase
phase_of (starting attempt phase) = phase
phase_of (reconnecting phase) = phase

-- `connect` from one `await` to the next: what task `t`, taken out of the list, does when its wait
-- ends well (true) or with an error. A wait on a closed connection ends with an error.
unfoldable pub advance : Phase → Task → Bool → System → System
unfolding finish wake close_connection
advance dialing t true s =
    spawn (at t (declaring s.next)) (record s { live = s.next ∷ s.live; next = suc s.next })
advance dialing t false s = spawn (asleep t) s
advance (declaring c) t ok s =
    if ok && contains s.live c
    then finish t
        (record s { publisher = record s.publisher { connection = some c; channel = some c } })
    else spawn (at t (closing c)) s
advance (closing c) t ok s = close_connection c (spawn (asleep t) s)
advance sleeping t ok s = wake t s

-- The n-th task and the others.
unfoldable pub pick : ℕ → List Task → Option (Task × List Task)
pick n [] = none
pick zero (t ∷ ts) = some (t, ts)
pick (suc n) (t ∷ ts) = elim (pick n ts) [ none ↦ none | some (u, us) ↦ some (u, t ∷ us) ]

pub data Event : Type 0 where
  -- the wait of a task ends, well or with an error
  resumes : ℕ → Bool → Event
  -- the server or the network closes a connection, or a close that was asked for is done
  connection_closes : ℕ → Event
  channel_closes : ℕ → Event
  -- `onModuleDestroy`
  destroys : Event

unfoldable pub step : Event → System → System
unfolding pick advance close_connection on_channel_close
step (resumes n ok) s = elim (pick n s.tasks) [
  | none ↦ s
  | some (t, ts) ↦ advance (phase_of t) t ok (record s { tasks = ts })
]
step (connection_closes c) s = close_connection c s
step (channel_closes c) s = on_channel_close c s
step destroys s = record s { publisher = record s.publisher { shutting_down = true } }

unfoldable pub run : List Event → System → System
unfolding step
run [] s = s
run (e ∷ es) s = run es (step e s)

-- After the constructor and the call of `onModuleInit`.
abbrev pub init : System
init = record {
  publisher = record { connection = none; channel = none; shutting_down = false };
  startup = pending;
  live = [];
  next = 0;
  tasks = starting 1 dialing ∷ [];
}

-- What becomes of a published message: the broker takes it and confirms, or it does not and says
-- so, or it takes it and the channel closes before the confirmation is here.
pub data Confirm : Type 0 where
  acked nacked lost : Confirm

pub data PublishError : Type 0 where
  channel_unavailable : PublishError
  broker_error : PublishError

-- `publishJob`, with what the broker's exchange has taken: the error, if it rejects, and the same
-- afterwards.
unfoldable pub publish_job :
    Publisher → Confirm → JobMessage → List JobMessage → Option PublishError × List JobMessage
unfolding is_connected
publish_job p confirm message taken =
    if not (is_connected p) then (some channel_unavailable, taken) else elim confirm [
      | acked ↦ (none, taken ++ message ∷ [])
      | nacked ↦ (some broker_error, taken)
      | lost ↦ (some broker_error, taken ++ message ∷ [])
    ]

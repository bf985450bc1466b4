-- ===== src/Queue/Topology/Routes.antt =====
-- Where messages go under the declared topology, with what RabbitMQ documents of direct exchanges:
-- a message goes to every queue bound to the exchange with its routing key, and a message that
-- leaves a queue by rejection or expiry is published to the queue's dead-letter exchange.
use scribeflow.Prelude.{
  Bool-cases, inl, inr, refl, ◌≡◌, ◌&&◌, List, [], ◌∷◌, Option, none, some, arith, if◌then◌else◌,
}
use scribeflow.Text.{Text, text_eq}
use scribeflow.Text.Equality.{text_eq_iff}
use scribeflow.Queue.Topology.{
  Declaration, assert_queue, bind_queue, DeadLetter, assert_topology, exchange, dlx_exchange,
  jobs_queue, retry_queue, dead_queue, routing_key_job, routing_key_retry, routing_key_dead,
}

-- The queues that a message published to the exchange with the key is put into.
unfoldable pub routes : List Declaration → Text → Text → List Text
routes [] to key = []
routes (bind_queue queue from bound ∷ ds) to key =
    if text_eq from to && text_eq bound key then queue ∷ routes ds to key else routes ds to key
routes (d ∷ ds) to key = routes ds to key

-- The dead-letter arguments of a queue.
unfoldable pub dead_letter : List Declaration → Text → Option DeadLetter
dead_letter [] queue = none
dead_letter (assert_queue name durable letter ∷ ds) queue =
    if text_eq name queue then letter else dead_letter ds queue
dead_letter (d ∷ ds) queue = dead_letter ds queue

abbrev follow : List Declaration → Option DeadLetter → List Text
follow ds none = []
follow ds (some letter) = routes ds letter.to letter.key

-- The queues that a message goes to when the queue rejects it or lets it expire.
unfoldable pub dead_routes : List Declaration → Text → List Text
dead_routes ds queue = follow ds (dead_letter ds queue)

-- A message published to an exchange of the program is put into one queue or none: into the jobs
-- queue under the key "job", into the retry queue under "retry", and from the dead-letter exchange
-- into the dead queue under "dead".
publish_routes-assert_topology :
    (key : Text)
    → (routes assert_topology exchange key ≡ (
        if text_eq routing_key_job key
        then jobs_queue ∷ []
        else if text_eq routing_key_retry key
        then retry_queue ∷ []
        else []))
      × (routes assert_topology dlx_exchange key
          ≡ (if text_eq routing_key_dead key then dead_queue ∷ [] else []))
unfolding routes assert_topology text_eq
publish_routes-assert_topology key =
    ground (arith, text_eq_iff routing_key_job key, text_eq_iff routing_key_retry key)

routes_job : routes assert_topology exchange routing_key_job ≡ jobs_queue ∷ []
unfolding routes assert_topology text_eq
routes_job = refl

routes_dead : routes assert_topology dlx_exchange routing_key_dead ≡ dead_queue ∷ []
unfolding routes assert_topology text_eq
routes_dead = refl

dead_letter-assert_topology :
    (queue : Text)
    → dead_letter assert_topology queue ≡ (
        if text_eq jobs_queue queue
        then some (record { to = dlx_exchange; key = routing_key_dead })
        else if text_eq retry_queue queue
        then some (record { to = exchange; key = routing_key_job })
        else if text_eq dead_queue queue
        then none
        else none)
unfolding dead_letter assert_topology
dead_letter-assert_topology queue = refl

-- A message that the jobs queue rejects is put into the dead queue and nowhere else, one that
-- expires in the retry queue is put back into the jobs queue and nowhere else, and a message that
-- leaves any other queue goes nowhere.
dead_routes-assert_topology :
    (queue : Text)
    → dead_routes assert_topology queue ≡ (
        if text_eq jobs_queue queue
        then dead_queue ∷ []
        else if text_eq retry_queue queue
        then jobs_queue ∷ []
        else [])
unfolding dead_routes
dead_routes-assert_topology queue = elim (Bool-cases (text_eq jobs_queue queue)) [
  | inl j ↦ rw (dead_letter-assert_topology queue, j) routes_dead
  | inr j ↦ elim (Bool-cases (text_eq retry_queue queue)) [
    | inl r ↦ rw (dead_letter-assert_topology queue, j, r) routes_job
    | inr r ↦ elim (Bool-cases (text_eq dead_queue queue)) [
      | inl d ↦ rw (dead_letter-assert_topology queue, j, r, d) refl
      | inr d ↦ rw (dead_letter-assert_topology queue, j, r, d) refl
    ]
  ]
]

-- In a broker with the API's topology, a message that is published to the main exchange with the key
-- of jobs or of retries goes to that queue and nowhere else, and with another key nowhere; one that is
-- published to the dead-letter exchange goes to the dead queue if it has its key. A message that the
-- jobs queue rejects is put into the dead queue and nowhere else, one that expires in the retry queue
-- is put back into the jobs queue and nowhere else, and a message that leaves another queue goes
-- nowhere.
pub routes-assert_topology :
    (key queue : Text)
    → (routes assert_topology exchange key ≡ (
        if text_eq routing_key_job key
        then jobs_queue ∷ []
        else if text_eq routing_key_retry key
        then retry_queue ∷ []
        else []))
      × (routes assert_topology dlx_exchange key
          ≡ (if text_eq routing_key_dead key then dead_queue ∷ [] else []))
      × (dead_routes assert_topology queue ≡ (
          if text_eq jobs_queue queue
          then dead_queue ∷ []
          else if text_eq retry_queue queue
          then jobs_queue ∷ []
          else []))
routes-assert_topology key queue =
    let (main, dlx) = publish_routes-assert_topology key in
    (main, dlx, dead_routes-assert_topology queue)

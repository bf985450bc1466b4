-- ===== src/Queue/Topology/Tests.antt =====
-- The topology theorems at concrete names.
use scribeflow.Prelude.{◌≡◌, ◌↔◌, [], ◌∷◌}
use scribeflow.Text.{codes, text_eq}
use scribeflow.Queue.Topology.{
  assert_topology, declare_topology, Settings, default_settings, exchange, dlx_exchange, jobs_queue,
  retry_queue,
}
use scribeflow.Queue.Topology.Agreement.{declare_topology-eq_iff}
use scribeflow.Queue.Topology.Routes.{routes, dead_routes, routes-assert_topology}

abbrev renamed : Settings
renamed = record default_settings { dead_queue = codes "transcription.failed" }

declare_topology-eq_iff_example :
    (declare_topology renamed ≡ assert_topology) ↔ (renamed ≡ default_settings)
declare_topology-eq_iff_example = declare_topology-eq_iff renamed

routes-assert_topology_example :
    (routes assert_topology exchange (codes "retry") ≡ retry_queue ∷ [])
    × (routes assert_topology dlx_exchange (codes "retry") ≡ [])
    × (dead_routes assert_topology (codes "transcription.retry") ≡ jobs_queue ∷ [])
unfolding text_eq
routes-assert_topology_example =
    routes-assert_topology (codes "retry") (codes "transcription.retry")

-- ===== src/Queue/Topology/Agreement.antt =====
-- The API and the worker declare the same topology.
use scribeflow.Prelude.{◌≡◌, ◌↔◌, arith, refl}
use scribeflow.Queue.Topology.{assert_topology, declare_topology, Settings, default_settings}

-- The worker declares exactly what the API declares if, and only if, its settings have the default
-- names of all five exchanges and queues.
pub declare_topology-eq_iff :
    (settings : Settings)
    → (declare_topology settings ≡ assert_topology) ↔ (settings ≡ default_settings)
unfolding declare_topology assert_topology
declare_topology-eq_iff settings = (λ e. ground arith, λ e. rw e refl)

-- ===== src/Queue.antt =====
-- api/src/queue: the topology that the API and the worker declare, and the publisher.
pub mod Topology
pub mod Publisher

-- ===== src/Scheduler.antt =====
-- src/scheduler: topology, collective operations and the choice of a partitioning strategy.
pub mod Failure
pub mod Intercard
pub mod Bandwidth
pub mod Topology
pub mod Collective
pub mod Decision

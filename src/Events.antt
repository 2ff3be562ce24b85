-- ===== src/Events.antt =====
-- pkg/events: the correlation of XID errors, cluster events and telemetry into incidents, the
-- watcher of cluster events, and the pods of processes.
pub mod Correlator
pub mod Cluster
pub mod Mapper

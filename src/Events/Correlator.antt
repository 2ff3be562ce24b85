-- ===== src/Events/Correlator.antt =====
-- pkg/events/correlator.go. Texts that are only compared are native strings; those that are cut or
-- put together are lists of bytes. Times are nanoseconds. The XID watcher and the cluster watcher
-- are their ring buffers, `none` where the correlator has none; the recorder is the timelines that
-- it returns. `sort.Slice` is a parameter, since it leaves the order of equal elements open.
-- The identifier of an incident, the offsets that are shown in a timeline and logging are left out.
pub mod Types
pub mod Describe
pub mod Timeline
pub mod Causality
pub mod Pods
pub mod Gather
pub mod Sequence
pub mod Verdict
pub mod Distinct
pub mod Order
pub mod Window
pub mod Affected
pub mod Insertion
mod Tests

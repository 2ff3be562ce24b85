-- ===== src/Blackbox.antt =====
-- pkg/blackbox: the ring buffer, the GPU snapshots and the flight recorder.
pub mod Ring
pub mod Snapshot
pub mod Config
pub mod Recorder

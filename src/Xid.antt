-- ===== src/Xid.antt =====
-- pkg/xid: the codes of XID errors, the identifiers of devices, and the watcher.
pub mod Codes
pub mod Lookups
pub mod BusId
pub mod Normal
pub mod Watcher
pub mod Watched
mod Tests

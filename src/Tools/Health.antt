-- ===== src/Tools/Health.antt =====
-- pkg/tools/gpu_health.go: the get_gpu_health tool. What NVML answers is an argument: a record of
-- readings, with `none` for a call that fails. A status is a constructor for each of the source's
-- strings. Of an issue the severity and the component are kept, its message and its suggestion are
-- left out, and so are names and identifiers of devices, which nothing is computed from.
pub mod Types
pub mod Checks
pub mod Score
pub mod Overall
pub mod Bounds
pub mod Status
pub mod Monotone
pub mod Worst
pub mod Cancelled
mod Tests

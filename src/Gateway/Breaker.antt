-- ===== src/Gateway/Breaker.antt =====
-- pkg/gateway/circuit_breaker.go: the circuit breaker of the gateway, one circuit for each node.
-- The maps are functions: a key that is absent reads as Go's zero value, and `delete` writes it.
-- The calls of the metrics callback are a log, which stays empty if none is configured.
-- `now` is the clock's reading; each method holds the lock throughout, so calls are one after the
-- other. The zero time of `lastFailure` is 0.
pub mod Circuit
pub mod Invariant
pub mod Recovery
pub mod Probes
pub mod Isolation
pub mod Notices
mod Tests

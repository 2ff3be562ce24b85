-- ===== src/Gateway.antt =====
-- pkg/gateway: how the gateway reaches the agents on the nodes.
pub mod Breaker
pub mod Framing
pub mod Client
pub mod Router
pub mod Proxy

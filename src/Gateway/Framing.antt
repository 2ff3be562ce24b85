-- ===== src/Gateway/Framing.antt =====
-- pkg/gateway/framing.go: JSON-RPC messages over a line-oriented stream. Bytes are numbers.
pub mod Space
pub mod Split
pub mod Grammar
pub mod Frames
pub mod Json
pub mod Encoding
pub mod Requests
mod Tests

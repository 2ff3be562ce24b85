-- ===== src/Tools.antt =====
-- pkg/tools: the handlers of the agent's tools.
pub mod Health
pub mod Timeline
pub mod XidErrors

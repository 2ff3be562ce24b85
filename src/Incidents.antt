-- ===== src/Incidents.antt =====
-- pkg/incidents: which failure an incident is, with what confidence, and what to do about it.
-- A float64 is an abstract number (Float). Texts that are searched or put together are lists of
-- bytes, ASCII where their case matters. text/template is a parameter. Identifiers of incidents and
-- logging are left out.
pub mod Float
pub mod Patterns
pub mod Values
pub mod Context
pub mod Indicators
pub mod Match
pub mod Report
pub mod Explain
pub mod Best
pub mod Evidence
pub mod Seen
pub mod Worst
pub mod Extremes
pub mod Closest
pub mod Overview
pub mod Agree
mod Tests

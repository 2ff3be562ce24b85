-- ===== src/Events/Correlator/Types.antt =====
-- The data of pkg/events: correlator.go, types.go, and what they use of pkg/xid and pkg/blackbox.
use k8s_gpu_mcp_server.Base.{ℕ, zero, suc, Bool, true, false, List, Option, none, some, String}
pub use k8s_gpu_mcp_server.Blackbox.Snapshot.{ProcessInfo, GpuSnapshot}

-- `XIDEvent`. A code is read from decimal digits.
pub record XidEvent : Type 0 where
  pub timestamp : ℕ
  pub xid_code : ℕ
  pub pci_bus_id : String
  pub gpu_uuid : List ℕ
  pub pod_name : String
  pub namespace : String
  pub severity : String
  pub description : List ℕ

pub record K8sEvent : Type 0 where
  pub timestamp : ℕ
  pub event_type : String
  pub reason : String
  pub message : List ℕ
  pub pod_name : String
  pub pod_uid : String
  pub namespace : String
  pub node_name : String

-- `Data any`: an XID event, a cluster event, or something else.
pub data Payload : Type 0 where
  xid_data : XidEvent → Payload
  k8s_data : K8sEvent → Payload
  other_data : Payload

pub record Event : Type 0 where
  pub event_type : String
  pub timestamp : ℕ
  pub source : String
  pub payload : Payload

pub record TimelineEntry : Type 0 where
  pub timestamp : ℕ
  pub event_type : String
  pub description : List ℕ
  pub severity : String

pub record AffectedPod : Type 0 where
  pub pod_name : String
  pub namespace : String
  pub pod_uid : String
  pub reason : List ℕ

-- The causality of an incident; `undetected` is the empty string of a partial incident.
pub data Causality : Type 0 where
  undetected thermal_cascade memory_failure software_oom causality_unknown : Causality

pub record CorrelatedIncident : Type 0 where
  pub timestamp : ℕ
  pub trigger : Event
  pub related_events : List Event
  pub timeline : List TimelineEntry
  pub gpu_snapshots : List GpuSnapshot
  pub affected_pods : List AffectedPod
  pub causality : Causality

-- A context: never done, or done after so many more calls of `ctx.Err()` that find it open.
abbrev pub Context : Type 0
Context = Option ℕ

-- `ctx.Err() != nil`, and the context for the next call.
abbrev pub ask : Context → Bool × Context
ask none = (false, none)
ask (some zero) = (true, some zero)
ask (some (suc n)) = (false, some n)

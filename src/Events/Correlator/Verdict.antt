-- ===== src/Events/Correlator/Verdict.antt =====
-- The causality that pkg/events/correlator.go finds for a timeline.
use k8s_gpu_mcp_server.Base.{◌≡◌, ◌≢◌, ◌↔◌, refl, true, false, List, ◌∷◌, String, arith, any}
use k8s_gpu_mcp_server.Base.Texts.{str_eq, eq_iff}
use k8s_gpu_mcp_server.Events.Correlator.Types.{
  CorrelatedIncident, thermal_cascade, memory_failure, software_oom, causality_unknown,
}
use k8s_gpu_mcp_server.Events.Correlator.Causality.{
  has_sequence, contains, detect_causality, has_oom_event, is_oom, types_of,
}
use k8s_gpu_mcp_server.Events.Correlator.Sequence.{
  In, Before, has_sequence_iff, contains_iff, Before-In, In-contains,
}

-- What each causality says of the types in the timeline, and of out-of-memory kills.
abbrev pub Overheated : CorrelatedIncident → Type 0
Overheated incident =
    Before "temp" "throttle" (types_of incident.timeline)
    × Before "throttle" "xid" (types_of incident.timeline)

abbrev pub Corrupted : CorrelatedIncident → Type 0
Corrupted incident = (Overheated incident → ⊥) × Before "ecc" "xid" (types_of incident.timeline)

abbrev pub OutOfMemory : CorrelatedIncident → Type 0
OutOfMemory incident =
    (any is_oom (incident.trigger ∷ incident.related_events) ≡ true)
    × (In "xid" (types_of incident.timeline) → ⊥)
    × (In "ecc" (types_of incident.timeline) → ⊥)
    × (In "throttle" (types_of incident.timeline) → ⊥)

-- No pattern is there.
abbrev pub Unexplained : CorrelatedIncident → Type 0
Unexplained incident =
    (Overheated incident → ⊥)
    × (Before "ecc" "xid" (types_of incident.timeline) → ⊥)
    × (OutOfMemory incident → ⊥)

pub differ : (a b : String) → str_eq a b ≡ false → a ≢ b
differ a b d e = ground (arith, d, (eq_iff a b).1 e)

-- The tests of a timeline that hold, for two different types.
sequence-contains :
    (types : List String) (a b : String)
    → a ≢ b
    → has_sequence types a b ≡ true
    → contains types b ≡ true
sequence-contains types a b n e =
    In-contains types b (Before-In types a b ((has_sequence_iff types a b n).0 e))

module _ (incident : CorrelatedIncident) where
  abbrev types : List String
  types = types_of incident.timeline

  thermal_iff : (detect_causality incident ≡ thermal_cascade) ↔ Overheated incident
  unfolding detect_causality
  thermal_iff = ground (
    arith,
    has_sequence_iff types "temp" "throttle" (differ _ _ refl),
    has_sequence_iff types "throttle" "xid" (differ _ _ refl),
  )

  memory_iff : (detect_causality incident ≡ memory_failure) ↔ Corrupted incident
  unfolding detect_causality
  memory_iff = ground (
    arith,
    has_sequence_iff types "temp" "throttle" (differ _ _ refl),
    has_sequence_iff types "throttle" "xid" (differ _ _ refl),
    has_sequence_iff types "ecc" "xid" (differ _ _ refl),
  )

  oom_iff : (detect_causality incident ≡ software_oom) ↔ OutOfMemory incident
  unfolding detect_causality has_oom_event
  oom_iff = ground (
    arith,
    sequence-contains types "throttle" "xid" (differ _ _ refl),
    sequence-contains types "ecc" "xid" (differ _ _ refl),
    contains_iff types "xid",
    contains_iff types "ecc",
    contains_iff types "throttle",
  )

  unknown_iff : (detect_causality incident ≡ causality_unknown) ↔ Unexplained incident
  unfolding detect_causality has_oom_event
  unknown_iff = ground (
    arith,
    has_sequence_iff types "temp" "throttle" (differ _ _ refl),
    has_sequence_iff types "throttle" "xid" (differ _ _ refl),
    has_sequence_iff types "ecc" "xid" (differ _ _ refl),
    contains_iff types "xid",
    contains_iff types "ecc",
    contains_iff types "throttle",
  )

-- A thermal cascade is found exactly when in the timeline a high temperature comes before throttling
-- and throttling, the same or other, before an XID error; a memory failure, when it is none and ECC
-- errors come before an XID error; a software out-of-memory kill, when there is such a cluster event
-- and neither an XID error nor ECC errors nor throttling in the timeline; and unknown when there is
-- none of these. No event of a pod is asked for in the first two.
pub detect_causality_iff :
    (incident : CorrelatedIncident)
    → ((detect_causality incident ≡ thermal_cascade) ↔ Overheated incident)
      × ((detect_causality incident ≡ memory_failure) ↔ Corrupted incident)
      × ((detect_causality incident ≡ software_oom) ↔ OutOfMemory incident)
      × ((detect_causality incident ≡ causality_unknown) ↔ Unexplained incident)
detect_causality_iff incident =
    (thermal_iff incident, memory_iff incident, oom_iff incident, unknown_iff incident)

-- ===== src/Events/Correlator/Causality.antt =====
-- `DetectCausality` of pkg/events/correlator.go.
use k8s_gpu_mcp_server.Base.{
  Bool, true, false, not, ◌&&◌, ◌||◌, List, [], ◌∷◌, if◌then◌else◌, any, String,
}
use k8s_gpu_mcp_server.Base.Texts.{str_eq}
use k8s_gpu_mcp_server.Events.Correlator.Types.{
  Payload, xid_data, k8s_data, other_data, Event, TimelineEntry, CorrelatedIncident, Causality,
  thermal_cascade, memory_failure, software_oom, causality_unknown,
}

-- The loop of `hasSequence`: `found_a` is `foundA >= 0`.
unfoldable pub sequence_from : Bool → List String → String → String → Bool
sequence_from found_a [] a b = false
sequence_from found_a (t ∷ types) a b =
    let found = found_a || str_eq t a in
    let rest = sequence_from found types a b in if str_eq t b && found then true else rest

unfoldable pub has_sequence : List String → String → String → Bool
has_sequence types a b = sequence_from false types a b

unfoldable pub contains : List String → String → Bool
contains [] target = false
contains (t ∷ types) target = str_eq t target || contains types target

abbrev payload_oom : Payload → Bool
payload_oom (k8s_data e) = str_eq e.reason "OOMKilled"
payload_oom (xid_data e) = false
payload_oom other_data = false

-- Whether an event is a cluster event of an out-of-memory kill.
abbrev pub is_oom : Event → Bool
is_oom e = str_eq e.event_type "k8s" && payload_oom e.payload

unfoldable pub has_oom_event : CorrelatedIncident → Bool
has_oom_event incident = is_oom incident.trigger || any is_oom incident.related_events

abbrev pub types_of : List TimelineEntry → List String
types_of [] = []
types_of (e ∷ es) = e.event_type ∷ types_of es

unfoldable pub detect_causality : CorrelatedIncident → Causality
detect_causality incident =
    let types = types_of incident.timeline in
    let hardware = contains types "xid" || contains types "ecc" || contains types "throttle" in
    if has_sequence types "temp" "throttle" && has_sequence types "throttle" "xid"
    then thermal_cascade
    else if has_sequence types "ecc" "xid"
    then memory_failure
    else if has_oom_event incident && not hardware
    then software_oom
    else causality_unknown

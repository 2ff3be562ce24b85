-- ===== src/Incidents/Context.antt =====
-- What `Analyze` of pkg/incidents/analyzer.go reads of an incident: `extractContext` and the node, the
-- device and the snapshot that the report names.
use k8s_gpu_mcp_server.Base.{
  ℕ, zero, suc, ◌+◌, ◌*◌, ◌/◌, ◌%◌, max, not, List, [], ◌∷◌, ◌++◌, Option, none, some, String, ◌==◌,
  ltb, if◌then◌else◌, any, foldl,
}
use k8s_gpu_mcp_server.Base.Bytes.{is_empty}
use k8s_gpu_mcp_server.Base.Int.{ℤ, pos, ltz, neg_int, sub_time}
use k8s_gpu_mcp_server.Base.Texts.{codes, str_eq}
use k8s_gpu_mcp_server.Events.Correlator.Types.{
  XidEvent, K8sEvent, Payload, xid_data, k8s_data, Event, GpuSnapshot, CorrelatedIncident,
  Causality, undetected, thermal_cascade, memory_failure, software_oom, causality_unknown,
}
use k8s_gpu_mcp_server.Incidents.Float.{Floats}

-- The string of a causality.
abbrev pub causality_text : Causality → List ℕ
causality_text undetected = []
causality_text thermal_cascade = codes "thermal_cascade"
causality_text memory_failure = codes "memory_failure"
causality_text software_oom = codes "software_oom"
causality_text causality_unknown = codes "unknown"

pub record AnalysisContext (fl : Floats) : Type 0 where
  pub xid_codes : List ℕ
  pub temperature : ℕ
  pub ecc_uncorrectable : ℕ
  pub mem_util_percent : fl.F
  pub throttle_reasons : ℕ
  pub k8s_reasons : List (List ℕ)
  pub k8s_messages : List (List ℕ)
  pub causality : List ℕ

-- `|` on two words of the width that the fuel gives.
abbrev pub bit_or : ℕ → ℕ → ℕ → ℕ
bit_or zero m n = 0
bit_or (suc w) m n = max (m % 2) (n % 2) + 2 * bit_or w (m / 2) (n / 2)

module _ (fl : Floats) where
  unfoldable pub memory_usage_percent : GpuSnapshot → fl.F
  memory_usage_percent s =
      if s.mem_total == 0 then fl.hundredths 0 else fl.used_percent s.mem_used s.mem_total

  -- The body of the loop over the snapshots.
  unfoldable pub add_snapshot : AnalysisContext fl → GpuSnapshot → AnalysisContext fl
  unfolding memory_usage_percent
  add_snapshot ctx snap =
      let mem_pct = memory_usage_percent snap in
      record ctx {
        temperature =
            if ltb ctx.temperature snap.temperature then snap.temperature else ctx.temperature;
        ecc_uncorrectable =
            if ltb ctx.ecc_uncorrectable snap.ecc_uncorrectable
            then snap.ecc_uncorrectable
            else ctx.ecc_uncorrectable;
        throttle_reasons =
            if not (snap.throttling == 0)
            then bit_or 64 ctx.throttle_reasons snap.throttling
            else ctx.throttle_reasons;
        mem_util_percent =
            if fl.gt mem_pct ctx.mem_util_percent then mem_pct else ctx.mem_util_percent;
      }

-- An event of type "xid" or "k8s" whose data has that type.
abbrev pub xid_of : Payload → Option XidEvent
xid_of (xid_data x) = some x
xid_of _ = none

abbrev pub k8s_of : Payload → Option K8sEvent
k8s_of (k8s_data k) = some k
k8s_of _ = none

abbrev pub as_xid : Event → Option XidEvent
as_xid e = if str_eq e.event_type "xid" then xid_of e.payload else none

abbrev pub as_k8s : Event → Option K8sEvent
as_k8s e = if str_eq e.event_type "k8s" then k8s_of e.payload else none

-- The trigger, and then the related events.
abbrev pub events_of : CorrelatedIncident → List Event
events_of incident = incident.trigger ∷ incident.related_events

-- The keys of the map `seen` are the codes that were appended.
abbrev pub add_code : List ℕ → Option XidEvent → List ℕ
add_code seen none = seen
add_code seen (some x) = if any (λ c. c == x.xid_code) seen then seen else seen ++ (x.xid_code ∷ [])

unfoldable pub extract_xid_codes : CorrelatedIncident → List ℕ
extract_xid_codes incident = foldl (λ seen e. add_code seen (as_xid e)) [] (events_of incident)

module _ {fl : Floats} where
  unfoldable pub add_k8s : AnalysisContext fl → Option K8sEvent → AnalysisContext fl
  add_k8s ctx none = ctx
  add_k8s ctx (some k) = record ctx {
    k8s_reasons = ctx.k8s_reasons ++ (codes k.reason ∷ []);
    k8s_messages = ctx.k8s_messages ++ (k.message ∷ []);
  }

  unfoldable pub extract_k8s_events : CorrelatedIncident → AnalysisContext fl → AnalysisContext fl
  extract_k8s_events incident ctx = foldl (λ c e. add_k8s c (as_k8s e)) ctx (events_of incident)

unfoldable pub extract_context : (fl : Floats) → CorrelatedIncident → AnalysisContext fl
extract_context fl incident =
    let ctx : AnalysisContext fl = record {
      xid_codes = extract_xid_codes incident;
      temperature = 0;
      ecc_uncorrectable = 0;
      mem_util_percent = fl.hundredths 0;
      throttle_reasons = 0;
      k8s_reasons = [];
      k8s_messages = [];
      causality = causality_text incident.causality;
    } in
    extract_k8s_events incident (foldl (add_snapshot fl) ctx incident.gpu_snapshots)

-- The first node that is named in a list of events; "" where none is.
abbrev pub node_in : Option K8sEvent → String → String
node_in none rest = rest
node_in (some k) rest = if str_eq k.node_name "" then rest else k.node_name

abbrev pub first_node : List Event → String
first_node [] = ""
first_node (e ∷ es) = node_in (as_k8s e) (first_node es)

unfoldable pub extract_node : CorrelatedIncident → String
extract_node incident = first_node (events_of incident)

abbrev pub uuid_in : Option XidEvent → List ℕ → List ℕ
uuid_in none rest = rest
uuid_in (some x) rest = if is_empty x.gpu_uuid then rest else x.gpu_uuid

abbrev pub first_uuid : List Event → List ℕ
first_uuid [] = []
first_uuid (e ∷ es) = uuid_in (as_xid e) (first_uuid es)

abbrev pub head_uuid : List GpuSnapshot → List ℕ → List ℕ
head_uuid [] rest = rest
head_uuid (s ∷ ss) rest = if is_empty s.uuid then rest else s.uuid

unfoldable pub extract_gpu_uuid : CorrelatedIncident → List ℕ
extract_gpu_uuid incident =
    uuid_in (as_xid incident.trigger)
      (head_uuid incident.gpu_snapshots (first_uuid incident.related_events))

abbrev pub abs_duration : ℤ → ℤ
abs_duration d = if ltz d (pos 0) then neg_int d else d

-- The closest snapshot so far, and its distance.
unfoldable pub closer_snapshot : ℕ → GpuSnapshot × ℤ → GpuSnapshot → GpuSnapshot × ℤ
closer_snapshot target (closest, closest_diff) snap =
    let diff = abs_duration (sub_time snap.timestamp target) in
    if ltz diff closest_diff then (snap, diff) else (closest, closest_diff)

-- `none` is the zero snapshot.
unfoldable pub find_closest_snapshot : List GpuSnapshot → ℕ → Option GpuSnapshot
find_closest_snapshot [] target = none
find_closest_snapshot (s ∷ ss) target =
    let first = abs_duration (sub_time s.timestamp target) in
    some (foldl (closer_snapshot target) (s, first) ss).0

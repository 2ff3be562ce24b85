-- ===== src/Incidents/Explain.antt =====
-- The data of an explanation in pkg/incidents/explainer.go, and the durations and sizes of funcs.go.
-- The templates themselves are text/template.
use k8s_gpu_mcp_server.Base.{
  ℕ, ◌+◌, ◌*◌, ◌/◌, Bool, true, false, List, [], ◌∷◌, ◌++◌, Option, none, some, String, ◌==◌, leb,
  if◌then◌else◌, foldl,
}
use k8s_gpu_mcp_server.Base.Int.{ℤ, pos, negsuc, ltz, sub_time}
use k8s_gpu_mcp_server.Base.Texts.{codes, str_eq}
use k8s_gpu_mcp_server.Events.Correlator.Types.{
  CorrelatedIncident, TimelineEntry, GpuSnapshot, XidEvent, Event, Causality, undetected,
  thermal_cascade, memory_failure, software_oom, causality_unknown,
}
use k8s_gpu_mcp_server.Events.Correlator.Describe.{decimal, is_throttled}
use k8s_gpu_mcp_server.Incidents.Float.{Floats}
use k8s_gpu_mcp_server.Incidents.Context.{
  as_k8s, as_xid, events_of, abs_duration, memory_usage_percent,
}
use k8s_gpu_mcp_server.Incidents.Report.{first_pod}
use k8s_gpu_mcp_server.Xid.Codes.{ErrorInfo, lookup_code}
use k8s_gpu_mcp_server.Events.Correlator.Types.{K8sEvent}

abbrev pub second : ℕ
second = 1_000_000_000

-- "1 hour" or "5 hours".
abbrev pub counted : ℕ → String → List ℕ
counted n unit =
    if n == 1 then codes "1 " ++ codes unit else decimal n ++ codes " " ++ codes unit ++ codes "s"

-- A duration of at least 0 in nanoseconds. `d.Hours()` is a float64, whose whole part is this quotient
-- below 4096 hours.
unfoldable pub format_duration : ℕ → List ℕ
format_duration d =
    if leb (3600 * second) d
    then counted (d / (3600 * second)) "hour"
    else if leb (60 * second) d
    then counted (d / (60 * second)) "minute"
    else if leb second d
    then counted (d / second) "second"
    else decimal (d / 1_000_000) ++ codes " ms"

abbrev pub signed : List ℕ → ℕ → List ℕ
signed sign d =
    if leb (3600 * second) d
    then sign ++ decimal (d / (3600 * second)) ++ codes "h"
    else if leb (60 * second) d
    then sign ++ decimal (d / (60 * second)) ++ codes "m"
    else if leb second d
    then sign ++ decimal (d / second) ++ codes "s"
    else sign ++ decimal (d / 1_000_000) ++ codes "ms"

-- Times less than 292 years apart.
abbrev pub signed_duration : ℤ → List ℕ
signed_duration (pos d) = if d == 0 then codes "0s" else signed (codes "+") d
signed_duration (negsuc d) = signed (codes "-") (d + 1)

unfoldable pub format_relative_time : ℕ → ℕ → List ℕ
format_relative_time t base = signed_duration (sub_time t base)

-- The explainer has a search of its own for the closest snapshot: the closest so far with its
-- distance, and the whole search, whose `none` is the zero snapshot.
unfoldable pub explain_closer : ℕ → GpuSnapshot × ℤ → GpuSnapshot → GpuSnapshot × ℤ
explain_closer target (closest, closest_diff) snap =
    let diff = abs_duration (sub_time snap.timestamp target) in
    if ltz diff closest_diff then (snap, diff) else (closest, closest_diff)

unfoldable pub explained_snapshot : List GpuSnapshot → ℕ → Option GpuSnapshot
unfolding explain_closer
explained_snapshot [] target = none
explained_snapshot (s ∷ ss) target =
    some (foldl (explain_closer target) (s, abs_duration (sub_time s.timestamp target)) ss).0

-- The first and the last time at which a device was throttled; 0 is Go's zero time.
unfoldable pub add_throttle : ℕ × ℕ → GpuSnapshot → ℕ × ℕ
add_throttle (first, last) snap =
    if is_throttled snap
    then (if first == 0 then snap.timestamp else first, snap.timestamp)
    else (first, last)

unfoldable pub long_duration : ℤ → List ℕ
unfolding format_duration
long_duration (pos d) = if leb second d then format_duration d else []
long_duration (negsuc d) = []

abbrev pub throttle_span : ℕ × ℕ → List ℕ
throttle_span (first, last) = if first == 0 then [] else long_duration (sub_time last first)

unfoldable pub calculate_throttle_duration : List GpuSnapshot → List ℕ
unfolding add_throttle
calculate_throttle_duration snapshots = throttle_span (foldl add_throttle (0, 0) snapshots)

-- The human words and the flag of a causality, and the key of its template.
unfoldable pub causality_human : Causality → String × Bool
causality_human thermal_cascade = ("hardware thermal issue", true)
causality_human memory_failure = ("hardware memory failure", true)
causality_human software_oom = ("GPU memory exhaustion", false)
causality_human undetected = ("unknown failure", false)
causality_human causality_unknown = ("unknown failure", false)

unfoldable pub select_template_key : Causality → String
select_template_key thermal_cascade = "hardware_thermal"
select_template_key memory_failure = "hardware_memory"
select_template_key software_oom = "software_oom"
select_template_key undetected = "unknown"
select_template_key causality_unknown = "unknown"

pub record XidInfo : Type 0 where
  pub xid_code : ℕ
  pub xid_name : List ℕ
  pub xid_description : List ℕ
  pub xid_action : String
  pub xid_category : String

abbrev pub no_xid : XidInfo
no_xid = record {
  xid_code = 0;
  xid_name = [];
  xid_description = [];
  xid_action = "";
  xid_category = "";
}

abbrev pub with_info : XidInfo → Option ErrorInfo → XidInfo
with_info x none = x
with_info x (some info) = record x {
  xid_name = info.name;
  xid_action = info.sre_action;
  xid_category = info.category;
}

unfoldable pub populate_xid_from_event : XidEvent → XidInfo
populate_xid_from_event e =
    with_info (record no_xid { xid_code = e.xid_code; xid_description = e.description })
      (lookup_code e.xid_code)

unfoldable pub xid_info_in : Option XidEvent → XidInfo → XidInfo
unfolding populate_xid_from_event
xid_info_in none rest = rest
xid_info_in (some x) rest = populate_xid_from_event x

abbrev pub first_xid_info : List Event → XidInfo
first_xid_info [] = no_xid
first_xid_info (e ∷ es) = xid_info_in (as_xid e) (first_xid_info es)

unfoldable pub extract_xid_info : CorrelatedIncident → XidInfo
extract_xid_info incident = first_xid_info (events_of incident)

abbrev pub named_node : Option K8sEvent → String → String
named_node none rest = rest
named_node (some k) rest = if str_eq k.node_name "" then rest else k.node_name

abbrev pub first_named_node : List Event → String
first_named_node [] = "the GPU node"
first_named_node (e ∷ es) = named_node (as_k8s e) (first_named_node es)

unfoldable pub explained_node : CorrelatedIncident → String
explained_node incident = first_named_node (events_of incident)

pub record HardwareData (fl : Floats) : Type 0 where
  pub temperature : ℕ
  pub temp_threshold : ℕ
  pub mem_used : ℕ
  pub mem_total : ℕ
  pub mem_percent : fl.F
  pub ecc_correctable : ℕ
  pub ecc_uncorrectable : ℕ
  pub throttling : ℕ
  pub throttle_duration : List ℕ

pub record ExplanationData (fl : Floats) : Type 0 where
  pub timestamp : ℕ
  pub causality : Causality
  pub causality_words : String
  pub not_your_code : Bool
  pub pod_name : String
  pub namespace : String
  pub node : String
  pub hardware : HardwareData fl
  pub xid : XidInfo
  pub timeline : List TimelineEntry

module _ (fl : Floats) where
  unfoldable pub hardware_data : Option GpuSnapshot → List ℕ → HardwareData fl
  unfolding memory_usage_percent
  hardware_data none duration = record {
    temperature = 0;
    temp_threshold = 0;
    mem_used = 0;
    mem_total = 0;
    mem_percent = fl.hundredths 0;
    ecc_correctable = 0;
    ecc_uncorrectable = 0;
    throttling = 0;
    throttle_duration = [];
  }
  hardware_data (some s) duration = record {
    temperature = s.temperature;
    temp_threshold = s.temp_threshold;
    mem_used = s.mem_used;
    mem_total = s.mem_total;
    mem_percent = memory_usage_percent fl s;
    ecc_correctable = s.ecc_correctable;
    ecc_uncorrectable = s.ecc_uncorrectable;
    throttling = s.throttling;
    throttle_duration = duration;
  }

  unfoldable pub extract_data : CorrelatedIncident → ExplanationData fl
  unfolding causality_human extract_xid_info explained_node calculate_throttle_duration
      hardware_data explained_snapshot
  extract_data incident =
      let pod = first_pod incident.affected_pods in
      let (words, not_your_code) = causality_human incident.causality in
      record {
        timestamp = incident.timestamp;
        causality = incident.causality;
        causality_words = words;
        not_your_code = not_your_code;
        pod_name = pod.name;
        namespace = pod.namespace;
        node = explained_node incident;
        hardware =
            hardware_data (explained_snapshot incident.gpu_snapshots incident.timestamp)
              (calculate_throttle_duration incident.gpu_snapshots);
        xid = extract_xid_info incident;
        timeline = incident.timeline;
      }

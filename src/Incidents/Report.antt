-- ===== src/Incidents/Report.antt =====
-- `Analyze` of pkg/incidents/analyzer.go and the report of report.go. The engine of text/template is
-- a parameter.
use k8s_gpu_mcp_server.Base.{
  ℕ, Bool, false, not, List, [], ◌∷◌, Option, none, some, String, ◌==◌, ltb, if◌then◌else◌, map,
}
use k8s_gpu_mcp_server.Base.Texts.{codes, str_eq}
use k8s_gpu_mcp_server.Events.Correlator.Types.{
  CorrelatedIncident, TimelineEntry, AffectedPod, GpuSnapshot,
}
use k8s_gpu_mcp_server.Incidents.Float.{Floats}
use k8s_gpu_mcp_server.Incidents.Patterns.{FailurePattern, Recommendation, recommend}
use k8s_gpu_mcp_server.Incidents.Context.{
  extract_context, extract_node, extract_gpu_uuid, find_closest_snapshot,
}
use k8s_gpu_mcp_server.Incidents.Match.{Best, match_patterns}

pub record RootCause (fl : Floats) : Type 0 where
  pub category : String
  pub confidence : fl.F
  pub evidence : List (List ℕ)
  pub not_your_code : Bool

pub record PodInfo : Type 0 where
  pub name : String
  pub namespace : String
  pub uid : String

pub record HardwareSnapshot : Type 0 where
  pub temperature : ℕ
  pub temp_threshold : ℕ
  pub mem_used : ℕ
  pub mem_total : ℕ
  pub ecc_correctable : ℕ
  pub ecc_uncorrectable : ℕ
  pub throttling : ℕ

pub record IncidentReport (fl : Floats) : Type 0 where
  pub timestamp : ℕ
  pub pod : PodInfo
  pub node : String
  pub gpu_uuid : List ℕ
  pub root_cause : RootCause fl
  pub timeline : List TimelineEntry
  pub hardware_state : Option HardwareSnapshot
  pub recommendations : List Recommendation

-- What a command may refer to.
pub record TemplateData : Type 0 where
  pub node : String
  pub pod_name : String
  pub namespace : String
  pub gpu_uuid : List ℕ

-- text/template: `none` is an error.
pub record TemplateEngine : Type 1 where
  pub Template : Type 0
  pub parse : String → Option Template
  pub execute : Template → TemplateData → Option String

abbrev pub or_default : String → String → String
or_default s d = if str_eq s "" then d else s

abbrev pub template_data : String → PodInfo → List ℕ → TemplateData
template_data node pod uuid = record {
  node = or_default node "<node>";
  pod_name = or_default pod.name "<pod-name>";
  namespace = or_default pod.namespace "default";
  gpu_uuid = uuid;
}

-- What `Execute` writes; the command itself where parsing or executing fails.
abbrev pub or_raw : String → Option String → String
or_raw command none = command
or_raw command (some s) = s

module _ (engine : TemplateEngine) where
  abbrev pub fill : String → Option engine.Template → TemplateData → String
  fill command none data' = command
  fill command (some t) data' = or_raw command (engine.execute t data')

  unfoldable pub template_recommendation : TemplateData → Recommendation → Recommendation
  template_recommendation data' r = record r {
    command = if str_eq r.command "" then "" else fill r.command (engine.parse r.command) data';
  }

  unfoldable pub template_recommendations : TemplateData → List Recommendation → List Recommendation
  unfolding template_recommendation
  template_recommendations data' rs = map (template_recommendation data') rs

abbrev pub hardware_of : Option GpuSnapshot → Option HardwareSnapshot
hardware_of none = none
hardware_of (some s) = some (record {
  temperature = s.temperature;
  temp_threshold = s.temp_threshold;
  mem_used = s.mem_used;
  mem_total = s.mem_total;
  ecc_correctable = s.ecc_correctable;
  ecc_uncorrectable = s.ecc_uncorrectable;
  throttling = s.throttling;
})

unfoldable pub extract_hardware_state : CorrelatedIncident → Option HardwareSnapshot
extract_hardware_state incident =
    hardware_of (find_closest_snapshot incident.gpu_snapshots incident.timestamp)

abbrev pub no_pod : PodInfo
no_pod = record { name = ""; namespace = ""; uid = "" }

abbrev pub first_pod : List AffectedPod → PodInfo
first_pod [] = no_pod
first_pod (p ∷ ps) = record { name = p.pod_name; namespace = p.namespace; uid = p.pod_uid }

unfoldable pub empty_report : (fl : Floats) → ℕ → IncidentReport fl
empty_report fl now = record {
  timestamp = now;
  pod = no_pod;
  node = "";
  gpu_uuid = [];
  root_cause = record {
    category = "unknown";
    confidence = fl.hundredths 0;
    evidence = codes "No incident data provided" ∷ [];
    not_your_code = false;
  };
  timeline = [];
  hardware_state = none;
  recommendations = recommend "Collect more diagnostic data" "" "medium" ∷ [];
}

module _ (engine : TemplateEngine) (fl : Floats) where
  unfoldable pub report_of : CorrelatedIncident → Best fl → IncidentReport fl
  unfolding template_recommendations extract_hardware_state
  report_of incident (best, confidence, evidence) =
      let pod = first_pod incident.affected_pods in
      let node = extract_node incident in
      let uuid = extract_gpu_uuid incident in
      record {
        timestamp = incident.timestamp;
        pod = pod;
        node = node;
        gpu_uuid = uuid;
        root_cause = record {
          category = best.category;
          confidence = confidence;
          evidence = evidence;
          not_your_code = best.root_cause.not_your_code;
        };
        timeline = incident.timeline;
        hardware_state = extract_hardware_state incident;
        recommendations =
            template_recommendations engine (template_data node pod uuid) best.recommendations;
      }

  -- `now` is what the clock says; `none` is a nil incident.
  unfoldable pub analyze :
      List (FailurePattern fl) → ℕ → Option CorrelatedIncident → IncidentReport fl
  unfolding empty_report report_of
  analyze patterns now none = empty_report fl now
  analyze patterns now (some incident) =
      report_of incident (match_patterns fl patterns (extract_context fl incident))

module _ (fl : Floats) where
  unfoldable pub report_usage_percent : Option HardwareSnapshot → fl.F
  report_usage_percent none = fl.hundredths 0
  report_usage_percent (some h) =
      if h.mem_total == 0 then fl.hundredths 0 else fl.used_percent h.mem_used h.mem_total

unfoldable pub report_throttled : Option HardwareSnapshot → Bool
report_throttled none = false
report_throttled (some h) = not (h.throttling == 0)

unfoldable pub report_corrupted : Option HardwareSnapshot → Bool
report_corrupted none = false
report_corrupted (some h) = ltb 0 h.ecc_uncorrectable

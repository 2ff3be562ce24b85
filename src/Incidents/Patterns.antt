-- ===== src/Incidents/Patterns.antt =====
-- The patterns of pkg/incidents/patterns.go and the recommendations of report.go.
use k8s_gpu_mcp_server.Base.{ℕ, Bool, true, false, List, [], ◌∷◌, String}
use k8s_gpu_mcp_server.Base.Int.{ℤ, pos}
use k8s_gpu_mcp_server.Base.Texts.{codes}
use k8s_gpu_mcp_server.Incidents.Float.{Floats}

-- `Value any`: the types that a conversion or an assertion names, or another.
pub data Value (fl : Floats) : Type 0 where
  nil other_value : Value fl
  int_value int32_value int64_value : ℤ → Value fl
  uint_value uint32_value uint64_value : ℕ → Value fl
  float32_value float64_value : fl.F → Value fl
  text_value : List ℕ → Value fl
  ints_value : List ℤ → Value fl

pub record Indicator (fl : Floats) : Type 0 where
  pub indicator_type : String
  pub condition : String
  pub value : Value fl
  pub weight : fl.F

pub record PatternRootCause : Type 0 where
  pub category : String
  pub not_your_code : Bool

-- A command that is left out is empty.
pub record Recommendation : Type 0 where
  pub action : String
  pub command : String
  pub priority : String

pub record FailurePattern (fl : Floats) : Type 0 where
  pub name : String
  pub category : String
  pub indicators : List (Indicator fl)
  pub root_cause : PatternRootCause
  pub recommendations : List Recommendation

abbrev pub indicator : {fl : Floats} → String → String → Value fl → fl.F → Indicator fl
indicator t c v w = record { indicator_type = t; condition = c; value = v; weight = w }

abbrev pub recommend : String → String → String → Recommendation
recommend a c p = record { action = a; command = c; priority = p }

abbrev pub thermal_cascade_pattern : (fl : Floats) → FailurePattern fl
thermal_cascade_pattern fl = record {
  name = "thermal_cascade";
  category = "thermal_cascade";
  indicators =
      indicator "temp" "greater_than" (uint32_value 82) (fl.hundredths 30)
      ∷ indicator "throttle" "present" (text_value (codes "hw_thermal")) (fl.hundredths 30)
      ∷ indicator "causality" "equals" (text_value (codes "thermal_cascade")) (fl.hundredths 25)
      ∷ indicator "xid" "in" (ints_value (pos 79 ∷ pos 43 ∷ [])) (fl.hundredths 15)
      ∷ [];
  root_cause = record { category = "thermal_cascade"; not_your_code = true };
  recommendations =
      recommend "Check node cooling and airflow"
        "kubectl describe node {{.Node}} | grep -A5 'Conditions'" "high"
      ∷ recommend "Drain node for cooling investigation"
          "kubectl drain {{.Node}} --ignore-daemonsets --delete-emptydir-data" "high"
      ∷ recommend "Check GPU temperature and throttling" "nvidia-smi -q -d TEMPERATURE,PERFORMANCE"
          "medium"
      ∷ [];
}

abbrev pub ecc_failure_pattern : (fl : Floats) → FailurePattern fl
ecc_failure_pattern fl = record {
  name = "ecc_failure";
  category = "ecc_failure";
  indicators =
      indicator "ecc" "greater_than" (uint64_value 0) (fl.hundredths 40)
      ∷ indicator "xid" "in"
          (ints_value (pos 48 ∷ pos 63 ∷ pos 64 ∷ pos 68 ∷ pos 69 ∷ pos 8 ∷ pos 92 ∷ []))
          (fl.hundredths 35)
      ∷ indicator "causality" "equals" (text_value (codes "memory_failure")) (fl.hundredths 25)
      ∷ [];
  root_cause = record { category = "ecc_failure"; not_your_code = true };
  recommendations =
      recommend "DRAIN NODE IMMEDIATELY - Memory corruption detected"
        "kubectl drain {{.Node}} --ignore-daemonsets --delete-emptydir-data" "high"
      ∷ recommend "Check ECC error counts" "nvidia-smi -q -d ECC" "high"
      ∷ recommend "Schedule GPU replacement" "kubectl label node {{.Node}} gpu-health=degraded"
          "medium"
      ∷ [];
}

abbrev pub software_oom_pattern : (fl : Floats) → FailurePattern fl
software_oom_pattern fl = record {
  name = "software_oom";
  category = "software_oom";
  indicators =
      indicator "mem_util" "greater_than" (float64_value (fl.hundredths 9500)) (fl.hundredths 30)
      ∷ indicator "k8s_event" "contains" (text_value (codes "OOMKilled")) (fl.hundredths 35)
      ∷ indicator "causality" "equals" (text_value (codes "software_oom")) (fl.hundredths 25)
      ∷ indicator "xid" "not_present" (nil) (fl.hundredths 10)
      ∷ [];
  root_cause = record { category = "software_oom"; not_your_code = false };
  recommendations =
      recommend "Review pod memory limits and GPU memory usage"
        "kubectl describe pod {{.PodName}} -n {{.Namespace}}" "high"
      ∷ recommend "Check application memory allocation patterns"
          "kubectl logs {{.PodName}} -n {{.Namespace}} --previous | tail -100" "medium"
      ∷ recommend "Consider increasing GPU memory request or optimizing model" "" "medium"
      ∷ [];
}

abbrev pub nvlink_failure_pattern : (fl : Floats) → FailurePattern fl
nvlink_failure_pattern fl = record {
  name = "nvlink_failure";
  category = "nvlink_failure";
  indicators =
      indicator "xid" "equals" (int_value (pos 74)) (fl.hundredths 50)
      ∷ indicator "k8s_event" "contains" (text_value (codes "NVLink")) (fl.hundredths 30)
      ∷ indicator "k8s_event" "contains" (text_value (codes "interconnect")) (fl.hundredths 20)
      ∷ [];
  root_cause = record { category = "nvlink_failure"; not_your_code = true };
  recommendations =
      recommend "Check NVLink topology and status" "nvidia-smi nvlink -s" "high"
      ∷ recommend "Inspect NVLink error counters" "nvidia-smi nvlink -e" "high"
      ∷ recommend "Drain node if multi-GPU workload affected"
          "kubectl drain {{.Node}} --ignore-daemonsets --delete-emptydir-data" "medium"
      ∷ recommend "Check physical NVLink cable connections" "" "medium"
      ∷ [];
}

abbrev pub xid_79_bus_error_pattern : (fl : Floats) → FailurePattern fl
xid_79_bus_error_pattern fl = record {
  name = "xid_79_bus_error";
  category = "xid_79_bus_error";
  indicators =
      indicator "xid" "equals" (int_value (pos 79)) (fl.hundredths 70)
      ∷ indicator "causality" "equals" (text_value (codes "thermal_cascade")) (fl.hundredths 15)
      ∷ indicator "throttle" "present" (text_value (codes "")) (fl.hundredths 15)
      ∷ [];
  root_cause = record { category = "xid_79_bus_error"; not_your_code = true };
  recommendations =
      recommend "DRAIN NODE IMMEDIATELY - GPU hardware failure"
        "kubectl drain {{.Node}} --ignore-daemonsets --delete-emptydir-data" "high"
      ∷ recommend "Check PCIe bus status" "lspci -vvv | grep -A20 'NVIDIA'" "high"
      ∷ recommend "Check dmesg for PCIe errors" "dmesg | grep -i 'pci\\|nvidia' | tail -50" "high"
      ∷ recommend "Schedule GPU replacement - hardware failure confirmed" "" "high"
      ∷ [];
}

unfoldable pub known_patterns : (fl : Floats) → List (FailurePattern fl)
known_patterns fl =
    thermal_cascade_pattern fl
    ∷ ecc_failure_pattern fl
    ∷ software_oom_pattern fl
    ∷ nvlink_failure_pattern fl
    ∷ xid_79_bus_error_pattern fl
    ∷ []

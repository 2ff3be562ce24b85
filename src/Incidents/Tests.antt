-- ===== src/Incidents/Tests.antt =====
-- Runs of pkg/incidents, and the theorems at inputs. Hundredths stand for a float64, and an engine
-- that copies commands for text/template.
use mathlib.Core.List.{Memᴰ}
use k8s_gpu_mcp_server.Base.{
  ℕ, ◌+◌, ◌*◌, ◌/◌, ◌≤◌, ◌≡◌, ◌⊎◌, refl, true, [], ◌∷◌, some, arith, ltb, String, any, All,
  if◌then◌else◌,
}
use k8s_gpu_mcp_server.Base.Int.{ℤ, pos, negsuc}
use k8s_gpu_mcp_server.Base.Texts.{codes}
use k8s_gpu_mcp_server.Events.Correlator.Types.{
  XidEvent, GpuSnapshot, Event, xid_data, CorrelatedIncident, causality_unknown,
}
use k8s_gpu_mcp_server.Events.Correlator.Describe.{decimal, is_throttled}
use k8s_gpu_mcp_server.Incidents.Float.{Floats, IsOrdered}
use k8s_gpu_mcp_server.Incidents.Patterns.{known_patterns, text_value, indicator}
use k8s_gpu_mcp_server.Incidents.Context.{
  AnalysisContext, extract_context, extract_xid_codes, find_closest_snapshot, extract_k8s_events,
  add_k8s, add_snapshot,
}
use k8s_gpu_mcp_server.Incidents.Indicators.{check_indicator, matched, no_match}
use k8s_gpu_mcp_server.Incidents.Match.{match_patterns}
use k8s_gpu_mcp_server.Incidents.Report.{TemplateEngine, analyze}
use k8s_gpu_mcp_server.Incidents.Explain.{extract_data, format_duration, format_relative_time}
use k8s_gpu_mcp_server.Incidents.Best.{Chosen, AllWeak, no_pattern, match_patterns-Chosen}
use k8s_gpu_mcp_server.Incidents.Extremes.{
  Extremes, extract_context-Extremes, throttle_any_reason, overheating,
}
use k8s_gpu_mcp_server.Incidents.Closest.{when, find_closest_snapshot_lem}
use k8s_gpu_mcp_server.Blackbox.Ring.Nearest.{dist}
use k8s_gpu_mcp_server.Incidents.Overview.{Reasoned, analyze-Reasoned}
use k8s_gpu_mcp_server.Incidents.Agree.{Agrees, analyze-extract_data-Agrees}

abbrev whole : ℤ → ℕ
whole (pos n) = n * 100
whole (negsuc n) = 0

abbrev floats : Floats
floats = record {
  F = ℕ;
  hundredths = λ n. n;
  plus = λ a b. a + b;
  gt = λ a b. ltb b a;
  of_int = whole;
  used_percent = λ a b. a * 10_000 / b;
  one_decimal = decimal;
}

floats-IsOrdered : IsOrdered floats
floats-IsOrdered = ground arith

abbrev engine : TemplateEngine
engine = record { Template = String; parse = some; execute = λ t d. some t }

-- A device that is limited by power (0x4) and then falls off the bus.
abbrev limited : GpuSnapshot
limited = record {
  timestamp = 90;
  uuid = codes "GPU-1";
  temperature = 70;
  temp_threshold = 90;
  index = 0;
  power_mw = 0;
  gpu_util = 0;
  mem_util = 0;
  mem_used = 10;
  mem_total = 80;
  throttling = 4;
  ecc_correctable = 0;
  ecc_uncorrectable = 0;
  processes = [];
}

abbrev later : GpuSnapshot
later = record limited { timestamp = 98; temperature = 84; throttling = 0 }

abbrev lost : XidEvent
lost = record {
  timestamp = 100;
  xid_code = 79;
  pci_bus_id = "0000:00:1E.0";
  gpu_uuid = [];
  pod_name = "train";
  namespace = "ml";
  severity = "fatal";
  description = codes "GPU has fallen off the bus";
}

abbrev trigger : Event
trigger = record {
  event_type = "xid";
  timestamp = 100;
  source = "XIDWatcher";
  payload = xid_data lost;
}

abbrev incident : CorrelatedIncident
incident = record {
  timestamp = 100;
  trigger = trigger;
  related_events = trigger ∷ [];
  timeline = [];
  gpu_snapshots = limited ∷ later ∷ [];
  affected_pods = [];
  causality = causality_unknown;
}

abbrev context : AnalysisContext floats
context = extract_context floats incident

-- XID 79 (0.70) and a throttled device (0.15).
report_run : (analyze engine floats (known_patterns floats) 0 (some incident)).root_cause ≡ record {
  category = "xid_79_bus_error";
  confidence = 85;
  evidence = codes "XID 79 detected" ∷ codes "GPU throttling active (reason: 0x4)" ∷ [];
  not_your_code = true;
}
unfolding analyze known_patterns match_patterns extract_context extract_xid_codes check_indicator
    extract_k8s_events add_k8s add_snapshot
report_run = refl

texts_run :
    (format_duration 7_200_000_000_000 ≡ codes "2 hours")
    × (format_duration 61_000_000_000 ≡ codes "1 minute")
    × (format_relative_time 5_000_000 2_000_000 ≡ codes "+3ms")
unfolding format_duration format_relative_time
texts_run = (refl, refl, refl)

match_patterns-Chosen_example :
    ((match_patterns floats (known_patterns floats) context ≡ no_pattern context)
      × AllWeak context (known_patterns floats))
    ⊎ Chosen context (known_patterns floats) (match_patterns floats (known_patterns floats) context)
match_patterns-Chosen_example =
    match_patterns-Chosen context (known_patterns floats) floats-IsOrdered

extract_context-Extremes_example : Extremes context incident.gpu_snapshots
extract_context-Extremes_example =
    extract_context-Extremes incident floats-IsOrdered (omega arith, (omega arith, tt))

throttle_any_reason_example :
    check_indicator (indicator "throttle" "present" (text_value (codes "hw_thermal")) 30) context
    ≡ (if any is_throttled incident.gpu_snapshots then matched (overheating context) else no_match)
throttle_any_reason_example =
    throttle_any_reason {fl = floats} incident 30 floats-IsOrdered (omega arith, (omega arith, tt))

find_closest_snapshot_lem_example :
    (s : GpuSnapshot) × (find_closest_snapshot incident.gpu_snapshots 100 ≡ some s)
    × Memᴰ s incident.gpu_snapshots
    × All (λ y. dist when 100 s ≤ dist when 100 y) incident.gpu_snapshots
find_closest_snapshot_lem_example =
    find_closest_snapshot_lem incident.gpu_snapshots 100 (omega arith)
      (omega arith, (omega arith, tt))

analyze-Reasoned_example :
    Reasoned (analyze engine floats (known_patterns floats) 0 (some incident)).root_cause
analyze-Reasoned_example =
    analyze-Reasoned engine (known_patterns floats) 0 (some incident) floats-IsOrdered

analyze-extract_data-Agrees_example :
    Agrees incident
      (analyze engine floats (known_patterns floats) 0 (some incident))
      (extract_data floats incident)
analyze-extract_data-Agrees_example =
    analyze-extract_data-Agrees engine (known_patterns floats) 0 incident

-- ===== src/Events/Correlator/Tests.antt =====
-- Runs of pkg/events/correlator.go, and the theorems at inputs. Insertion sort stands for
-- `sort.Slice`.
use mathlib.Core.List.{Memᴰ}
use k8s_gpu_mcp_server.Base.{
  ℕ, ◌^◌, ltb, ◌*◌, ◌≡◌, ◌↔◌, refl, true, false, [], ◌∷◌, none, some, arith,
}
use k8s_gpu_mcp_server.Base.Texts.{codes}
use k8s_gpu_mcp_server.Blackbox.Ring.{RingBuffer}
use k8s_gpu_mcp_server.Blackbox.Ring.Contents.{contents}
use k8s_gpu_mcp_server.Events.Correlator.Types.{
  XidEvent, K8sEvent, GpuSnapshot, Event, k8s_data, CorrelatedIncident, undetected, thermal_cascade,
  memory_failure, software_oom, causality_unknown,
}
use k8s_gpu_mcp_server.Events.Correlator.Describe.{describe_event, truncate, is_high_temperature}
use k8s_gpu_mcp_server.Events.Correlator.Timeline.{
  build_timeline, all_entries, deduplicate_timeline,
}
use k8s_gpu_mcp_server.Events.Correlator.Causality.{detect_causality, has_sequence, sequence_from}
use k8s_gpu_mcp_server.Events.Correlator.Pods.{pod_key, mentioned, identify_affected_pods, k8s_pod}
use k8s_gpu_mcp_server.Events.Correlator.Gather.{
  Correlator, correlate, new_correlator, with_window_size, start_of, end_of,
}
use k8s_gpu_mcp_server.Base.Int.{pos, max_int}
use k8s_gpu_mcp_server.Events.Correlator.Verdict.{
  Overheated, Corrupted, OutOfMemory, Unexplained, detect_causality_iff,
}
use k8s_gpu_mcp_server.Events.Correlator.Distinct.{Deduplicated, deduplicate_timeline-Deduplicated}
use k8s_gpu_mcp_server.Events.Correlator.Order.{TimelineOf, build_timeline-TimelineOf}
use k8s_gpu_mcp_server.Events.Correlator.Affected.{first_named, identify_affected_pods_iff}
use k8s_gpu_mcp_server.Events.Correlator.Window.{Watching, events_around, correlate-events_around}
use k8s_gpu_mcp_server.Events.Correlator.Insertion.{by_time, by_time-SortsByTime}

-- A pod is killed for want of memory while its device is thermally throttled.
abbrev second : ℕ
second = 1_000_000_000

abbrev oom : K8sEvent
oom = record {
  timestamp = 102 * second;
  event_type = "Warning";
  reason = "OOMKilled";
  message = codes "out of memory";
  pod_name = "train";
  pod_uid = "u1";
  namespace = "ml";
  node_name = "node-1";
}

abbrev lost : XidEvent
lost = record {
  timestamp = 101 * second;
  xid_code = 79;
  pci_bus_id = "0000:00:1E.0";
  gpu_uuid = [];
  pod_name = "";
  namespace = "";
  severity = "fatal";
  description = codes "GPU has fallen off the bus";
}

abbrev early : XidEvent
early = record lost { timestamp = 40 * second }

abbrev hot : GpuSnapshot
hot = record {
  timestamp = 100 * second;
  uuid = codes "GPU-12345678";
  temperature = 84;
  temp_threshold = 90;
  index = 0;
  power_mw = 0;
  gpu_util = 0;
  mem_util = 0;
  mem_used = 0;
  mem_total = 0;
  throttling = 0x40;
  ecc_correctable = 0;
  ecc_uncorrectable = 0;
  processes = [];
}

abbrev trigger : Event
trigger = record {
  event_type = "k8s";
  timestamp = 102 * second;
  source = "K8sWatcher";
  payload = k8s_data oom;
}

abbrev xid_ring : RingBuffer XidEvent
xid_ring = record { buf = early ∷ lost ∷ lost ∷ []; head = 2; size = 2; capacity = 3; full = false }

abbrev k8s_ring : RingBuffer K8sEvent
k8s_ring = record { buf = oom ∷ oom ∷ []; head = 1; size = 1; capacity = 2; full = false }

abbrev watching : Correlator
watching = new_correlator (some ((hot ∷ []) ∷ [])) (some k8s_ring) (some xid_ring)

abbrev incident : CorrelatedIncident
incident = record {
  timestamp = 102 * second;
  trigger = trigger;
  related_events = [];
  timeline = [];
  gpu_snapshots = hot ∷ [];
  affected_pods = [];
  causality = undetected;
}

watching-Watching : Watching watching xid_ring k8s_ring
unfolding contents new_correlator
watching-Watching = record {
  reads_xids = refl;
  reads_k8s = refl;
  xids_valid = ground arith;
  k8s_valid = ground arith;
  xids_in_order = omega arith;
  k8s_in_order = omega arith;
}

correlate-events_around_example :
    (correlate by_time (λ ps. ps) watching none trigger).related_events
    ≡ events_around (6 * second) (102 * second) xid_ring k8s_ring
unfolding new_correlator
correlate-events_around_example =
    correlate-events_around by_time (λ ps. ps) watching xid_ring k8s_ring trigger (5 * second)
      watching-Watching refl (omega arith)

-- The largest window wraps: the end of it lies before its start.
widest_run :
    let c = with_window_size (pos max_int) watching in
    ltb (end_of c.window_size (2 ^ 63)) (start_of c.window_size (2 ^ 63)) ≡ true
unfolding with_window_size new_correlator
widest_run = refl

-- The description of an event, and the cuts.
texts_run :
    (describe_event trigger ≡ codes "[OOMKilled] train: out of memory")
    × (truncate (codes "abcdef") 5 ≡ codes "ab...")
    × (is_high_temperature hot ≡ true)
unfolding describe_event truncate is_high_temperature
texts_run = (refl, refl, refl)

abbrev cascade : CorrelatedIncident
cascade = record incident {
  timeline =
      record { timestamp = 1; event_type = "temp"; description = []; severity = "warning" }
      ∷ record { timestamp = 2; event_type = "throttle"; description = []; severity = "warning" }
      ∷ record { timestamp = 3; event_type = "xid"; description = []; severity = "fatal" }
      ∷ [];
}

detect_causality_iff_example :
    ((detect_causality cascade ≡ thermal_cascade) ↔ Overheated cascade)
    × ((detect_causality cascade ≡ memory_failure) ↔ Corrupted cascade)
    × ((detect_causality cascade ≡ software_oom) ↔ OutOfMemory cascade)
    × ((detect_causality cascade ≡ causality_unknown) ↔ Unexplained cascade)
detect_causality_iff_example = detect_causality_iff cascade

-- Throttling before a high temperature, which more throttling follows: no chain of the three.
abbrev apart : CorrelatedIncident
apart = record incident {
  timeline =
      record { timestamp = 1; event_type = "throttle"; description = []; severity = "warning" }
      ∷ record { timestamp = 2; event_type = "xid"; description = []; severity = "fatal" }
      ∷ record { timestamp = 3; event_type = "temp"; description = []; severity = "warning" }
      ∷ record { timestamp = 4; event_type = "throttle"; description = []; severity = "warning" }
      ∷ [];
}

apart_run : detect_causality apart ≡ thermal_cascade
unfolding detect_causality has_sequence sequence_from
apart_run = refl

deduplicate_timeline-Deduplicated_example :
    Deduplicated cascade.timeline (deduplicate_timeline cascade.timeline)
deduplicate_timeline-Deduplicated_example = deduplicate_timeline-Deduplicated cascade.timeline

build_timeline-TimelineOf_example :
    TimelineOf (all_entries incident) (build_timeline by_time incident)
build_timeline-TimelineOf_example = build_timeline-TimelineOf by_time incident by_time-SortsByTime

identify_affected_pods_iff_example :
    Memᴰ (k8s_pod oom) (identify_affected_pods (λ ps. ps) incident)
    ↔ (first_named (pod_key (k8s_pod oom)) (mentioned incident) ≡ some (k8s_pod oom))
identify_affected_pods_iff_example =
    identify_affected_pods_iff (λ ps. ps) incident (k8s_pod oom)
      (record { adds_none = λ ps p m. m; keeps = λ ps p m. m })

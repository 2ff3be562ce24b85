-- ===== src/Events/Correlator/Timeline.antt =====
-- The timeline of pkg/events/correlator.go.
use k8s_gpu_mcp_server.Base.{
  ℕ, Bool, true, false, List, [], ◌∷◌, ◌++◌, leb, if◌then◌else◌, any, length,
}
use k8s_gpu_mcp_server.Base.Texts.{codes, eq_bytes}
use k8s_gpu_mcp_server.Events.Correlator.Types.{
  GpuSnapshot, Event, TimelineEntry, CorrelatedIncident,
}
use k8s_gpu_mcp_server.Events.Correlator.Describe.{
  describe_event, severity_from_event, severity_from_ecc, is_throttled, has_ecc_errors,
  is_high_temperature, format_throttle_description, format_ecc_description, format_temp_description,
}

abbrev pub entry_of : Event → TimelineEntry
entry_of e = record {
  timestamp = e.timestamp;
  event_type = e.event_type;
  description = describe_event e;
  severity = severity_from_event e;
}

abbrev pub throttle_entry : GpuSnapshot → TimelineEntry
throttle_entry snap = record {
  timestamp = snap.timestamp;
  event_type = "throttle";
  description = format_throttle_description snap;
  severity = "warning";
}

abbrev pub ecc_entry : GpuSnapshot → TimelineEntry
ecc_entry snap = record {
  timestamp = snap.timestamp;
  event_type = "ecc";
  description = format_ecc_description snap;
  severity = severity_from_ecc snap;
}

abbrev pub temp_entry : GpuSnapshot → TimelineEntry
temp_entry snap = record {
  timestamp = snap.timestamp;
  event_type = "temp";
  description = format_temp_description snap;
  severity = "warning";
}

abbrev pub if_so {ℓ} : {A : Type ℓ} → Bool → A → List A
if_so true a = a ∷ []
if_so false a = []

unfoldable pub build_gpu_snapshot_entries : List GpuSnapshot → List TimelineEntry
build_gpu_snapshot_entries [] = []
build_gpu_snapshot_entries (snap ∷ snaps) =
    if_so (is_throttled snap) (throttle_entry snap)
    ++ if_so (has_ecc_errors snap) (ecc_entry snap)
    ++ if_so (is_high_temperature snap) (temp_entry snap)
    ++ build_gpu_snapshot_entries snaps

abbrev pub key_of : TimelineEntry → List ℕ
key_of entry = codes entry.event_type ++ b'|' ∷ entry.description

-- The loop of `deduplicateTimeline`; the keys of `seen` are a list.
unfoldable pub dedup : List (List ℕ) → List TimelineEntry → List TimelineEntry
dedup seen [] = []
dedup seen (entry ∷ entries) =
    let key = key_of entry in
    let skip = dedup seen entries in
    let keep = entry ∷ dedup (key ∷ seen) entries in if any (eq_bytes key) seen then skip else keep

unfoldable pub deduplicate_timeline : List TimelineEntry → List TimelineEntry
deduplicate_timeline entries = if leb (length entries) 1 then entries else dedup [] entries

abbrev pub events_of : List Event → List TimelineEntry
events_of [] = []
events_of (e ∷ es) = entry_of e ∷ events_of es

-- The entries before they are sorted.
unfoldable pub all_entries : CorrelatedIncident → List TimelineEntry
all_entries incident =
    entry_of incident.trigger ∷ events_of incident.related_events
    ++ build_gpu_snapshot_entries incident.gpu_snapshots

unfoldable pub build_timeline :
    (List TimelineEntry → List TimelineEntry) → CorrelatedIncident → List TimelineEntry
build_timeline sort_slice incident = deduplicate_timeline (sort_slice (all_entries incident))

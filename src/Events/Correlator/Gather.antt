-- ===== src/Events/Correlator/Gather.antt =====
-- `Correlate` of pkg/events/correlator.go and its three loops over the sources of events.
use k8s_gpu_mcp_server.Base.{
  ℕ, ◌*◌, ◌||◌, List, [], ◌∷◌, ◌++◌, Option, none, some, ltb, if◌then◌else◌,
}
use k8s_gpu_mcp_server.Base.Int.{ℤ, pos, ltz, neg_int, add_int64, sub_int64, add_time}
use k8s_gpu_mcp_server.Blackbox.Ring.{RingBuffer, query}
use k8s_gpu_mcp_server.Events.Correlator.Types.{
  XidEvent, K8sEvent, GpuSnapshot, xid_data, k8s_data, Event, TimelineEntry, AffectedPod,
  undetected, CorrelatedIncident, Context, ask,
}
use k8s_gpu_mcp_server.Events.Correlator.Timeline.{build_timeline}
use k8s_gpu_mcp_server.Events.Correlator.Pods.{identify_affected_pods}
use k8s_gpu_mcp_server.Events.Correlator.Causality.{detect_causality}

pub record Correlator : Type 0 where
  pub recorder : Option (List (List GpuSnapshot))
  pub k8s_watcher : Option (RingBuffer K8sEvent)
  pub xid_watcher : Option (RingBuffer XidEvent)
  pub window_size : ℤ

abbrev pub clock_skew_tolerance : ℕ
clock_skew_tolerance = 1_000_000_000

abbrev pub default_window_size : ℤ
default_window_size = pos (5 * 1_000_000_000)

-- Without options; one is applied to what it returns.
unfoldable pub new_correlator :
    Option (List (List GpuSnapshot))
    → Option (RingBuffer K8sEvent)
    → Option (RingBuffer XidEvent)
    → Correlator
new_correlator recorder k8s_watcher xid_watcher = record {
  recorder = recorder;
  k8s_watcher = k8s_watcher;
  xid_watcher = xid_watcher;
  window_size = default_window_size;
}

-- The option: a window that is not positive is ignored.
unfoldable pub with_window_size : ℤ → Correlator → Correlator
with_window_size d c = if ltz (pos 0) d then record c { window_size = d } else c

-- The bounds of the window around a time.
abbrev pub start_of : ℤ → ℕ → ℕ
start_of window_size t = add_time t (sub_int64 (neg_int window_size) clock_skew_tolerance)

abbrev pub end_of : ℤ → ℕ → ℕ
end_of window_size t = add_time t (add_int64 window_size clock_skew_tolerance)

abbrev pub xid_event : XidEvent → Event
xid_event e = record {
  event_type = "xid";
  timestamp = e.timestamp;
  source = "xid.Watcher";
  payload = xid_data e;
}

abbrev pub k8s_event : K8sEvent → Event
k8s_event e = record {
  event_type = "k8s";
  timestamp = e.timestamp;
  source = "K8sWatcher";
  payload = k8s_data e;
}

-- The loops of `gatherXIDEvents` and `gatherK8sEvents`, which differ in the event they make: the
-- context and the events afterwards.
unfoldable pub gather {ℓ} :
    {A : Type ℓ} → (A → ℕ) → (A → Event) → ℕ → Context → List A → List Event → Context × List Event
gather time_fn event_of window_end ctx [] out = (ctx, out)
gather time_fn event_of window_end ctx (e ∷ es) out =
    let asked = ask ctx in
    let next =
      gather time_fn event_of window_end asked.1 es
        (if ltb window_end (time_fn e) then out else out ++ event_of e ∷ []) in
    if asked.0 then (asked.1, out) else next

abbrev pub zero_xid : XidEvent
zero_xid = record {
  timestamp = 0;
  xid_code = 0;
  pci_bus_id = "";
  gpu_uuid = [];
  pod_name = "";
  namespace = "";
  severity = "";
  description = [];
}

abbrev pub zero_k8s : K8sEvent
zero_k8s = record {
  timestamp = 0;
  event_type = "";
  reason = "";
  message = [];
  pod_name = "";
  pod_uid = "";
  namespace = "";
  node_name = "";
}

-- `GetEvents` of the two watchers is `Query` of their ring buffers.
unfoldable pub gather_xid_events :
    Option (RingBuffer XidEvent)
    → ℕ
    → ℕ
    → Context
    → CorrelatedIncident
    → Context × CorrelatedIncident
gather_xid_events none window_start window_end ctx incident = (ctx, incident)
gather_xid_events (some ring) window_start window_end ctx incident =
    let found =
      gather (λ e. e.timestamp) xid_event window_end ctx
        (query zero_xid window_start (λ e. e.timestamp) ring) incident.related_events in
    (found.0, record incident { related_events = found.1 })

unfoldable pub gather_k8s_events :
    Option (RingBuffer K8sEvent)
    → ℕ
    → ℕ
    → Context
    → CorrelatedIncident
    → Context × CorrelatedIncident
gather_k8s_events none window_start window_end ctx incident = (ctx, incident)
gather_k8s_events (some ring) window_start window_end ctx incident =
    let found =
      gather (λ e. e.timestamp) k8s_event window_end ctx
        (query zero_k8s window_start (λ e. e.timestamp) ring) incident.related_events in
    (found.0, record incident { related_events = found.1 })

-- The inner loop of `gatherGPUSnapshots`.
unfoldable pub in_window : ℕ → ℕ → List GpuSnapshot → List GpuSnapshot → List GpuSnapshot
in_window window_start window_end out [] = out
in_window window_start window_end out (s ∷ snaps) =
    let next =
      if ltb s.timestamp window_start || ltb window_end s.timestamp then out else out ++ s ∷ [] in
    in_window window_start window_end next snaps

unfoldable pub gather_timelines :
    ℕ → ℕ → Context → List (List GpuSnapshot) → List GpuSnapshot → Context × List GpuSnapshot
gather_timelines window_start window_end ctx [] out = (ctx, out)
gather_timelines window_start window_end ctx (t ∷ ts) out =
    let asked = ask ctx in
    let next =
      gather_timelines window_start window_end asked.1 ts
        (in_window window_start window_end out t) in
    if asked.0 then (asked.1, out) else next

unfoldable pub gather_gpu_snapshots :
    Option (List (List GpuSnapshot))
    → ℕ
    → ℕ
    → Context
    → CorrelatedIncident
    → Context × CorrelatedIncident
gather_gpu_snapshots none window_start window_end ctx incident = (ctx, incident)
gather_gpu_snapshots (some timelines) window_start window_end ctx incident =
    let found = gather_timelines window_start window_end ctx timelines incident.gpu_snapshots in
    (found.0, record incident { gpu_snapshots = found.1 })

module _ (sort_entries : List TimelineEntry → List TimelineEntry)
    (sort_pods : List AffectedPod → List AffectedPod) where
  -- The last three steps of `Correlate`.
  unfoldable pub completed : CorrelatedIncident → CorrelatedIncident
  completed incident =
      let timed = record incident { timeline = build_timeline sort_entries incident } in
      let named = record timed { affected_pods = identify_affected_pods sort_pods timed } in
      record named { causality = detect_causality named }

  -- One step of `Correlate`: the context is asked first, and ends the incident as it is.
  abbrev pub unless_done :
      Context → CorrelatedIncident → (Context → CorrelatedIncident) → CorrelatedIncident
  unless_done ctx incident rest = if (ask ctx).0 then incident else rest (ask ctx).1

  unfoldable pub correlate : Correlator → Context → Event → CorrelatedIncident
  correlate c ctx trigger =
      let window_start = start_of c.window_size trigger.timestamp in
      let window_end = end_of c.window_size trigger.timestamp in
      let incident : CorrelatedIncident = record {
        timestamp = trigger.timestamp;
        trigger = trigger;
        related_events = [];
        timeline = [];
        gpu_snapshots = [];
        affected_pods = [];
        causality = undetected;
      } in
      unless_done ctx incident (λ ctx1.
        let xids = gather_xid_events c.xid_watcher window_start window_end ctx1 incident in
        unless_done xids.0 xids.1 (λ ctx2.
          let k8s = gather_k8s_events c.k8s_watcher window_start window_end ctx2 xids.1 in
          unless_done k8s.0 k8s.1 (λ ctx3.
            let snaps = gather_gpu_snapshots c.recorder window_start window_end ctx3 k8s.1 in
            unless_done snaps.0 snaps.1 (λ ctx4. completed snaps.1))))

-- ===== src/Events/Cluster.antt =====
-- The watcher of cluster events of pkg/events/k8s_watcher.go, with its buffer (buffer.go). The objects
-- that an informer delivers are those events that are read here, or something else (`none`), with the
-- reading of the clock. The handlers are numbered in the order of their registration, and their calls
-- are a log. Start and Stop with their goroutines are left out.
pub mod Captured
pub mod Kept
mod Tests
use k8s_gpu_mcp_server.Base.{
  ℕ, zero, suc, ◌+◌, Bool, true, false, not, ◌&&◌, ◌||◌, Option, none, some, List, [], ◌∷◌, ◌++◌,
  ◌==◌, if◌then◌else◌, String,
}
use k8s_gpu_mcp_server.Base.Int.{ℤ, pos, negsuc}
use k8s_gpu_mcp_server.Base.Texts.{codes, str_eq}
use k8s_gpu_mcp_server.Blackbox.Ring.{
  RingBuffer, new_ring_buffer, add, items, latest, query, query_func, clear,
}
use k8s_gpu_mcp_server.Events.Correlator.Types.{K8sEvent}
use k8s_gpu_mcp_server.Events.Correlator.Gather.{zero_k8s}

pub record WatcherConfig : Type 0 where
  pub node_name : String
  pub buffer_size : ℤ

-- `none` is no error.
unfoldable pub validate_node : WatcherConfig → Bool
validate_node c = if str_eq c.node_name "" then false else true

abbrev pub size_or_default : ℤ → ℤ
size_or_default (pos zero) = pos 500
size_or_default (pos (suc n)) = pos (suc n)
size_or_default (negsuc n) = pos 500

unfoldable pub with_default_size : WatcherConfig → WatcherConfig
with_default_size c = record c { buffer_size = size_or_default c.buffer_size }

-- The fields of `corev1.Event` that are read; a time of 0 is Go's zero time.
pub record CoreEvent : Type 0 where
  pub object_kind : String
  pub object_name : String
  pub object_uid : String
  pub object_namespace : String
  pub event_type : String
  pub reason : String
  pub message : List ℕ
  pub source_host : String
  pub reporting_instance : String
  pub event_time : ℕ
  pub last_timestamp : ℕ
  pub first_timestamp : ℕ

pub record K8sWatcher : Type 0 where
  pub node_name : String
  pub buffer : RingBuffer K8sEvent
  pub handlers : ℕ
  pub calls : List (ℕ × K8sEvent)

abbrev pub with_ring : String → Option (RingBuffer K8sEvent) → Option K8sWatcher
with_ring name none = none
with_ring name (some ring) =
    some (record { node_name = name; buffer = ring; handlers = 0; calls = [] })

-- `none` is an error.
unfoldable pub new_k8s_watcher : WatcherConfig → Option K8sWatcher
unfolding validate_node with_default_size
new_k8s_watcher c =
    if validate_node c
    then with_ring c.node_name (new_ring_buffer zero_k8s (with_default_size c).buffer_size)
    else none

unfoldable pub is_relevant_reason : String → Bool
is_relevant_reason r =
    str_eq r "Failed"
    || str_eq r "OOMKilled"
    || str_eq r "Evicted"
    || str_eq r "BackOff"
    || str_eq r "Unhealthy"
    || str_eq r "Killing"
    || str_eq r "Preempting"

unfoldable pub extract_node_name : CoreEvent → String
extract_node_name e = if not (str_eq e.source_host "") then e.source_host else e.reporting_instance

abbrev pub best_time : ℕ → CoreEvent → ℕ
best_time now e =
    if not (e.event_time == 0)
    then e.event_time
    else if not (e.last_timestamp == 0)
    then e.last_timestamp
    else if not (e.first_timestamp == 0)
    then e.first_timestamp
    else now

unfoldable pub convert_event : ℕ → CoreEvent → K8sEvent
unfolding extract_node_name
convert_event now e = record {
  timestamp = best_time now e;
  event_type = e.event_type;
  reason = e.reason;
  message = e.message;
  pod_name = e.object_name;
  pod_uid = e.object_uid;
  namespace = e.object_namespace;
  node_name = extract_node_name e;
}

-- The calls of `n` handlers from number `i` on.
abbrev pub notices_from : ℕ → ℕ → K8sEvent → List (ℕ × K8sEvent)
notices_from zero i e = []
notices_from (suc n) i e = (i, e) ∷ notices_from n (i + 1) e

abbrev pub capture : K8sWatcher → K8sEvent → K8sWatcher
capture w e = record w { buffer = add e w.buffer; calls = w.calls ++ notices_from w.handlers 0 e }

unfoldable pub handle_event : K8sWatcher → Option CoreEvent × ℕ → K8sWatcher
unfolding convert_event extract_node_name is_relevant_reason
handle_event w (none, now) = w
handle_event w (some e, now) =
    let node = extract_node_name e in
    if not (str_eq e.object_kind "Pod")
    then w
    else if not (str_eq node "") && not (str_eq node w.node_name)
    then w
    else if not (str_eq e.event_type "Warning") && not (is_relevant_reason e.reason)
    then w
    else capture w (convert_event now e)

unfoldable pub register_handler : K8sWatcher → K8sWatcher
register_handler w = record w { handlers = w.handlers + 1 }

unfoldable pub get_events_for_pod : K8sWatcher → String → String → List K8sEvent
get_events_for_pod w pod namespace =
    query_func zero_k8s (λ e. str_eq e.pod_name pod && str_eq e.namespace namespace) w.buffer

unfoldable pub get_events_by_reason : K8sWatcher → String → List K8sEvent
get_events_by_reason w reason = query_func zero_k8s (λ e. str_eq e.reason reason) w.buffer

unfoldable pub get_all_k8s_events : K8sWatcher → List K8sEvent
get_all_k8s_events w = items zero_k8s w.buffer

unfoldable pub get_k8s_events : K8sWatcher → ℕ → List K8sEvent
get_k8s_events w since = query zero_k8s since (λ e. e.timestamp) w.buffer

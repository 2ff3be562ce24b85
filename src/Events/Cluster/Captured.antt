-- ===== src/Events/Cluster/Captured.antt =====
-- What the watcher of pkg/events/k8s_watcher.go keeps of the events of a cluster, and whom it tells.
use k8s_gpu_mcp_server.Base.{
  ℕ, ◌+◌, ◌≡◌, refl, sym, ap, Bool, ◌&&◌, ◌||◌, Option, none, some, List, [], ◌∷◌, ◌++◌, append-nil,
  foldl, map, arith, Bool-cases, inl, inr, String, if◌then◌else◌,
}
use k8s_gpu_mcp_server.Base.Texts.{str_eq}
use k8s_gpu_mcp_server.Blackbox.Ring.History.{push, apply}
use k8s_gpu_mcp_server.Events.Correlator.Types.{K8sEvent}
use k8s_gpu_mcp_server.Events.Correlator.Gather.{zero_k8s}
use k8s_gpu_mcp_server.Events.Cluster.{
  CoreEvent, K8sWatcher, is_relevant_reason, extract_node_name, convert_event, notices_from,
  capture, handle_event, register_handler,
}

-- What happens to a watcher: an object of the informer with the time, or a new handler.
pub data Action : Type 0 where
  deliver : Option CoreEvent → ℕ → Action
  register : Action

abbrev pub act : K8sWatcher → Action → K8sWatcher
act w (deliver o now) = handle_event w (o, now)
act w register = register_handler w

-- An event of a pod on the node, or of a pod with no node named, that warns or has a reason of
-- interest.
abbrev pub of_interest : String → CoreEvent → Bool
of_interest node e =
    str_eq e.object_kind "Pod"
    && (str_eq (extract_node_name e) "" || str_eq (extract_node_name e) node)
    && (str_eq e.event_type "Warning" || is_relevant_reason e.reason)

abbrev pub captured_of : String → Action → List K8sEvent
captured_of node (deliver (some e) now) =
    if of_interest node e then convert_event now e ∷ [] else []
captured_of node _ = []

abbrev pub captured : String → List Action → List K8sEvent
captured node [] = []
captured node (a ∷ as') = captured_of node a ++ captured node as'

-- The calls, with so many handlers before: each event goes to the handlers that are registered.
abbrev pub notices : ℕ → List K8sEvent → List (ℕ × K8sEvent)
notices n [] = []
notices n (e ∷ es) = notices_from n 0 e ++ notices n es

abbrev pub handlers_after : ℕ → Action → ℕ
handlers_after n register = n + 1
handlers_after n (deliver o now) = n

abbrev pub told : String → ℕ → List Action → List (ℕ × K8sEvent)
told node n [] = []
told node n (a ∷ as') = notices n (captured_of node a) ++ told node (handlers_after n a) as'

handle_event-eq :
    (w : K8sWatcher) (e : CoreEvent) (now : ℕ)
    → handle_event w (some e, now)
      ≡ (if of_interest w.node_name e then capture w (convert_event now e) else w)
unfolding handle_event
handle_event-eq w e now = ground arith

-- What actions do to a watcher.
pub record Effect (w v : K8sWatcher) (new : List K8sEvent) (calls : List (ℕ × K8sEvent)) (n : ℕ)
    : Type 0 where
  pub same_node : v.node_name ≡ w.node_name
  pub pushed : v.buffer ≡ foldl (apply zero_k8s) w.buffer (map push new)
  pub called : v.calls ≡ w.calls ++ calls
  pub listening : v.handlers ≡ n

unchanged : (w : K8sWatcher) → Effect w w [] [] w.handlers
unchanged w = record {
  same_node = refl;
  pushed = refl;
  called = sym (append-nil w.calls);
  listening = refl;
}

capture-Effect :
    (w : K8sWatcher) (e : K8sEvent)
    → Effect w (capture w e) (e ∷ []) (notices_from w.handlers 0 e ++ []) w.handlers
unfolding apply
capture-Effect w e = record {
  same_node = refl;
  pushed = refl;
  called = ap (λ cs. w.calls ++ cs) (sym (append-nil (notices_from w.handlers 0 e)));
  listening = refl;
}

pub act-Effect :
    (w : K8sWatcher) (a : Action)
    → Effect w
        (act w a)
        (captured_of w.node_name a)
        (notices w.handlers (captured_of w.node_name a))
        (handlers_after w.handlers a)
unfolding handle_event register_handler
act-Effect w register = record {
  same_node = refl;
  pushed = refl;
  called = sym (append-nil w.calls);
  listening = refl;
}
act-Effect w (deliver none now) = unchanged w
act-Effect w (deliver (some e) now) = elim (Bool-cases (of_interest w.node_name e)) [
  | inl p ↦ rw (handle_event-eq w e now, p) (capture-Effect w (convert_event now e))
  | inr n ↦ rw (handle_event-eq w e now, n) (unchanged w)
]

-- ===== src/Events/Correlator/Pods.antt =====
-- `identifyAffectedPods` of pkg/events/correlator.go. The map is a list of pods in the order in
-- which they are added, and `sort.Slice` over its values a parameter.
use k8s_gpu_mcp_server.Base.{ℕ, Bool, List, [], ◌∷◌, ◌++◌, if◌then◌else◌, any, foldl}
use k8s_gpu_mcp_server.Base.Texts.{codes, str_eq}
use k8s_gpu_mcp_server.Events.Correlator.Types.{
  XidEvent, K8sEvent, ProcessInfo, GpuSnapshot, Payload, xid_data, k8s_data, other_data, Event,
  AffectedPod, CorrelatedIncident,
}
use k8s_gpu_mcp_server.Events.Correlator.Describe.{decimal}
use k8s_gpu_mcp_server.Base.Texts.{eq_bytes}

-- The key of the map: namespace/name.
abbrev pub pod_key : AffectedPod → List ℕ
pod_key p = codes p.namespace ++ b'/' ∷ codes p.pod_name

abbrev pub has_pod : List ℕ → List AffectedPod → Bool
has_pod key pods = any (λ p. eq_bytes key (pod_key p)) pods

-- Each helper of the source: a pod without a name is passed over, and one whose key is there
-- already is not changed.
unfoldable pub add_pod : List AffectedPod → AffectedPod → List AffectedPod
add_pod pods p =
    if str_eq p.pod_name "" then pods else if has_pod (pod_key p) pods then pods else pods ++ p ∷ []

abbrev pub k8s_pod : K8sEvent → AffectedPod
k8s_pod e = record {
  pod_name = e.pod_name;
  namespace = e.namespace;
  pod_uid = e.pod_uid;
  reason = codes e.reason;
}

abbrev pub xid_pod : XidEvent → AffectedPod
xid_pod e = record {
  pod_name = e.pod_name;
  namespace = e.namespace;
  pod_uid = "";
  reason = codes "XID " ++ decimal e.xid_code;
}

abbrev pub process_pod : ProcessInfo → AffectedPod
process_pod p = record {
  pod_name = p.pod_name;
  namespace = p.namespace;
  pod_uid = p.pod_uid;
  reason = codes "GPU process";
}

-- The pod of an event whose type is the one asked for and whose data is of that type.
abbrev pub pod_of_k8s : Payload → List AffectedPod
pod_of_k8s (k8s_data e) = k8s_pod e ∷ []
pod_of_k8s (xid_data e) = []
pod_of_k8s other_data = []

abbrev pub pod_of_xid : Payload → List AffectedPod
pod_of_xid (xid_data e) = xid_pod e ∷ []
pod_of_xid (k8s_data e) = []
pod_of_xid other_data = []

abbrev pub if_k8s : Event → List AffectedPod
if_k8s e = if str_eq e.event_type "k8s" then pod_of_k8s e.payload else []

abbrev pub if_xid : Event → List AffectedPod
if_xid e = if str_eq e.event_type "xid" then pod_of_xid e.payload else []

abbrev pub concat_map {ℓ κ} : {A : Type ℓ} {B : Type κ} → (A → List B) → List A → List B
concat_map f [] = []
concat_map f (x ∷ xs) = f x ++ concat_map f xs

abbrev pub processes_of : GpuSnapshot → List AffectedPod
processes_of snap = concat_map (λ p. process_pod p ∷ []) snap.processes

-- The pods in the order in which the source comes across them.
unfoldable pub mentioned : CorrelatedIncident → List AffectedPod
mentioned incident =
    if_k8s incident.trigger
    ++ if_xid incident.trigger
    ++ concat_map if_k8s incident.related_events
    ++ concat_map if_xid incident.related_events
    ++ concat_map processes_of incident.gpu_snapshots

unfoldable pub identify_affected_pods :
    (List AffectedPod → List AffectedPod) → CorrelatedIncident → List AffectedPod
identify_affected_pods sort_slice incident = sort_slice (foldl add_pod [] (mentioned incident))

-- ===== src/Events/Mapper/Tests.antt =====
-- Runs of pkg/events/process_mapper.go; a map is iterated in the order of its list.
use k8s_gpu_mcp_server.Base.{ℕ, ◌≡◌, refl, true, List, [], ◌∷◌, some, inl, foldl, arith}
use k8s_gpu_mcp_server.Base.Int.{pos}
use k8s_gpu_mcp_server.Base.Texts.{codes}
use k8s_gpu_mcp_server.Events.Mapper.{
  ProcessMapper, CachedPodInfo, PodInfo, Pod, Call, Operation, get, new_process_mapper,
  get_pod_for_pid, operate, pod, no_process, in_container, extract_container_id, with_cache,
  resolve, after_lookup, remember, evict_oldest, evict, scan_oldest, lookup_pod_by_container_id,
  or_refresh, refresh_pod_cache, with_pods, add_statuses, status_entry,
}
use k8s_gpu_mcp_server.Events.Mapper.Capacity.{Arranges, Bounded, new_process_mapper-Bounded}
use k8s_gpu_mcp_server.Events.Mapper.Remembered.{get_pod_for_pid-PostMortem}

abbrev in_order : List CachedPodInfo → List CachedPodInfo
in_order es = es

in_order-Arranges : Arranges in_order
in_order-Arranges = record { same_length = λ es. refl; adds_none = λ es e m. m }

abbrev train : Pod
train = record {
  pod_uid = "u1";
  pod_name = "train";
  namespace = "ml";
  statuses = record { container_id = codes "containerd://ab"; container_name = "main" } ∷ [];
}

abbrev train_info : PodInfo
train_info = record {
  pod_uid = "u1";
  pod_name = "train";
  namespace = "ml";
  container_id = codes "ab";
  container_name = "main";
}

abbrev ask_for : ℕ → ℕ → Call
ask_for pid now = record {
  pid = pos pid;
  now = now;
  cgroup = in_container (codes "ab");
  pods = some (train ∷ []);
}

abbrev entry : ℕ → ℕ → CachedPodInfo
entry pid at = record { pid = pid; info = train_info; cached_at = at }

-- A cache of two, after three processes: the oldest is gone.
abbrev operations : List Operation
operations = get (ask_for 1 10) ∷ get (ask_for 2 11) ∷ get (ask_for 3 12) ∷ []

evicted_run :
    (foldl (operate in_order) (new_process_mapper true (pos 5) (pos 2)) operations).cache
    ≡ entry 3 12 ∷ entry 2 11 ∷ []
unfolding operate get_pod_for_pid new_process_mapper extract_container_id with_cache resolve
    after_lookup remember evict_oldest evict scan_oldest lookup_pod_by_container_id or_refresh
    refresh_pod_cache with_pods add_statuses status_entry
evicted_run = refl

new_process_mapper-Bounded_example :
    Bounded in_order in_order-Arranges
      (foldl (operate in_order) (new_process_mapper true (pos 5) (pos 2)) operations)
new_process_mapper-Bounded_example =
    new_process_mapper-Bounded in_order in_order-Arranges true (pos 5) (pos 2) operations

-- A process that has gone long after the time to live of its entry.
abbrev dead : Call
dead = record (ask_for 7 10_000_000_000_000) { cgroup = no_process }

abbrev fresh : ProcessMapper
fresh = new_process_mapper true (pos 5) (pos 2)

get_pod_for_pid-PostMortem_example :
    let m' =
      foldl
        (operate in_order)
        (get_pod_for_pid in_order (ask_for 7 10) fresh).1
        (get (ask_for 3 20) ∷ []) in
    get_pod_for_pid in_order dead m' ≡ (pod (some train_info), m')
unfolding get_pod_for_pid new_process_mapper extract_container_id with_cache resolve after_lookup
    remember evict_oldest evict scan_oldest lookup_pod_by_container_id or_refresh refresh_pod_cache
    with_pods add_statuses status_entry
get_pod_for_pid-PostMortem_example =
    get_pod_for_pid-PostMortem in_order fresh (ask_for 7 10) dead (get (ask_for 3 20) ∷ []) 6
      train_info refl refl (inl refl) (omega arith) ((λ e. absurd (ground (arith, e))), tt) refl

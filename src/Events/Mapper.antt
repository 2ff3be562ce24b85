-- ===== src/Events/Mapper.antt =====
-- pkg/events/process_mapper.go: the pods that processes run in. The caches are association lists; a map
-- is iterated in an order that Go leaves open, which is the parameter `arrange`. What `parseCgroup`
-- reads of /proc, which its regular expressions decide, and the list of pods from Kubernetes are the
-- arguments of a call.
pub mod Capacity
pub mod Stale
pub mod Outcomes
pub mod Remembered
mod Tests
use k8s_gpu_mcp_server.Base.{
  ℕ, zero, suc, ◌+◌, ◌-◌, ◌/◌, Bool, true, false, not, ◌&&◌, Option, none, some, List, [], ◌∷◌,
  ◌++◌, String, ltb, ◌==◌, if◌then◌else◌, length, filter, foldl, set, drop,
}
use k8s_gpu_mcp_server.Base.Bytes.{has_prefix, is_empty}
use k8s_gpu_mcp_server.Base.Int.{ℤ, pos, negsuc, ltz, sub_time}
use k8s_gpu_mcp_server.Base.Texts.{codes, eq_bytes}

pub record PodInfo : Type 0 where
  pub pod_uid : String
  pub pod_name : String
  pub namespace : String
  pub container_id : List ℕ
  pub container_name : String

-- An entry of the cache: `cachedPodInfo` under its PID.
pub record CachedPodInfo : Type 0 where
  pub pid : ℕ
  pub info : PodInfo
  pub cached_at : ℕ

pub record ProcessMapper : Type 0 where
  pub stale_ttl : ℤ
  pub max_cache : ℕ
  pub has_client : Bool
  pub cache : List CachedPodInfo
  pub pod_cache : List (List ℕ × PodInfo)

-- DefaultStaleTTL and DefaultCacheSize, or the values of the options; a size below 1 is ignored.
abbrev pub size_option : ℤ → ℕ
size_option (pos zero) = 1000
size_option (pos (suc n)) = suc n
size_option (negsuc n) = 1000

unfoldable pub new_process_mapper : Bool → ℤ → ℤ → ProcessMapper
new_process_mapper has_client ttl size = record {
  has_client = has_client;
  stale_ttl = ttl;
  max_cache = size_option size;
  cache = [];
  pod_cache = [];
}

-- What `extractContainerID` leaves after "://".
abbrev pub after_scheme : List ℕ → List ℕ → List ℕ
after_scheme whole [] = whole
after_scheme whole (c ∷ cs) =
    let rest = after_scheme whole cs in
    if has_prefix (c ∷ cs) (codes "://") then drop 3 (c ∷ cs) else rest

unfoldable pub extract_container_id : List ℕ → List ℕ
extract_container_id full_id = after_scheme full_id full_id

pub record ContainerStatus : Type 0 where
  pub container_id : List ℕ
  pub container_name : String

pub record Pod : Type 0 where
  pub pod_uid : String
  pub pod_name : String
  pub namespace : String
  pub statuses : List ContainerStatus

unfoldable pub status_entry : Pod → ContainerStatus → List (List ℕ × PodInfo)
unfolding extract_container_id
status_entry p s =
    let id = extract_container_id s.container_id in
    if is_empty id
    then []
    else (
      id,
      record {
        pod_uid = p.pod_uid;
        pod_name = p.pod_name;
        namespace = p.namespace;
        container_id = id;
        container_name = s.container_name;
      },
    )
      ∷ []

-- The last entry of a container is in front: it is the one that is found.
unfoldable pub add_statuses :
    Pod → List ContainerStatus → List (List ℕ × PodInfo) → List (List ℕ × PodInfo)
unfolding status_entry
add_statuses p ss cache = foldl (λ c s. status_entry p s ++ c) cache ss

-- `none` is an error of Kubernetes.
unfoldable pub with_pods : Option (List Pod) → ProcessMapper → Option ProcessMapper
unfolding add_statuses
with_pods none m = none
with_pods (some pods) m =
    some (record m { pod_cache = foldl (λ c p. add_statuses p p.statuses c) [] pods })

unfoldable pub refresh_pod_cache : Option (List Pod) → ProcessMapper → Option ProcessMapper
unfolding with_pods
refresh_pod_cache pods m = if not m.has_client then some m else with_pods pods m

abbrev pub find_pod : List ℕ → List (List ℕ × PodInfo) → Option PodInfo
find_pod id [] = none
find_pod id ((key, info) ∷ rest) =
    let found = find_pod id rest in if eq_bytes key id then some info else found

-- What a lookup says, with the mapper after it: an error, or the pod of the container if it has one.
pub data Lookup : Type 0 where
  list_failed : Lookup
  looked_up : Option PodInfo → Lookup

abbrev pub after_refresh : List ℕ → ProcessMapper → Option ProcessMapper → Lookup × ProcessMapper
after_refresh id m none = (list_failed, m)
after_refresh id m (some m') = (looked_up (find_pod id m'.pod_cache), m')

unfoldable pub or_refresh :
    Option PodInfo → List ℕ → Option (List Pod) → ProcessMapper → Lookup × ProcessMapper
unfolding refresh_pod_cache
or_refresh (some info) id pods m = (looked_up (some info), m)
or_refresh none id pods m = after_refresh id m (refresh_pod_cache pods m)

unfoldable pub lookup_pod_by_container_id :
    List ℕ → Option (List Pod) → ProcessMapper → Lookup × ProcessMapper
unfolding or_refresh
lookup_pod_by_container_id id pods m = or_refresh (find_pod id m.pod_cache) id pods m

abbrev pub find_cached : ℕ → List CachedPodInfo → Option CachedPodInfo
find_cached pid [] = none
find_cached pid (e ∷ es) = let found = find_cached pid es in if e.pid == pid then some e else found

abbrev pub delete_pid : ℕ → List CachedPodInfo → List CachedPodInfo
delete_pid pid es = filter (λ e. not (e.pid == pid)) es

-- `m.cache[pid] = ...`
abbrev pub put : CachedPodInfo → List CachedPodInfo → List CachedPodInfo
put e es = e ∷ delete_pid e.pid es

-- The scan for the oldest entry: its index and itself, from index `j` on.
unfoldable pub scan_oldest : ℕ × CachedPodInfo → ℕ → List CachedPodInfo → ℕ × CachedPodInfo
scan_oldest best j [] = best
scan_oldest (i, best) j (e ∷ es) =
    if ltb e.cached_at best.cached_at
    then scan_oldest (j, e) (j + 1) es
    else scan_oldest (i, best) (j + 1) es

-- The entries after the swap, without the oldest, which stood at an index.
abbrev pub without : ℕ → CachedPodInfo → List CachedPodInfo → List CachedPodInfo
without zero first es = es
without (suc k) first es = set es k first

unfoldable pub evict : ℕ → List CachedPodInfo → List CachedPodInfo → List CachedPodInfo
unfolding scan_oldest
evict zero entries cache = cache
evict (suc n) [] cache = cache
evict (suc n) (e ∷ es) cache =
    let (k, oldest) = scan_oldest (0, e) 1 es in
    evict n (without k e es) (delete_pid oldest.pid cache)

module _ (arrange : List CachedPodInfo → List CachedPodInfo) where
  abbrev pub to_evict : ℕ → ℕ
  to_evict n = if ltb (n / 10) 1 then 1 else n / 10

  unfoldable pub evict_oldest : List CachedPodInfo → List CachedPodInfo
  unfolding evict
  evict_oldest cache = evict (to_evict (length cache)) (arrange cache) cache

  -- The update of the cache.
  unfoldable pub remember : CachedPodInfo → ProcessMapper → ProcessMapper
  unfolding evict_oldest
  remember e m =
      let cache' = put e m.cache in
      record m { cache = if ltb m.max_cache (length cache') then evict_oldest cache' else cache' }

-- What `parseCgroup` finds: no such process, another error, or a container's identifier, which is
-- empty for a process of the host.
pub data Cgroup : Type 0 where
  no_process unreadable : Cgroup
  in_container : List ℕ → Cgroup

pub record Call : Type 0 where
  pub pid : ℤ
  pub now : ℕ
  pub cgroup : Cgroup
  pub pods : Option (List Pod)

-- The answer of `GetPodForPID`: an error, or a pod if there is one.
pub data PodAnswer : Type 0 where
  invalid_pid cgroup_failed lookup_failed : PodAnswer
  pod : Option PodInfo → PodAnswer

-- The cached information, or what is said without it.
abbrev pub or_cached : Option CachedPodInfo → PodAnswer → PodAnswer
or_cached none answer = answer
or_cached (some e) answer = pod (some e.info)

abbrev pub is_fresh : ProcessMapper → ℕ → CachedPodInfo → Bool
is_fresh m now e = ltz (sub_time now e.cached_at) m.stale_ttl

-- The operations: a call, a refresh with the pods of the moment, and the clearing of the cache.
pub data Operation : Type 0 where
  get : Call → Operation
  refresh : Option (List Pod) → Operation
  clear_cache : Operation

abbrev pub or_same : ProcessMapper → Option ProcessMapper → ProcessMapper
or_same m none = m
or_same m (some m') = m'

module _ (arrange : List CachedPodInfo → List CachedPodInfo) where
  unfoldable pub after_lookup :
      ℕ
      → ℕ
      → Option CachedPodInfo
      → ProcessMapper
      → Lookup × ProcessMapper
      → PodAnswer × ProcessMapper
  unfolding remember
  after_lookup pid now cached m (list_failed, m') = (or_cached cached lookup_failed, m')
  after_lookup pid now cached m (looked_up none, m') = (pod none, m')
  after_lookup pid now cached m (looked_up (some info), m') =
      (pod (some info), remember arrange (record { pid = pid; info = info; cached_at = now }) m')

  unfoldable pub resolve :
      ℕ
      → ℕ
      → Option (List Pod)
      → Option CachedPodInfo
      → Cgroup
      → ProcessMapper
      → PodAnswer × ProcessMapper
  unfolding after_lookup lookup_pod_by_container_id
  resolve pid now pods cached no_process m = (or_cached cached (pod none), m)
  resolve pid now pods cached unreadable m = (or_cached cached cgroup_failed, m)
  resolve pid now pods cached (in_container []) m = (pod none, m)
  resolve pid now pods cached (in_container (c ∷ id)) m =
      after_lookup pid now cached m (lookup_pod_by_container_id (c ∷ id) pods m)

  unfoldable pub with_cache :
      ℕ
      → ℕ
      → Option (List Pod)
      → Option CachedPodInfo
      → Cgroup
      → ProcessMapper
      → PodAnswer × ProcessMapper
  unfolding resolve
  with_cache pid now pods none cgroup m = resolve pid now pods none cgroup m
  with_cache pid now pods (some e) cgroup m =
      if is_fresh m now e then (pod (some e.info), m) else resolve pid now pods (some e) cgroup m

  abbrev pub for_pid : ℤ → Call → ProcessMapper → PodAnswer × ProcessMapper
  for_pid (negsuc n) c m = (invalid_pid, m)
  for_pid (pos zero) c m = (invalid_pid, m)
  for_pid (pos (suc n)) c m =
      with_cache (suc n) c.now c.pods (find_cached (suc n) m.cache) c.cgroup m

  unfoldable pub get_pod_for_pid : Call → ProcessMapper → PodAnswer × ProcessMapper
  unfolding with_cache
  get_pod_for_pid c m = for_pid c.pid c m

  unfoldable pub operate : ProcessMapper → Operation → ProcessMapper
  unfolding get_pod_for_pid refresh_pod_cache
  operate m (get c) = (get_pod_for_pid c m).1
  operate m (refresh pods) = or_same m (refresh_pod_cache pods m)
  operate m clear_cache = record m { cache = [] }

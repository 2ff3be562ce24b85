-- ===== src/Events/Mapper/Outcomes.antt =====
-- What one lookup of pkg/events/process_mapper.go answers and does to the cache.
use mathlib.Core.Path.{subst}
use k8s_gpu_mcp_server.Base.{
  ℕ, suc, ◌≡◌, ◌≢◌, refl, sym, not, Option, none, some, List, [], ◌∷◌, Bool-cases, inl, inr, arith,
  if◌then◌else◌,
}
use k8s_gpu_mcp_server.Base.Int.{pos}
use k8s_gpu_mcp_server.Events.Mapper.{
  ProcessMapper, CachedPodInfo, PodInfo, Pod, Cgroup, Call, PodAnswer, pod, no_process, unreadable,
  in_container, cgroup_failed, lookup_failed, Lookup, list_failed, looked_up, for_pid, find_cached,
  find_pod, refresh_pod_cache, with_pods, lookup_pod_by_container_id, or_refresh, after_refresh,
  after_lookup, resolve, with_cache, is_fresh, get_pod_for_pid, or_same, or_cached, remember,
}

-- The same entries and the same limit.
pub record SameCache (m m' : ProcessMapper) : Type 0 where
  pub entries : m'.cache ≡ m.cache
  pub limit : m'.max_cache ≡ m.max_cache

pub unchanged : {m : ProcessMapper} → SameCache m m
unchanged = record { entries = refl; limit = refl }

with_pods-SameCache :
    (m : ProcessMapper) (pods : Option (List Pod)) → SameCache m (or_same m (with_pods pods m))
unfolding with_pods
with_pods-SameCache m none = unchanged
with_pods-SameCache m (some ps) = record { entries = refl; limit = refl }

pub refresh-SameCache :
    (m : ProcessMapper) (pods : Option (List Pod))
    → SameCache m (or_same m (refresh_pod_cache pods m))
unfolding refresh_pod_cache
refresh-SameCache m pods = elim (Bool-cases m.has_client) [
  | inl p ↦
      subst (λ b. SameCache m (or_same m (if not b then some m else with_pods pods m))) (sym p)
        (with_pods-SameCache m pods)
  | inr n ↦
      subst (λ b. SameCache m (or_same m (if not b then some m else with_pods pods m))) (sym n)
        unchanged
]

after_refresh-same :
    (id : List ℕ) (m : ProcessMapper) (o : Option ProcessMapper)
    → (after_refresh id m o).1 ≡ or_same m o
after_refresh-same id m none = refl
after_refresh-same id m (some m') = refl

lookup-SameCache :
    (id : List ℕ) (pods : Option (List Pod)) (m : ProcessMapper) (found : Option PodInfo)
    → SameCache m (or_refresh found id pods m).1
unfolding or_refresh
lookup-SameCache id pods m (some info) = unchanged
lookup-SameCache id pods m none =
    subst (SameCache m) (sym (after_refresh-same id m (refresh_pod_cache pods m)))
      (refresh-SameCache m pods)

module _ (arrange : List CachedPodInfo → List CachedPodInfo) where
  -- What a lookup of a process does: it answers from the cache or without a pod, and keeps the cache;
  -- or it answers with a pod that it remembers.
  pub data Outcome (pid : ℕ) (m : ProcessMapper) (r : PodAnswer × ProcessMapper) : Type 0 where
    from_cache :
        (e : CachedPodInfo)
        → find_cached pid m.cache ≡ some e
        → r.0 ≡ pod (some e.info)
        → SameCache m r.1
        → Outcome pid m r
    no_pod : ((info : PodInfo) → r.0 ≢ pod (some info)) → SameCache m r.1 → Outcome pid m r
    stored :
        (e : CachedPodInfo) (m' : ProcessMapper)
        → e.pid ≡ pid
        → SameCache m m'
        → r ≡ (pod (some e.info), remember arrange e m')
        → Outcome pid m r

  -- Without news of the pod the cached entry answers, if there is one.
  or_cached-Outcome :
      (pid : ℕ) (m m' : ProcessMapper) (o : Option CachedPodInfo) (answer : PodAnswer)
      → find_cached pid m.cache ≡ o
      → ((info : PodInfo) → answer ≢ pod (some info))
      → SameCache m m'
      → Outcome pid m (or_cached o answer, m')
  or_cached-Outcome pid m m' none answer f n s = no_pod n s
  or_cached-Outcome pid m m' (some e) answer f n s = from_cache e f refl s

  after_lookup-Outcome :
      (pid now : ℕ) (m m' : ProcessMapper) (o : Option CachedPodInfo) (l : Lookup)
      → find_cached pid m.cache ≡ o
      → SameCache m m'
      → Outcome pid m (after_lookup arrange pid now o m (l, m'))
  unfolding after_lookup
  after_lookup-Outcome pid now m m' o list_failed f s =
      or_cached-Outcome pid m m' o lookup_failed f (λ info e. ground (arith, e)) s
  after_lookup-Outcome pid now m m' o (looked_up none) f s = no_pod (λ info e. ground (arith, e)) s
  after_lookup-Outcome pid now m m' o (looked_up (some info)) f s = stored _ m' refl s refl

  resolve-Outcome :
      (pid now : ℕ) (pods : Option (List Pod)) (o : Option CachedPodInfo) (cgroup : Cgroup)
      (m : ProcessMapper)
      → find_cached pid m.cache ≡ o
      → Outcome pid m (resolve arrange pid now pods o cgroup m)
  unfolding resolve lookup_pod_by_container_id
  resolve-Outcome pid now pods o no_process m f =
      or_cached-Outcome pid m m o (pod none) f (λ info e. ground (arith, e)) unchanged
  resolve-Outcome pid now pods o unreadable m f =
      or_cached-Outcome pid m m o cgroup_failed f (λ info e. ground (arith, e)) unchanged
  resolve-Outcome pid now pods o (in_container []) m f =
      no_pod (λ info e. ground (arith, e)) unchanged
  resolve-Outcome pid now pods o (in_container (c ∷ id)) m f =
      after_lookup-Outcome pid now m _ o _ f
        (lookup-SameCache (c ∷ id) pods m (find_pod (c ∷ id) m.pod_cache))

  with_cache-Outcome :
      (pid now : ℕ) (pods : Option (List Pod)) (o : Option CachedPodInfo) (cgroup : Cgroup)
      (m : ProcessMapper)
      → find_cached pid m.cache ≡ o
      → Outcome pid m (with_cache arrange pid now pods o cgroup m)
  unfolding with_cache
  with_cache-Outcome pid now pods none cgroup m f = resolve-Outcome pid now pods none cgroup m f
  with_cache-Outcome pid now pods (some e) cgroup m f = elim (Bool-cases (is_fresh m now e)) [
    | inl p ↦ rw p (from_cache e f refl unchanged)
    | inr n ↦ rw n (resolve-Outcome pid now pods (some e) cgroup m f)
  ]

  pub get-Outcome :
      (m : ProcessMapper) (c : Call) (pid : ℕ)
      → c.pid ≡ pos (suc pid)
      → Outcome (suc pid) m (get_pod_for_pid arrange c m)
  unfolding get_pod_for_pid
  get-Outcome m c pid p =
      subst (λ z. Outcome (suc pid) m (for_pid arrange z c m)) (sym p)
        (with_cache-Outcome (suc pid) c.now c.pods _ c.cgroup m refl)

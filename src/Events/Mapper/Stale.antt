-- ===== src/Events/Mapper/Stale.antt =====
-- What pkg/events/process_mapper.go answers for a process that is in its cache.
use k8s_gpu_mcp_server.Base.{
  ℕ, suc, ◌≡◌, ◌⊎◌, not, refl, ap, ◌∙◌, true, Option, none, some, List, [], ◌∷◌, Bool-cases, inl,
  inr, arith, if◌then◌else◌,
}
use k8s_gpu_mcp_server.Base.Int.{pos}
use k8s_gpu_mcp_server.Events.Mapper.{
  ProcessMapper, CachedPodInfo, Pod, Cgroup, Call, pod, no_process, unreadable, in_container,
  for_pid, find_cached, find_pod, refresh_pod_cache, with_pods, lookup_pod_by_container_id,
  or_refresh, after_refresh, after_lookup, resolve, with_cache, is_fresh, get_pod_for_pid,
  list_failed,
}

-- The pod of a container cannot be found out: its process is gone or cannot be read, or the pods
-- cannot be listed.
pub data Unresolved (m : ProcessMapper) : Cgroup → Option (List Pod) → Type 0 where
  gone : {pods : Option (List Pod)} → Unresolved m no_process pods
  closed : {pods : Option (List Pod)} → Unresolved m unreadable pods
  unlisted :
      {c : ℕ} {id : List ℕ}
      → m.has_client ≡ true
      → find_pod (c ∷ id) m.pod_cache ≡ none
      → Unresolved m (in_container (c ∷ id)) none

module _ (arrange : List CachedPodInfo → List CachedPodInfo) where
  unlisted_lookup :
      (m : ProcessMapper) (c : ℕ) (id : List ℕ)
      → m.has_client ≡ true
      → find_pod (c ∷ id) m.pod_cache ≡ none
      → lookup_pod_by_container_id (c ∷ id) none m ≡ (list_failed, m)
  unfolding lookup_pod_by_container_id or_refresh refresh_pod_cache with_pods
  unlisted_lookup m c id client e =
      ap (λ o. or_refresh o (c ∷ id) none m) e
      ∙ ap (λ b. after_refresh (c ∷ id) m (if not b then some m else none)) client

  resolve-Unresolved :
      (pid now : ℕ) (pods : Option (List Pod)) (e : CachedPodInfo) (cgroup : Cgroup)
      (m : ProcessMapper)
      → Unresolved m cgroup pods
      → resolve arrange pid now pods (some e) cgroup m ≡ (pod (some e.info), m)
  unfolding resolve after_lookup
  resolve-Unresolved pid now pods e no_process m gone = refl
  resolve-Unresolved pid now pods e unreadable m closed = refl
  resolve-Unresolved pid now none e (in_container []) m h = elim h [ ]
  resolve-Unresolved pid now (some ps) e (in_container id) m h = elim h [ ]
  resolve-Unresolved pid now none e (in_container (c ∷ id)) m (unlisted client f) =
      ap (after_lookup arrange pid now (some e) m) (unlisted_lookup m c id client f)

  -- For a process in the cache, GetPodForPID answers with the cached pod and changes nothing, if the
  -- entry is younger than the limit, or else if the process is gone or cannot be read, or the pods
  -- cannot be listed.
  pub get_pod_for_pid-cached_answer :
      (m : ProcessMapper) (c : Call) (pid : ℕ) {e : CachedPodInfo}
      → c.pid ≡ pos (suc pid)
      → find_cached (suc pid) m.cache ≡ some e
      → (is_fresh m c.now e ≡ true) ⊎ Unresolved m c.cgroup c.pods
      → get_pod_for_pid arrange c m ≡ (pod (some e.info), m)
  unfolding get_pod_for_pid with_cache
  get_pod_for_pid-cached_answer m c pid {e} p f h =
      ap (λ z. for_pid arrange z c m) p
      ∙ ap (λ o. with_cache arrange (suc pid) c.now c.pods o c.cgroup m) f
      ∙ elim (Bool-cases (is_fresh m c.now e)) [
        | inl y ↦ rw y refl
        | inr o ↦ rw o (elim h [
          | inl y ↦ absurd (ground (arith, y, o))
          | inr u ↦ resolve-Unresolved (suc pid) c.now c.pods e c.cgroup m u
        ])
      ]

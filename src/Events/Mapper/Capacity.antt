-- ===== src/Events/Mapper/Capacity.antt =====
-- The cache of pkg/events/process_mapper.go never holds more than its limit.
use mathlib.Core.List.{Memᴰ}
use mathlib.Core.Path.{subst}
use k8s_gpu_mcp_server.Base.{
  ℕ, zero, suc, ◌+◌, ◌<◌, ◌≤◌, ◌≡◌, refl, sym, ap, Bool, not, Option, none, some, List, [], ◌∷◌,
  Bool-cases, inl, inr, arith, length, foldl, ltb, if◌then◌else◌,
}
use k8s_gpu_mcp_server.Base.Int.{ℤ, pos, negsuc}
use k8s_gpu_mcp_server.Events.Mapper.{
  ProcessMapper, CachedPodInfo, PodInfo, Pod, Cgroup, Call, Operation, get, refresh, clear_cache,
  Lookup, list_failed, looked_up, new_process_mapper, size_option, delete_pid, put, scan_oldest,
  without, evict, to_evict, evict_oldest, remember, find_pod, find_cached, after_refresh,
  or_refresh, with_pods, refresh_pod_cache, lookup_pod_by_container_id, after_lookup, resolve,
  with_cache, is_fresh, for_pid, get_pod_for_pid, operate, or_same, no_process, unreadable,
  in_container,
}

-- An order in which a map is iterated: every entry once.
pub record Arranges (arrange : List CachedPodInfo → List CachedPodInfo) : Type 0 where
  pub same_length : (es : List CachedPodInfo) → length (arrange es) ≡ length es
  pub adds_none : (es : List CachedPodInfo) (e : CachedPodInfo) → Memᴰ e (arrange es) → Memᴰ e es

pub length-delete_pid : (pid : ℕ) (es : List CachedPodInfo) → length (delete_pid pid es) ≤ length es
length-delete_pid pid [] = omega arith
length-delete_pid pid (e ∷ es) = ground (arith, length-delete_pid pid es)

delete_pid-shrinks :
    (e : CachedPodInfo) (es : List CachedPodInfo)
    → Memᴰ e es
    → length (delete_pid e.pid es) < length es
delete_pid-shrinks e [] m = elim m [ ]
delete_pid-shrinks e (x ∷ es) (Memᴰ.head p) =
    let same : e.pid ≡ x.pid = ap (λ y. y.pid) p in ground (arith, same, length-delete_pid e.pid es)
delete_pid-shrinks e (x ∷ es) (Memᴰ.tail m) = ground (arith, delete_pid-shrinks e es m)

-- The scan ends at an entry.
scan_oldest-member :
    (i j : ℕ) (best : CachedPodInfo) (es : List CachedPodInfo)
    → Memᴰ (scan_oldest (i, best) j es).1 (best ∷ es)
unfolding scan_oldest
scan_oldest-member i j best [] = Memᴰ.head refl
scan_oldest-member i j best (e ∷ es) = elim (Bool-cases (ltb e.cached_at best.cached_at)) [
  | inl p ↦ rw p (Memᴰ.tail (scan_oldest-member j (j + 1) e es))
  | inr n ↦ rw n (skip (scan_oldest-member i (j + 1) best es))
]
  where
    skip : {x : CachedPodInfo} → Memᴰ x (best ∷ es) → Memᴰ x (best ∷ e ∷ es)
    skip (Memᴰ.head p) = Memᴰ.head p
    skip (Memᴰ.tail m) = Memᴰ.tail (Memᴰ.tail m)

length-evict :
    (n : ℕ) (entries cache : List CachedPodInfo) → length (evict n entries cache) ≤ length cache
unfolding evict
length-evict zero entries cache = omega arith
length-evict (suc n) [] cache = omega arith
length-evict (suc n) (e ∷ es) cache =
    let (k, oldest) = scan_oldest (0, e) 1 es in
    omega (
      arith,
      length-delete_pid oldest.pid cache,
      length-evict n (without k e es) (delete_pid oldest.pid cache),
    )

evict-shrinks :
    (n : ℕ) (entries cache : List CachedPodInfo)
    → 0 < n
    → 0 < length entries
    → ((e : CachedPodInfo) → Memᴰ e entries → Memᴰ e cache)
    → length (evict n entries cache) < length cache
unfolding evict
evict-shrinks zero entries cache p q h = absurd (omega arith)
evict-shrinks (suc n) [] cache p q h = absurd (omega arith)
evict-shrinks (suc n) (e ∷ es) cache p q h =
    let (k, oldest) = scan_oldest (0, e) 1 es in
    omega (
      arith,
      delete_pid-shrinks oldest cache (h oldest (scan_oldest-member 0 1 e es)),
      length-evict n (without k e es) (delete_pid oldest.pid cache),
    )

module _ (arrange : List CachedPodInfo → List CachedPodInfo) (fair : Arranges arrange) where
  -- The limit is positive and kept.
  pub record Bounded (m : ProcessMapper) : Type 0 where
    pub room : 0 < m.max_cache
    pub within : length m.cache ≤ m.max_cache

  length-evict_oldest :
      (cache : List CachedPodInfo)
      → 0 < length cache
      → length (evict_oldest arrange cache) < length cache
  unfolding evict_oldest
  length-evict_oldest cache h =
      evict-shrinks (to_evict arrange (length cache)) (arrange cache) cache (ground arith)
        (omega (arith, fair.same_length cache)) (fair.adds_none cache)

  remember-Bounded :
      (e : CachedPodInfo) (m : ProcessMapper) → Bounded m → Bounded (remember arrange e m)
  unfolding remember
  remember-Bounded e m h = record {
    room = h.room;
    within =
        let cache' = put e m.cache in
        let fewer = length-delete_pid e.pid m.cache in
        elim (Bool-cases (ltb m.max_cache (length cache'))) [
          | inl p ↦ rw p (omega (arith, length-evict_oldest cache', fewer, h.within))
          | inr n ↦ rw n (ground (arith, n))
        ];
  }

  same-Bounded :
      (m m' : ProcessMapper)
      → m'.cache ≡ m.cache
      → m'.max_cache ≡ m.max_cache
      → Bounded m
      → Bounded m'
  same-Bounded m m' e f h = record { room = rw f h.room; within = rw (e, f) h.within }

  or_same-Bounded :
      (m : ProcessMapper) (pods : Option (List Pod))
      → Bounded m
      → Bounded (or_same m (refresh_pod_cache pods m))
  unfolding refresh_pod_cache with_pods
  or_same-Bounded m pods h = elim (Bool-cases m.has_client) [
    | inl p ↦
        subst (λ b. Bounded (or_same m (if not b then some m else with_pods pods m))) (sym p)
          (listed pods)
    | inr n ↦
        subst (λ b. Bounded (or_same m (if not b then some m else with_pods pods m))) (sym n) h
  ]
    where
      listed : (ps : Option (List Pod)) → Bounded (or_same m (with_pods ps m))
      listed none = h
      listed (some ps) = same-Bounded m _ refl refl h

  after_refresh-same :
      (id : List ℕ) (m : ProcessMapper) (o : Option ProcessMapper)
      → (after_refresh id m o).1 ≡ or_same m o
  after_refresh-same id m none = refl
  after_refresh-same id m (some m') = refl

  lookup-Bounded :
      (id : List ℕ) (pods : Option (List Pod)) (m : ProcessMapper) (found : Option PodInfo)
      → Bounded m
      → Bounded (or_refresh found id pods m).1
  unfolding or_refresh
  lookup-Bounded id pods m (some info) h = h
  lookup-Bounded id pods m none h =
      subst Bounded (sym (after_refresh-same id m (refresh_pod_cache pods m)))
        (or_same-Bounded m pods h)

  after_lookup-Bounded :
      (pid now : ℕ) (cached : Option CachedPodInfo) (m : ProcessMapper) (l : Lookup)
      (m' : ProcessMapper)
      → Bounded m'
      → Bounded (after_lookup arrange pid now cached m (l, m')).1
  unfolding after_lookup
  after_lookup-Bounded pid now cached m list_failed m' h = h
  after_lookup-Bounded pid now cached m (looked_up none) m' h = h
  after_lookup-Bounded pid now cached m (looked_up (some info)) m' h = remember-Bounded _ m' h

  resolve-Bounded :
      (pid now : ℕ) (pods : Option (List Pod)) (cached : Option CachedPodInfo) (cgroup : Cgroup)
      (m : ProcessMapper)
      → Bounded m
      → Bounded (resolve arrange pid now pods cached cgroup m).1
  unfolding resolve lookup_pod_by_container_id
  resolve-Bounded pid now pods cached no_process m h = h
  resolve-Bounded pid now pods cached unreadable m h = h
  resolve-Bounded pid now pods cached (in_container []) m h = h
  resolve-Bounded pid now pods cached (in_container (c ∷ id)) m h =
      after_lookup-Bounded pid now cached m _ _
        (lookup-Bounded (c ∷ id) pods m (find_pod (c ∷ id) m.pod_cache) h)

  with_cache-Bounded :
      (pid now : ℕ) (pods : Option (List Pod)) (cached : Option CachedPodInfo) (cgroup : Cgroup)
      (m : ProcessMapper)
      → Bounded m
      → Bounded (with_cache arrange pid now pods cached cgroup m).1
  unfolding with_cache
  with_cache-Bounded pid now pods none cgroup m h = resolve-Bounded pid now pods none cgroup m h
  with_cache-Bounded pid now pods (some e) cgroup m h = elim (Bool-cases (is_fresh m now e)) [
    | inl p ↦ rw p h
    | inr n ↦ rw n (resolve-Bounded pid now pods (some e) cgroup m h)
  ]

  for_pid-Bounded :
      (pid : ℤ) (c : Call) (m : ProcessMapper) → Bounded m → Bounded (for_pid arrange pid c m).1
  for_pid-Bounded (negsuc n) c m h = h
  for_pid-Bounded (pos zero) c m h = h
  for_pid-Bounded (pos (suc n)) c m h =
      with_cache-Bounded (suc n) c.now c.pods (find_cached (suc n) m.cache) c.cgroup m h

  operate-Bounded : (m : ProcessMapper) (o : Operation) → Bounded m → Bounded (operate arrange m o)
  unfolding operate get_pod_for_pid
  operate-Bounded m (get c) h = for_pid-Bounded c.pid c m h
  operate-Bounded m (refresh pods) h = or_same-Bounded m pods h
  operate-Bounded m clear_cache h = record { room = h.room; within = omega arith }

  foldl-Bounded :
      (m : ProcessMapper) (os : List Operation) → Bounded m → Bounded (foldl (operate arrange) m os)
  foldl-Bounded m [] h = h
  foldl-Bounded m (o ∷ os) h = foldl-Bounded (operate arrange m o) os (operate-Bounded m o h)

  size_positive : (size : ℤ) → 0 < size_option size
  size_positive (pos zero) = omega arith
  size_positive (pos (suc n)) = omega arith
  size_positive (negsuc n) = omega arith

  -- If a map is iterated with every entry once, the cache of a new mapper is within its limit, which
  -- is positive, after any lookups, refreshes and clearings.
  pub new_process_mapper-Bounded :
      (has_client : Bool) (ttl size : ℤ) (os : List Operation)
      → Bounded (foldl (operate arrange) (new_process_mapper has_client ttl size) os)
  unfolding new_process_mapper
  new_process_mapper-Bounded has_client ttl size os =
      foldl-Bounded _ os (record { room = size_positive size; within = omega arith })

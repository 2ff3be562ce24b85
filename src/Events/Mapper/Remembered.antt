-- ===== src/Events/Mapper/Remembered.antt =====
-- What pkg/events/process_mapper.go still answers for a process that has gone.
use mathlib.Core.Path.{subst}
use k8s_gpu_mcp_server.Base.{
  ℕ, zero, suc, ◌+◌, ◌<◌, ◌≤◌, ◌≡◌, ◌≢◌, ◌⊎◌, refl, sym, ap, ◌∙◌, false, Option, some, List, [],
  ◌∷◌, Bool-cases, inl, inr, arith, All, length, foldl, ◌==◌, ltb, if◌then◌else◌,
}
use k8s_gpu_mcp_server.Base.Int.{ℤ, pos, negsuc}
use k8s_gpu_mcp_server.Events.Mapper.{
  ProcessMapper, CachedPodInfo, PodInfo, Pod, Cgroup, Call, Operation, get, refresh, clear_cache,
  PodAnswer, pod, no_process, unreadable, for_pid, find_cached, delete_pid, put, get_pod_for_pid,
  operate, remember, evict_oldest,
}
use k8s_gpu_mcp_server.Events.Mapper.Capacity.{length-delete_pid}
use k8s_gpu_mcp_server.Events.Mapper.Outcomes.{
  Outcome, from_cache, no_pod, stored, SameCache, unchanged, refresh-SameCache, get-Outcome,
}
use k8s_gpu_mcp_server.Events.Mapper.Stale.{Unresolved, gone, closed, get_pod_for_pid-cached_answer}

find_cached-delete_pid :
    (pid other : ℕ) (es : List CachedPodInfo)
    → pid ≢ other
    → find_cached pid (delete_pid other es) ≡ find_cached pid es
find_cached-delete_pid pid other [] n = refl
find_cached-delete_pid pid other (e ∷ es) n = ground (arith, find_cached-delete_pid pid other es n)

-- The control group of a process that has gone: it is not there, or cannot be read.
abbrev pub Gone : Cgroup → Type 0
Gone cgroup = (cgroup ≡ no_process) ⊎ (cgroup ≡ unreadable)

-- Anything but a clearing of the cache; a lookup of this process finds it gone.
abbrev pub Spares : ℕ → Operation → Type 0
Spares pid (get c) = c.pid ≡ pos pid → Gone c.cgroup
Spares pid (refresh pods) = Unit
Spares pid clear_cache = ⊥

-- The cache holds a pod for a process, and has room for `n` more entries.
record Holds (pid : ℕ) (info : PodInfo) (n : ℕ) (m : ProcessMapper) : Type 0 where
  held : (e : CachedPodInfo) × (find_cached pid m.cache ≡ some e) × (e.info ≡ info)
  room : length m.cache + n ≤ m.max_cache

SameCache-Holds :
    {pid n : ℕ} {info : PodInfo} {m m' : ProcessMapper}
    → SameCache m m'
    → Holds pid info (suc n) m
    → Holds pid info n m'
SameCache-Holds s h = record {
  held = (h.held.0, rw (s.entries) (h.held.1), h.held.2);
  room = rw (s.entries, s.limit) (omega (arith, h.room));
}

module _ (arrange : List CachedPodInfo → List CachedPodInfo) where
  -- With room the cache of the mapper afterwards has the entry in front.
  remember-cache :
      (e : CachedPodInfo) (m : ProcessMapper)
      → length m.cache < m.max_cache
      → (remember arrange e m).cache ≡ put e m.cache
  unfolding remember
  remember-cache e m h =
      let fewer = length-delete_pid e.pid m.cache in
      let fits : ltb m.max_cache (length (put e m.cache)) ≡ false = ground (arith, fewer) in
      ap (λ b. if b then evict_oldest arrange (put e m.cache) else put e m.cache) fits

  remember-limit :
      (e : CachedPodInfo) (m : ProcessMapper) → (remember arrange e m).max_cache ≡ m.max_cache
  unfolding remember
  remember-limit e m = refl

  room-remember :
      (e : CachedPodInfo) (m m' : ProcessMapper) (n : ℕ)
      → SameCache m m'
      → length m.cache + suc n ≤ m.max_cache
      → length m'.cache < m'.max_cache
        × (length (remember arrange e m').cache + n ≤ (remember arrange e m').max_cache)
  room-remember e m m' n s h =
      let free : length m'.cache < m'.max_cache = rw (s.entries, s.limit) (omega (arith, h)) in
      (
        free,
        rw (remember-cache e m' free, remember-limit e m', s.limit, s.entries)
            (omega (arith, h, length-delete_pid e.pid m.cache)),
      )

  -- The process that is remembered is held.
  remember-Holds :
      (e : CachedPodInfo) (m m' : ProcessMapper) (n : ℕ)
      → SameCache m m'
      → length m.cache + suc n ≤ m.max_cache
      → Holds e.pid e.info n (remember arrange e m')
  remember-Holds e m m' n s h =
      let (free, kept) = room-remember e m m' n s h in
      record { held = (e, rw (remember-cache e m' free) (ground arith), refl); room = kept }

  -- And no other is forgotten.
  remember-keeps :
      (e : CachedPodInfo) (m m' : ProcessMapper) (pid n : ℕ) (info : PodInfo)
      → SameCache m m'
      → pid ≢ e.pid
      → Holds pid info (suc n) m
      → Holds pid info n (remember arrange e m')
  remember-keeps e m m' pid n info s d h =
      let (free, kept) = room-remember e m m' n s h.room in
      record {
        held = (
          h.held.0,
          rw (remember-cache e m' free, s.entries)
              (ground (arith, d, find_cached-delete_pid pid e.pid m.cache d, h.held.1)),
          h.held.2,
        );
        room = kept;
      }

  outcome-Holds :
      (pid n : ℕ) (info : PodInfo) (m : ProcessMapper) (r : PodAnswer × ProcessMapper)
      → Outcome arrange pid m r
      → r.0 ≡ pod (some info)
      → length m.cache + suc n ≤ m.max_cache
      → Holds pid info n r.1
  outcome-Holds pid n info m r (from_cache e f q s) a h =
      SameCache-Holds s (record { held = (e, f, ground (arith, q, a)); room = h })
  outcome-Holds pid n info m r (no_pod f s) a h = absurd (f info a)
  outcome-Holds pid n info m r (stored e m' same s q) a h =
      let told : e.info ≡ info = ground (arith, ap (λ x. x.0) q, a) in
      subst (λ x. Holds pid info n x.1) (sym q)
        (subst (λ i. Holds pid i n (remember arrange e m')) told
          (subst (λ k. Holds k e.info n (remember arrange e m')) same
            (remember-Holds e m m' n s h)))

  -- A lookup of another process leaves it held.
  outcome-keeps :
      (pid other n : ℕ) (info : PodInfo) (m : ProcessMapper) (r : PodAnswer × ProcessMapper)
      → Outcome arrange other m r
      → pid ≢ other
      → Holds pid info (suc n) m
      → Holds pid info n r.1
  outcome-keeps pid other n info m r (from_cache e f q s) d h = SameCache-Holds s h
  outcome-keeps pid other n info m r (no_pod f s) d h = SameCache-Holds s h
  outcome-keeps pid other n info m r (stored e m' same s q) d h =
      subst (λ x. Holds pid info n x.1) (sym q)
        (remember-keeps e m m' pid n info s (λ eq. d (eq ∙ same)) h)

  Gone-Unresolved :
      (m : ProcessMapper) (cgroup : Cgroup) (pods : Option (List Pod))
      → Gone cgroup
      → Unresolved m cgroup pods
  Gone-Unresolved m cgroup pods (inl e) = subst (λ g. Unresolved m g pods) (sym e) gone
  Gone-Unresolved m cgroup pods (inr e) = subst (λ g. Unresolved m g pods) (sym e) closed

  answer_after_death :
      (m : ProcessMapper) (c : Call) (pid n : ℕ) (info : PodInfo)
      → c.pid ≡ pos (suc pid)
      → Gone c.cgroup
      → Holds (suc pid) info n m
      → get_pod_for_pid arrange c m ≡ (pod (some info), m)
  answer_after_death m c pid n info p g h =
      get_pod_for_pid-cached_answer arrange m c pid {e = h.held.0} p (h.held.1)
        (inr (Gone-Unresolved m c.cgroup c.pods g))
      ∙ ap (λ i. (pod (some i), m)) (h.held.2)

  get-Holds :
      (m : ProcessMapper) (c : Call) (z : ℤ) (pid n : ℕ) (info : PodInfo)
      → c.pid ≡ z
      → (c.pid ≡ pos (suc pid) → Gone c.cgroup)
      → Holds (suc pid) info (suc n) m
      → Holds (suc pid) info n (get_pod_for_pid arrange c m).1
  unfolding get_pod_for_pid
  get-Holds m c (negsuc k) pid n info e s h =
      subst (λ z. Holds (suc pid) info n (for_pid arrange z c m).1) (sym e)
        (SameCache-Holds unchanged h)
  get-Holds m c (pos zero) pid n info e s h =
      subst (λ z. Holds (suc pid) info n (for_pid arrange z c m).1) (sym e)
        (SameCache-Holds unchanged h)
  get-Holds m c (pos (suc q)) pid n info e s h = elim (Bool-cases (q == pid)) [
    | inl y ↦
        let same : c.pid ≡ pos (suc pid) = ground (arith, e, y) in
        subst (λ r. Holds (suc pid) info n r.1)
          (sym (answer_after_death m c pid _ info same (s same) h)) (SameCache-Holds unchanged h)
    | inr d ↦
        outcome-keeps (suc pid) (suc q) n info m _ (get-Outcome arrange m c q e) (ground (arith, d))
          h
  ]

  operate-Holds :
      (m : ProcessMapper) (op : Operation) (pid n : ℕ) (info : PodInfo)
      → Spares (suc pid) op
      → Holds (suc pid) info (suc n) m
      → Holds (suc pid) info n (operate arrange m op)
  unfolding operate
  operate-Holds m (get c) pid n info s h = get-Holds m c c.pid pid n info refl s h
  operate-Holds m (refresh pods) pid n info s h = SameCache-Holds (refresh-SameCache m pods) h
  operate-Holds m clear_cache pid n info s h = absurd s

  foldl-Holds :
      (m : ProcessMapper) (ops : List Operation) (pid : ℕ) (info : PodInfo)
      → All (Spares (suc pid)) ops
      → Holds (suc pid) info (length ops) m
      → Holds (suc pid) info 0 (foldl (operate arrange) m ops)
  foldl-Holds m [] pid info s h = h
  foldl-Holds m (op ∷ ops) pid info (s, t) h =
      foldl-Holds (operate arrange m op) ops pid info t (operate-Holds m op pid _ info s h)

  -- Once GetPodForPID has answered with a pod for a process, it still does when the process has gone,
  -- however late, if after that the cache was not cleared, the process was only asked for when it had
  -- gone, and there was room in the cache for an entry of each operation. This answer changes nothing.
  pub get_pod_for_pid-PostMortem :
      (m : ProcessMapper) (first last : Call) (ops : List Operation) (pid : ℕ) (info : PodInfo)
      → first.pid ≡ pos (suc pid)
      → last.pid ≡ pos (suc pid)
      → Gone last.cgroup
      → length m.cache + length ops < m.max_cache
      → All (Spares (suc pid)) ops
      → (get_pod_for_pid arrange first m).0 ≡ pod (some info)
      → let m' = foldl (operate arrange) (get_pod_for_pid arrange first m).1 ops in
        get_pod_for_pid arrange last m' ≡ (pod (some info), m')
  get_pod_for_pid-PostMortem m first last ops pid info p q g room s a =
      let held =
        outcome-Holds (suc pid) (length ops) info m _ (get-Outcome arrange m first pid p) a
          (omega (arith, room)) in
      answer_after_death _ last pid 0 info q g (foldl-Holds _ ops pid info s held)

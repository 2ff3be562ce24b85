-- ===== src/Blackbox/Recorder/Sampled.antt =====
-- What the flight recorder of pkg/blackbox/recorder.go has of a device after its samples.
use mathlib.Core.Path.{subst}
use k8s_gpu_mcp_server.Base.{
  ℕ, zero, suc, replicate, ◌-◌, ◌≤◌, ◌≡◌, ◌⊎◌, inl, inr, refl, sym, ap, ◌∙◌, false, Option, none,
  some, List, [], ◌∷◌, ◌++◌, append-nil, append_assoc, foldl, filter, if◌then◌else◌, arith,
  Bool-cases, leb,
}
use k8s_gpu_mcp_server.Base.Texts.{eq_bytes, eq_bytes_sound}
use k8s_gpu_mcp_server.Base.Int.{pos}
use k8s_gpu_mcp_server.Blackbox.Config.{
  RecorderConfig, validate, buffer_capacity, validate-buffer_capacity,
}
use k8s_gpu_mcp_server.Blackbox.Ring.{RingBuffer, new_ring_buffer, add}
use k8s_gpu_mcp_server.Blackbox.Ring.Bounds.{new_ring_buffer-IsValid}
use k8s_gpu_mcp_server.Blackbox.Ring.Contents.{keep_last, contents}
use k8s_gpu_mcp_server.Blackbox.Ring.History.{push, apply, Holds, apply-Holds, empty-Holds}
use k8s_gpu_mcp_server.Blackbox.Ring.Queries.{InOrder, query-eq-filter}
use k8s_gpu_mcp_server.Blackbox.Snapshot.{GpuSnapshot}
use k8s_gpu_mcp_server.Blackbox.Recorder.{
  Recorder, zero_snapshot, new_recorder, sample_gpu, buffer_or_new, gpu_not_found, get_timeline,
  since_in, RecorderError,
}

-- The snapshots of one device among the answers to samples.
abbrev pub snapshots_of : List ℕ → List (Option GpuSnapshot) → List GpuSnapshot
snapshots_of uuid [] = []
snapshots_of uuid (none ∷ more) = snapshots_of uuid more
snapshots_of uuid (some s ∷ more) =
    if eq_bytes uuid s.uuid then s ∷ snapshots_of uuid more else snapshots_of uuid more

-- A buffer of some capacity that keeps a history, and no buffer while there is none.
Keeps : ℕ → List GpuSnapshot → Option (RingBuffer GpuSnapshot) → Type 0
Keeps n h none = h ≡ []
Keeps n h (some ring) = Holds h ring × (ring.capacity ≡ n)

abbrev new_buffer : ℕ → RingBuffer GpuSnapshot
new_buffer n = record {
  buf = replicate (suc n) zero_snapshot;
  head = 0;
  size = 0;
  capacity = suc n;
  full = false;
}

made : (n : ℕ) → new_ring_buffer zero_snapshot (pos (suc n)) ≡ some (new_buffer n)
unfolding new_ring_buffer
made n = refl

-- The buffer that a sample is added to, for a valid configuration.
buffer_or_new-Holds :
    (c : RecorderConfig) (n : ℕ) (h : List GpuSnapshot) (buffer : Option (RingBuffer GpuSnapshot))
    → buffer_capacity c ≡ pos n
    → 1 ≤ n
    → Keeps n h buffer
    → (ring : RingBuffer GpuSnapshot) × (buffer_or_new buffer c ≡ some ring)
      × (Holds h ring × (ring.capacity ≡ n))
unfolding Keeps
buffer_or_new-Holds c n h (some ring) e le k = (ring, refl, k)
buffer_or_new-Holds c zero h none e le k = absurd (omega arith)
buffer_or_new-Holds c (suc n) h none e le k =
    let (valid, empty, size) = new_ring_buffer-IsValid zero_snapshot (pos (suc n)) (made n) in
    (
      new_buffer n,
      ap (new_ring_buffer zero_snapshot) e ∙ made n,
      (
        subst (λ hs. Holds hs (new_buffer n)) (sym k) (empty-Holds (new_buffer n) valid empty),
        refl,
      ),
    )

-- What a recorder has, for a history of each device.
record Records (c : RecorderConfig) (n : ℕ) (h : List ℕ → List GpuSnapshot) (r : Recorder)
    : Type 0 where
  pub same_config : r.config ≡ c
  pub keeps : (uuid : List ℕ) → Keeps n (h uuid) (r.gpu_buffers uuid)

abbrev extend : (List ℕ → List GpuSnapshot) → GpuSnapshot → List ℕ → List GpuSnapshot
extend h s uuid = if eq_bytes uuid s.uuid then h uuid ++ s ∷ [] else h uuid

sample_gpu-Records :
    (c : RecorderConfig) (n : ℕ) (h : List ℕ → List GpuSnapshot) (r : Recorder) (s : GpuSnapshot)
    → buffer_capacity c ≡ pos n
    → 1 ≤ n
    → Records c n h r
    → Records c n (extend h s) (sample_gpu r (some s))
unfolding sample_gpu apply Keeps
sample_gpu-Records c n h r s e le k =
    let (ring, found, (held, cap_eq)) =
      buffer_or_new-Holds r.config n (h s.uuid) (r.gpu_buffers s.uuid)
        (ap buffer_capacity k.same_config ∙ e) le (k.keeps s.uuid) in
    let (held', cap_eq') = apply-Holds zero_snapshot (h s.uuid) ring (push s) held in
    rw found (record {
      same_config = k.same_config;
      keeps = λ uuid. elim (Bool-cases (eq_bytes uuid s.uuid)) [
        | inl p ↦
            let same : h s.uuid ≡ h uuid = ap h (sym (eq_bytes_sound uuid s.uuid p)) in
            rw p (subst (λ hs. Holds (hs ++ s ∷ []) (add s ring)) same held', cap_eq' ∙ cap_eq)
        | inr p ↦ rw p (k.keeps uuid)
      ];
    })

Records-cong :
    (c : RecorderConfig) (n : ℕ) (h k : List ℕ → List GpuSnapshot) (r : Recorder)
    → ((uuid : List ℕ) → h uuid ≡ k uuid)
    → Records c n h r
    → Records c n k r
Records-cong c n h k r e t = record {
  same_config = t.same_config;
  keeps = λ uuid. subst (λ hs. Keeps n hs (r.gpu_buffers uuid)) (e uuid) (t.keeps uuid);
}

extend-snapshots_of :
    (h : List ℕ → List GpuSnapshot) (s : GpuSnapshot) (more : List (Option GpuSnapshot))
    (uuid : List ℕ)
    → extend h s uuid ++ snapshots_of uuid more ≡ h uuid ++ snapshots_of uuid (some s ∷ more)
extend-snapshots_of h s more uuid = elim (Bool-cases (eq_bytes uuid s.uuid)) [
  | inl p ↦ rw p (append_assoc (h uuid) (s ∷ []) (snapshots_of uuid more))
  | inr p ↦ rw p refl
]

foldl-Records :
    (c : RecorderConfig) (n : ℕ) (h : List ℕ → List GpuSnapshot) (r : Recorder)
    (snaps : List (Option GpuSnapshot))
    → buffer_capacity c ≡ pos n
    → 1 ≤ n
    → Records c n h r
    → Records c n (λ uuid. h uuid ++ snapshots_of uuid snaps) (foldl sample_gpu r snaps)
unfolding sample_gpu
foldl-Records c n h r [] e le t =
    Records-cong c n h (λ uuid. h uuid ++ []) r (λ uuid. sym (append-nil (h uuid))) t
foldl-Records c n h r (none ∷ snaps) e le t = foldl-Records c n h r snaps e le t
foldl-Records c n h r (some s ∷ snaps) e le t =
    Records-cong c n (λ uuid. extend h s uuid ++ snapshots_of uuid snaps) _ _
      (extend-snapshots_of h s snaps)
      (foldl-Records c n (extend h s) (sample_gpu r (some s)) snaps e le
        (sample_gpu-Records c n h r s e le t))

-- What the timeline of a device is, for the snapshots that were taken of it.
abbrev pub TimelineFrom : ℕ → ℕ → List GpuSnapshot → RecorderError ⊎ List GpuSnapshot → Type 0
TimelineFrom n since taken answer =
    ((answer ≡ inl gpu_not_found) × (taken ≡ []))
    ⊎ (answer ≡ inr (filter (λ s. leb since s.timestamp) (keep_last n taken)))

since_in-TimelineFrom :
    (n since : ℕ) (h : List GpuSnapshot) (buffer : Option (RingBuffer GpuSnapshot))
    → Keeps n h buffer
    → InOrder (λ s. s.timestamp) (keep_last n h)
    → TimelineFrom n since h (since_in buffer since)
unfolding Keeps
since_in-TimelineFrom n since h none k o = inl (refl, k)
since_in-TimelineFrom n since h (some ring) (held, cap_eq) o =
    let here : contents ring ≡ keep_last n h = held.latest_items ∙ ap (λ m. keep_last m h) cap_eq in
    inr (
      ap inr (
        query-eq-filter zero_snapshot since (λ s. s.timestamp) ring held.valid
          (subst (InOrder (λ s. s.timestamp)) (sym here) o)
        ∙ ap (filter (λ s. leb since s.timestamp)) here))

unseen : (n : ℕ) (uuid : List ℕ) → Keeps n [] none
unfolding Keeps
unseen n uuid = refl

-- A recorder with a valid configuration, whose buffers have room for n snapshots, has after any
-- samples for a device the last n snapshots of it, if they are in the order of time: its timeline
-- is those of them that are not older than asked for, or the device is unknown and had none.
pub get_timeline-TimelineFrom :
    (c : RecorderConfig) (n : ℕ) (snaps : List (Option GpuSnapshot)) (uuid : List ℕ)
    (now duration : ℕ)
    → validate c ≡ none
    → buffer_capacity c ≡ pos n
    → InOrder (λ s. s.timestamp) (keep_last n (snapshots_of uuid snaps))
    → TimelineFrom n
        (now - duration)
        (snapshots_of uuid snaps)
        (get_timeline (foldl sample_gpu (new_recorder c) snaps) uuid now duration)
unfolding get_timeline
get_timeline-TimelineFrom c n snaps uuid now duration ok e o =
    let (m, size, least, most) = validate-buffer_capacity c ok in
    let positive : 1 ≤ n = ground (arith, sym size ∙ e, least) in
    let start : Records c n (λ u. []) (new_recorder c) = record {
      same_config = refl;
      keeps = unseen n;
    } in
    let t = foldl-Records c n (λ u. []) (new_recorder c) snaps e positive start in
    since_in-TimelineFrom n (now - duration) (snapshots_of uuid snaps) _ (t.keeps uuid) o

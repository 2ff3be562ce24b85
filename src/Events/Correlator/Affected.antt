-- ===== src/Events/Correlator/Affected.antt =====
-- The pods that pkg/events/correlator.go names as affected.
use mathlib.Core.List.{Memᴰ}
use k8s_gpu_mcp_server.Base.{
  ℕ, ◌≡◌, ◌≢◌, ◌↔◌, refl, sym, ap, ◌∙◌, true, false, not, ◌&&◌, List, [], ◌∷◌, ◌++◌, Option, none,
  some, arith, Bool-cases, inl, inr, any-append, foldl, if◌then◌else◌,
}
use k8s_gpu_mcp_server.Base.Texts.{str_eq}
use k8s_gpu_mcp_server.Events.Correlator.Types.{AffectedPod, CorrelatedIncident}
use k8s_gpu_mcp_server.Base.Texts.{eq_bytes, eq_bytes_sound, eq_bytes_refl}
use k8s_gpu_mcp_server.Events.Correlator.Pods.{
  pod_key, has_pod, add_pod, mentioned, identify_affected_pods,
}

-- The first pod with a key and a name.
abbrev pub first_named : List ℕ → List AffectedPod → Option AffectedPod
first_named key [] = none
first_named key (p ∷ ps) =
    if not (str_eq p.pod_name "") && eq_bytes key (pod_key p) then some p else first_named key ps

-- The pod of the map with a key.
abbrev pub lookup : List ℕ → List AffectedPod → Option AffectedPod
lookup key [] = none
lookup key (p ∷ ps) = if eq_bytes key (pod_key p) then some p else lookup key ps

abbrev or_else {ℓ} : {A : Type ℓ} → Option A → Option A → Option A
or_else none o = o
or_else (some a) o = some a

lookup-append :
    (key : List ℕ) (ps qs : List AffectedPod)
    → lookup key (ps ++ qs) ≡ or_else (lookup key ps) (lookup key qs)
lookup-append key [] qs = refl
lookup-append key (p ∷ ps) qs = ground (arith, lookup-append key ps qs)

has_pod-lookup :
    (key : List ℕ) (ps : List AffectedPod) → has_pod key ps ≡ false → lookup key ps ≡ none
has_pod-lookup key [] h = refl
has_pod-lookup key (p ∷ ps) h = ground (arith, has_pod-lookup key ps)

lookup-has_pod :
    (key : List ℕ) (ps : List AffectedPod) → has_pod key ps ≡ true → lookup key ps ≢ none
lookup-has_pod key [] h = ground arith
lookup-has_pod key (p ∷ ps) h = ground (arith, lookup-has_pod key ps)

has_pod-eq :
    (a b : List ℕ) (ps : List AffectedPod) → eq_bytes a b ≡ true → has_pod a ps ≡ has_pod b ps
has_pod-eq a b ps e = ap (λ k. has_pod k ps) (eq_bytes_sound a b e)

-- Adding a pod answers for its key only, and only if nothing did.
lookup-add_pod :
    (key : List ℕ) (ps : List AffectedPod) (p : AffectedPod)
    → lookup key (add_pod ps p) ≡ or_else (lookup key ps) (first_named key (p ∷ []))
unfolding add_pod
lookup-add_pod key ps p = ground (
  arith,
  lookup-append key ps (p ∷ []),
  has_pod-lookup key ps,
  lookup-has_pod key ps,
  has_pod-eq key (pod_key p) ps,
)

lookup-foldl :
    (key : List ℕ) (ps qs : List AffectedPod)
    → lookup key (foldl add_pod ps qs) ≡ or_else (lookup key ps) (first_named key qs)
lookup-foldl key ps [] = ground arith
lookup-foldl key ps (q ∷ qs) =
    ground (arith, lookup-foldl key (add_pod ps q) qs, lookup-add_pod key ps q)

-- No two pods have one key.
abbrev DistinctPods : List AffectedPod → Type 0
DistinctPods [] = Unit {0}
DistinctPods (p ∷ ps) = (has_pod (pod_key p) ps ≡ false) × DistinctPods ps

eq_bytes_comm : (a b : List ℕ) → eq_bytes a b ≡ eq_bytes b a
eq_bytes_comm [] [] = refl
eq_bytes_comm [] (y ∷ b) = refl
eq_bytes_comm (x ∷ a) [] = refl
eq_bytes_comm (x ∷ a) (y ∷ b) = ground (arith, eq_bytes_comm a b)

append-DistinctPods :
    (ps : List AffectedPod) (p : AffectedPod)
    → DistinctPods ps
    → has_pod (pod_key p) ps ≡ false
    → DistinctPods (ps ++ p ∷ [])
append-DistinctPods [] p d h = ground arith
append-DistinctPods (q ∷ ps) p d h = ground (
  arith,
  append-DistinctPods ps p,
  eq_bytes_comm (pod_key p) (pod_key q),
  any-append (λ r. eq_bytes (pod_key q) (pod_key r)) ps (p ∷ []),
)

add_pod-DistinctPods :
    (ps : List AffectedPod) (p : AffectedPod) → DistinctPods ps → DistinctPods (add_pod ps p)
unfolding add_pod
add_pod-DistinctPods ps p d = elim (Bool-cases (str_eq p.pod_name "")) [
  | inl a ↦ rw a d
  | inr a ↦ elim (Bool-cases (has_pod (pod_key p) ps)) [
    | inl b ↦ rw (a, b) d
    | inr b ↦ rw (a, b) (append-DistinctPods ps p d b)
  ]
]

foldl-DistinctPods :
    (ps qs : List AffectedPod) → DistinctPods ps → DistinctPods (foldl add_pod ps qs)
foldl-DistinctPods ps [] d = d
foldl-DistinctPods ps (q ∷ qs) d =
    foldl-DistinctPods (add_pod ps q) qs (add_pod-DistinctPods ps q d)

Mem-has_pod : (p : AffectedPod) (ps : List AffectedPod) → Memᴰ p ps → has_pod (pod_key p) ps ≡ true
Mem-has_pod p [] m = elim m [ ]
Mem-has_pod p (q ∷ ps) (Memᴰ.head e) =
    let same : eq_bytes (pod_key p) (pod_key q) ≡ true =
      ap (λ y. eq_bytes (pod_key p) (pod_key y)) (sym e) ∙ eq_bytes_refl (pod_key p) in
    ground (arith, same)
Mem-has_pod p (q ∷ ps) (Memᴰ.tail m) = ground (arith, Mem-has_pod p ps m)

Mem-lookup :
    (p : AffectedPod) (ps : List AffectedPod)
    → DistinctPods ps
    → Memᴰ p ps
    → lookup (pod_key p) ps ≡ some p
Mem-lookup p [] d m = elim m [ ]
Mem-lookup p (q ∷ ps) d (Memᴰ.head e) =
    let same : eq_bytes (pod_key p) (pod_key q) ≡ true =
      ap (λ y. eq_bytes (pod_key p) (pod_key y)) (sym e) ∙ eq_bytes_refl (pod_key p) in
    rw same (ap some (sym e))
Mem-lookup p (q ∷ ps) d (Memᴰ.tail m) =
    ground (arith, Mem-lookup p ps d.1 m, Mem-has_pod p ps m, has_pod-eq (pod_key p) (pod_key q) ps)

lookup-Mem :
    (key : List ℕ) (p : AffectedPod) (ps : List AffectedPod) → lookup key ps ≡ some p → Memᴰ p ps
lookup-Mem key p [] e = ground arith
lookup-Mem key p (q ∷ ps) e = elim (Bool-cases (eq_bytes key (pod_key q))) [
  | inl a ↦ Memᴰ.head (ground (arith, a, e))
  | inr a ↦ Memᴰ.tail (lookup-Mem key p ps (ground (arith, a, e)))
]

-- What `sort.Slice` promises of the elements.
pub record Rearranges (sort_slice : List AffectedPod → List AffectedPod) : Type 0 where
  pub adds_none : (ps : List AffectedPod) (p : AffectedPod) → Memᴰ p (sort_slice ps) → Memᴰ p ps
  pub keeps : (ps : List AffectedPod) (p : AffectedPod) → Memᴰ p ps → Memᴰ p (sort_slice ps)

-- A pod is among the affected ones exactly when it is the first pod with a name and with its key
-- that the incident mentions.
pub identify_affected_pods_iff :
    (sort_slice : List AffectedPod → List AffectedPod) (incident : CorrelatedIncident)
    (p : AffectedPod)
    → Rearranges sort_slice
    → Memᴰ p (identify_affected_pods sort_slice incident)
      ↔ (first_named (pod_key p) (mentioned incident) ≡ some p)
unfolding identify_affected_pods
identify_affected_pods_iff sort_slice incident p sorts =
    let pods = foldl add_pod [] (mentioned incident) in
    let found = lookup-foldl (pod_key p) [] (mentioned incident) in
    let distinct = foldl-DistinctPods [] (mentioned incident) (ground arith) in
    (
      λ m. sym found ∙ Mem-lookup p pods distinct (sorts.adds_none pods p m),
      λ e. sorts.keeps pods p (lookup-Mem (pod_key p) p pods (found ∙ e)),
    )

-- ===== src/Tools/Health/Worst.antt =====
-- The overall answer of pkg/tools/gpu_health.go is the worst of its devices.
use k8s_gpu_mcp_server.Base.{
  ℕ, ◌+◌, ◌≡◌, refl, Bool, true, false, List, [], ◌∷◌, ltb, if◌then◌else◌, arith, min, max, ◌==◌,
  filter, length, foldl,
}
use k8s_gpu_mcp_server.Tools.Health.Score.{is_critical}
use k8s_gpu_mcp_server.Tools.Health.Overall.{
  count_gpu, calculate_overall_health, empty_response, GpuHealthResponse, overall_status,
}
use k8s_gpu_mcp_server.Tools.Health.Types.{
  Status, critical, degraded, warning, healthy, Percents, GpuHealth,
}

abbrev pub is_degraded : Status → Bool
is_degraded degraded = true
is_degraded _ = false

abbrev pub is_warning : Status → Bool
is_warning warning = true
is_warning _ = false

abbrev pub is_healthy : Status → Bool
is_healthy healthy = true
is_healthy _ = false

module _ {fl : Percents} where
  abbrev pub count : (Status → Bool) → List (GpuHealth fl) → ℕ
  count p gpus = length (filter (λ g. p g.status) gpus)

  abbrev pub worst_score : ℕ → List (GpuHealth fl) → ℕ
  worst_score n [] = n
  worst_score n (g ∷ gpus) = worst_score (min n g.health_score) gpus

  -- The counts of a response are those of a list on top of others, and its score is the least.
  pub record Counted (r s : GpuHealthResponse fl) (gpus : List (GpuHealth fl)) : Type 0 where
    pub healthy_total : s.healthy_count ≡ r.healthy_count + count is_healthy gpus
    pub warning_total : s.warning_count ≡ r.warning_count + count is_warning gpus
    pub degraded_total : s.degraded_count ≡ r.degraded_count + count is_degraded gpus
    pub critical_total : s.critical_count ≡ r.critical_count + count is_critical gpus
    pub worst : s.overall_score ≡ worst_score r.overall_score gpus
    pub same_devices : s.device_count ≡ r.device_count

  count_gpu-Counted :
      (r : GpuHealthResponse fl) (g : GpuHealth fl) → Counted r (count_gpu r g) (g ∷ [])
  unfolding count_gpu
  count_gpu-Counted r g = ground arith

  Counted-cons :
      (r s t : GpuHealthResponse fl) (g : GpuHealth fl) (gpus : List (GpuHealth fl))
      → Counted r s (g ∷ [])
      → Counted s t gpus
      → Counted r t (g ∷ gpus)
  Counted-cons r s t g gpus c d = ground (arith, c, d)

  pub foldl-Counted :
      (r : GpuHealthResponse fl) (gpus : List (GpuHealth fl))
      → Counted r (foldl count_gpu r gpus) gpus
  foldl-Counted r [] = ground arith
  foldl-Counted r (g ∷ gpus) =
      Counted-cons r (count_gpu r g) (foldl count_gpu (count_gpu r g) gpus) g gpus
        (count_gpu-Counted r g) (foldl-Counted (count_gpu r g) gpus)

-- How bad a status is.
abbrev pub rank : Status → ℕ
rank critical = 3
rank degraded = 2
rank warning = 1
rank _ = 0

module _ {fl : Percents} where
  abbrev pub worst_rank : List (GpuHealth fl) → ℕ
  worst_rank [] = 0
  worst_rank (g ∷ gpus) = max (rank g.status) (worst_rank gpus)

  -- The cascade over the counts finds the worst status.
  rank-counts :
      (gpus : List (GpuHealth fl))
      → (if ltb 0 (count is_critical gpus)
          then 3
          else if ltb 0 (count is_degraded gpus)
          then 2
          else if ltb 0 (count is_warning gpus)
          then 1
          else 0)
        ≡ worst_rank gpus
  rank-counts [] = refl
  rank-counts (g ∷ gpus) = ground (arith, rank-counts gpus)

  -- What the response for a list of devices says of them.
  pub record Summary (r : GpuHealthResponse fl) (gpus : List (GpuHealth fl)) : Type 0 where
    pub devices : r.device_count ≡ length gpus
    pub healthy_total : r.healthy_count ≡ count is_healthy gpus
    pub warning_total : r.warning_count ≡ count is_warning gpus
    pub degraded_total : r.degraded_count ≡ count is_degraded gpus
    pub critical_total : r.critical_count ≡ count is_critical gpus
    pub least_score : r.overall_score ≡ worst_score 100 gpus
    pub worst_status : rank r.status ≡ worst_rank gpus

  Counted-Summary :
      (r s : GpuHealthResponse fl) (gpus : List (GpuHealth fl))
      → r.healthy_count ≡ 0
      → r.warning_count ≡ 0
      → r.degraded_count ≡ 0
      → r.critical_count ≡ 0
      → r.overall_score ≡ 100
      → r.device_count ≡ length gpus
      → Counted r s gpus
      → Summary (record s { status = overall_status s }) gpus
  Counted-Summary r s gpus h w d c o n t = ground (arith, t, rank-counts gpus)

  -- For devices g and gpus the response counts them, and by status; its score is the least of
  -- theirs (and of 100), and its status is as bad as the worst of theirs.
  pub calculate_overall_health-Summary :
      (g : GpuHealth fl) (gpus : List (GpuHealth fl))
      → Summary (calculate_overall_health (g ∷ gpus)) (g ∷ gpus)
  unfolding calculate_overall_health
  calculate_overall_health-Summary g gpus =
      let start = record (empty_response (g ∷ gpus)) { overall_score = 100 } in
      let t = foldl-Counted start (g ∷ gpus) in
      let s = foldl count_gpu start (g ∷ gpus) in
      let nonempty : (length (g ∷ gpus) == 0) ≡ false = ground arith in
      rw nonempty (Counted-Summary start s (g ∷ gpus) refl refl refl refl refl refl t)

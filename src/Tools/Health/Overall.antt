-- ===== src/Tools/Health/Overall.antt =====
-- The answer of pkg/tools/gpu_health.go for all devices, and the handler.
use k8s_gpu_mcp_server.Base.{
  ℕ, ◌+◌, Bool, List, [], ◌∷◌, ◌++◌, Option, none, some, ltb, if◌then◌else◌, length, foldl, ◌==◌,
}
use k8s_gpu_mcp_server.Tools.Health.Score.{collect_gpu_health}
use k8s_gpu_mcp_server.Tools.Health.Types.{
  Status, unknown, critical, degraded, warning, healthy, Percents, Device, GpuHealth,
}

-- The recommendation's text, by its number.
pub data Recommendation : Type 0 where
  no_advice no_devices all_healthy : Recommendation
  in_critical_state are_degraded with_warnings : ℕ → Recommendation

-- `GPUHealthResponse`, without the version and the capability fields, which are copied from NVML.
pub record GpuHealthResponse (fl : Percents) : Type 0 where
  pub status : Status
  pub overall_score : ℕ
  pub device_count : ℕ
  pub healthy_count : ℕ
  pub warning_count : ℕ
  pub degraded_count : ℕ
  pub critical_count : ℕ
  pub gpus : List (GpuHealth fl)
  pub recommendation : Recommendation

-- The result of a call of the tool. The texts of the errors are left out.
pub data Answer (fl : Percents) : Type 0 where
  operation_cancelled : Answer fl
  no_device_count : Answer fl
  answered : GpuHealthResponse fl → Answer fl

-- What the handler sees: whether the context is done, the device count unless the call fails, and
-- for each round of the loop whether the context is done and the device, if there is one.
pub record Round : Type 0 where
  pub done : Bool
  pub device : Option Device

module _ {fl : Percents} where
  -- One round of the loop: the counts, and the worst score in `overall_score`.
  unfoldable pub count_gpu : GpuHealthResponse fl → GpuHealth fl → GpuHealthResponse fl
  count_gpu r gpu =
      let counted : GpuHealthResponse fl = elim gpu.status [
        | healthy ↦ record r { healthy_count = r.healthy_count + 1 }
        | warning ↦ record r { warning_count = r.warning_count + 1 }
        | degraded ↦ record r { degraded_count = r.degraded_count + 1 }
        | critical ↦ record r { critical_count = r.critical_count + 1 }
        | _ ↦ r
      ] in
      if ltb gpu.health_score counted.overall_score
      then record counted { overall_score = gpu.health_score }
      else counted

  abbrev pub overall_status : GpuHealthResponse fl → Status
  overall_status r =
      if ltb 0 r.critical_count
      then critical
      else if ltb 0 r.degraded_count
      then degraded
      else if ltb 0 r.warning_count
      then warning
      else healthy

  abbrev pub empty_response : List (GpuHealth fl) → GpuHealthResponse fl
  empty_response gpus = record {
    status = unknown;
    overall_score = 0;
    device_count = length gpus;
    healthy_count = 0;
    warning_count = 0;
    degraded_count = 0;
    critical_count = 0;
    gpus = gpus;
    recommendation = no_advice;
  }

  unfoldable pub calculate_overall_health : List (GpuHealth fl) → GpuHealthResponse fl
  calculate_overall_health gpus =
      let start = empty_response gpus in
      let r = foldl count_gpu (record start { overall_score = 100 }) gpus in
      if length gpus == 0 then start else record r { status = overall_status r }

  unfoldable pub generate_recommendation : GpuHealthResponse fl → Recommendation
  generate_recommendation r =
      if r.device_count == 0
      then no_devices
      else if ltb 0 r.critical_count
      then in_critical_state r.critical_count
      else if ltb 0 r.degraded_count
      then are_degraded r.degraded_count
      else if ltb 0 r.warning_count
      then with_warnings r.warning_count
      else all_healthy

-- The loop over the devices; `none` when the context is done before a round.
pub collect_all : (fl : Percents) → List (GpuHealth fl) → List Round → Option (List (GpuHealth fl))
collect_all fl gpus [] = some gpus
collect_all fl gpus (r ∷ rs) =
    let skipped = collect_all fl gpus rs in
    let next : Device → Option (List (GpuHealth fl)) =
      λ d. collect_all fl (gpus ++ collect_gpu_health fl d ∷ []) rs in
    if r.done then none else elim r.device [ none ↦ skipped | some d ↦ next d ]

abbrev finish : (fl : Percents) → Option (List (GpuHealth fl)) → Answer fl
finish fl none = operation_cancelled
finish fl (some gpus) =
    let response = calculate_overall_health gpus in
    answered (record response { recommendation = generate_recommendation response })

-- `rounds` are those of the loop: as many as the device count.
pub handle : (fl : Percents) → Bool → Option (List Round) → Answer fl
handle fl done counted = if done then operation_cancelled else elim counted [
  | none ↦ no_device_count
  | some rounds ↦ finish fl (collect_all fl [] rounds)
]

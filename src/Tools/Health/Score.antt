-- ===== src/Tools/Health/Score.antt =====
-- The scorers of pkg/tools/gpu_health.go, and the collection of one device. A scorer returns its
-- penalty and the health with the issue that it appends.
use k8s_gpu_mcp_server.Base.{ℕ, Bool, true, false, List, [], ◌∷◌, ◌++◌, ltb, leb, if◌then◌else◌}
use k8s_gpu_mcp_server.Base.Int.{ℤ, pos, negsuc, sub_int}
use k8s_gpu_mcp_server.Tools.Health.Checks.{
  check_temperature, check_memory, check_power, check_throttling, check_ecc_errors,
  check_performance, ecc_correctable_threshold,
}
use k8s_gpu_mcp_server.Tools.Health.Types.{
  Status, unknown, critical, high, elevated, over_limit, severe, minor, degraded, warning, healthy,
  Component, temperature, memory, power, throttling, ecc, HealthIssue, Percents, Device, GpuHealth,
  zero_health,
}

-- `if score < 0 { score = 0 }`
abbrev pub clamp : ℤ → ℕ
clamp (pos n) = n
clamp (negsuc n) = 0

module _ {fl : Percents} where
  abbrev pub raise : Status → Component → GpuHealth fl → GpuHealth fl
  raise s c h = record h { issues = h.issues ++ record { severity = s; component = c } ∷ [] }

  unfoldable pub score_thermal : GpuHealth fl → ℕ × GpuHealth fl
  score_thermal h = elim h.temperature.status [
    | critical ↦ (30, raise critical temperature h)
    | high ↦ (20, raise warning temperature h)
    | elevated ↦ (10, h)
    | _ ↦ (0, h)
  ]

  unfoldable pub score_memory : GpuHealth fl → ℕ × GpuHealth fl
  score_memory h = elim h.memory.status [
    | critical ↦ (20, raise critical memory h)
    | high ↦ (10, raise warning memory h)
    | _ ↦ (0, h)
  ]

  unfoldable pub score_power : GpuHealth fl → ℕ × GpuHealth fl
  score_power h = elim h.power.status [
    | over_limit ↦ (15, raise warning power h)
    | high ↦ (10, h)
    | _ ↦ (0, h)
  ]

  unfoldable pub score_throttling : GpuHealth fl → ℕ × GpuHealth fl
  score_throttling h = elim h.throttling.status [
    | severe ↦ (25, raise critical throttling h)
    | minor ↦ (10, raise warning throttling h)
    | _ ↦ (0, h)
  ]

  unfoldable pub score_ecc : GpuHealth fl → ℕ × GpuHealth fl
  score_ecc h =
      if ltb 0 h.ecc_errors.uncorrectable
      then (30, raise critical ecc h)
      else if ltb ecc_correctable_threshold h.ecc_errors.correctable
      then (10, raise warning ecc h)
      else (0, h)

  -- The score, and the health with the issues.
  unfoldable pub calculate_health_score : GpuHealth fl → ℕ × GpuHealth fl
  calculate_health_score h =
      let thermal = score_thermal h in
      let mem = score_memory thermal.1 in
      let pow = score_power mem.1 in
      let throttle = score_throttling pow.1 in
      let errors = score_ecc throttle.1 in
      let score = sub_int (pos 100) thermal.0 in
      let score = sub_int score mem.0 in
      let score = sub_int score pow.0 in
      let score = sub_int score throttle.0 in
      let score = sub_int score errors.0 in (clamp score, errors.1)

abbrev pub is_critical : Status → Bool
is_critical critical = true
is_critical _ = false

unfoldable pub determine_status : ℕ → List HealthIssue → Status
determine_status score (issue ∷ issues) =
    if is_critical issue.severity then critical else determine_status score issues
determine_status score [] =
    if leb 90 score
    then healthy
    else if leb 70 score
    then warning
    else if leb 50 score
    then degraded
    else critical

-- The health before the score: what the six checks find.
unfoldable pub checked : (fl : Percents) → Device → GpuHealth fl
checked fl d = record (zero_health fl) {
  temperature = check_temperature d;
  memory = check_memory fl d;
  power = check_power fl d;
  throttling = check_throttling d;
  ecc_errors = check_ecc_errors d;
  performance = check_performance d;
}

-- The end of `collectGPUHealth`: the score and the status of what the checks have found.
unfoldable pub graded : {fl : Percents} → GpuHealth fl → GpuHealth fl
graded h =
    let scored = calculate_health_score h in
    record (scored.1) {
      health_score = scored.0;
      status = determine_status scored.0 (scored.1).issues;
    }

unfoldable pub collect_gpu_health : (fl : Percents) → Device → GpuHealth fl
collect_gpu_health fl d =
    if d.cancelled then record (zero_health fl) { status = unknown } else graded (checked fl d)

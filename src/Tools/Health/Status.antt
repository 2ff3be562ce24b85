-- ===== src/Tools/Health/Status.antt =====
-- The status that pkg/tools/gpu_health.go gives a device.
use mathlib.Core.Path.{subst}
use k8s_gpu_mcp_server.Base.{
  ℕ, ◌-◌, ◌≡◌, refl, sym, Bool, true, false, List, [], ◌∷◌, ◌++◌, ltb, leb, if◌then◌else◌, arith,
  any, any-append, ◌||◌,
}
use k8s_gpu_mcp_server.Tools.Health.Score.{
  collect_gpu_health, is_critical, determine_status, checked, graded,
}
use k8s_gpu_mcp_server.Tools.Health.Bounds.{
  penalties, issues_of, calculate_health_score_lem, thermal_issues, memory_issues, power_issues,
  throttling_issues, ecc_issues,
}
use k8s_gpu_mcp_server.Tools.Health.Types.{
  Status, unknown, critical, severe, degraded, warning, healthy, HealthIssue, Percents, Device,
  EccHealth, GpuHealth, zero_health,
}

-- The status by the score alone.
abbrev pub by_score : ℕ → Status
by_score score =
    if leb 90 score
    then healthy
    else if leb 70 score
    then warning
    else if leb 50 score
    then degraded
    else critical

determine_status_lem :
    (score : ℕ) (issues : List HealthIssue)
    → determine_status score issues
      ≡ (if any (λ i. is_critical i.severity) issues then critical else by_score score)
unfolding determine_status
determine_status_lem score [] = refl
determine_status_lem score (i ∷ issues) = ground (arith, determine_status_lem score issues)

abbrev pub is_severe : Status → Bool
is_severe severe = true
is_severe _ = false

abbrev worrying : List HealthIssue → Bool
worrying issues = any (λ i. is_critical i.severity) issues

thermal_part : (s : Status) → worrying (thermal_issues s) ≡ is_critical s
thermal_part s = ground arith

memory_part : (s : Status) → worrying (memory_issues s) ≡ is_critical s
memory_part s = ground arith

power_part : (s : Status) → worrying (power_issues s) ≡ false
power_part s = ground arith

throttling_part : (s : Status) → worrying (throttling_issues s) ≡ is_severe s
throttling_part s = ground arith

ecc_part : (e : EccHealth) → worrying (ecc_issues e) ≡ ltb 0 e.uncorrectable
ecc_part e = ground arith

module _ {fl : Percents} where
  -- Whether a reading is one of the four that are reported as critical.
  abbrev pub has_critical : GpuHealth fl → Bool
  has_critical h =
      is_critical h.temperature.status
      || is_critical h.memory.status
      || is_severe h.throttling.status
      || ltb 0 h.ecc_errors.uncorrectable

  any_critical :
      (h : GpuHealth fl) → any (λ i. is_critical i.severity) (issues_of h) ≡ has_critical h
  any_critical h =
      rw
        (
          any-append, any-append, any-append, any-append, thermal_part, memory_part, power_part,
          throttling_part, ecc_part,
        )
        (ground arith)

  -- What the grading of the readings gives.
  pub record Graded (h g : GpuHealth fl) : Type 0 where
    pub score : g.health_score ≡ 100 - penalties h
    pub verdict : g.status ≡ (if has_critical h then critical else by_score (100 - penalties h))
    pub reported_issues : g.issues ≡ h.issues ++ issues_of h

  graded_lem : (h : GpuHealth fl) → h.issues ≡ [] → Graded h (graded h)
  unfolding graded
  graded_lem h e =
      rw (calculate_health_score_lem h, determine_status_lem, e, any_critical h)
        (record { score = refl; verdict = refl; reported_issues = refl })

-- Without a cancelled context, the score of a device is 100 less its penalties, or 0, and its
-- status is critical if its temperature or its memory is, if it is severely throttled or if it
-- has uncorrectable errors; otherwise the status is that of the score. Its issues are those of the
-- readings, in the order of the scorers.
pub collect_gpu_health-Graded :
    (fl : Percents) (d : Device)
    → d.cancelled ≡ false
    → Graded (checked fl d) (collect_gpu_health fl d)
unfolding collect_gpu_health checked
collect_gpu_health-Graded fl d c =
    let h = checked fl d in
    subst (λ b. Graded h (if b then record (zero_health fl) { status = unknown } else graded h))
      (sym c) (graded_lem h refl)

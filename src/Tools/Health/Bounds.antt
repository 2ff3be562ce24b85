-- ===== src/Tools/Health/Bounds.antt =====
-- The health score of pkg/tools/gpu_health.go against a table of its penalties.
use k8s_gpu_mcp_server.Base.{
  ℕ, ◌+◌, ◌-◌, ◌≡◌, ap, List, [], ◌∷◌, ◌++◌, ltb, if◌then◌else◌, arith, append_assoc, append-nil,
}
use k8s_gpu_mcp_server.Base.Int.{pos, sub_int}
use k8s_gpu_mcp_server.Tools.Health.Score.{
  score_thermal, score_memory, score_power, score_throttling, score_ecc, calculate_health_score,
  clamp,
}
use k8s_gpu_mcp_server.Tools.Health.Types.{
  Status, critical, high, elevated, over_limit, severe, minor, warning, Component, temperature,
  memory, power, throttling, ecc, HealthIssue, Percents, EccHealth, GpuHealth,
}

abbrev pub thermal_penalty : Status → ℕ
thermal_penalty critical = 30
thermal_penalty high = 20
thermal_penalty elevated = 10
thermal_penalty _ = 0

abbrev pub memory_penalty : Status → ℕ
memory_penalty critical = 20
memory_penalty high = 10
memory_penalty _ = 0

abbrev pub power_penalty : Status → ℕ
power_penalty over_limit = 15
power_penalty high = 10
power_penalty _ = 0

abbrev pub throttling_penalty : Status → ℕ
throttling_penalty severe = 25
throttling_penalty minor = 10
throttling_penalty _ = 0

abbrev pub ecc_penalty : EccHealth → ℕ
ecc_penalty e = if ltb 0 e.uncorrectable then 30 else if ltb 1000 e.correctable then 10 else 0

abbrev pub found : Status → Component → List HealthIssue
found s c = record { severity = s; component = c } ∷ []

abbrev pub thermal_issues : Status → List HealthIssue
thermal_issues critical = found critical temperature
thermal_issues high = found warning temperature
thermal_issues _ = []

abbrev pub memory_issues : Status → List HealthIssue
memory_issues critical = found critical memory
memory_issues high = found warning memory
memory_issues _ = []

abbrev pub power_issues : Status → List HealthIssue
power_issues over_limit = found warning power
power_issues _ = []

abbrev pub throttling_issues : Status → List HealthIssue
throttling_issues severe = found critical throttling
throttling_issues minor = found warning throttling
throttling_issues _ = []

abbrev pub ecc_issues : EccHealth → List HealthIssue
ecc_issues e =
    if ltb 0 e.uncorrectable
    then found critical ecc
    else if ltb 1000 e.correctable
    then found warning ecc
    else []

-- Four steps down from 100 below 0 stay there, so that the clamp of their sum is a truncation.
clamp_lem :
    (a b c d e : ℕ)
    → clamp (sub_int (sub_int (sub_int (sub_int (sub_int (pos 100) a) b) c) d) e)
      ≡ 100 - (a + b + c + d + e)
clamp_lem a b c d e = ground arith

append_five :
    (xs a b c d e : List HealthIssue)
    → ((((xs ++ a) ++ b) ++ c) ++ d) ++ e ≡ xs ++ (a ++ b ++ c ++ d ++ e)
append_five xs a b c d e = simp append_assoc

module _ {fl : Percents} where
  abbrev pub penalties : GpuHealth fl → ℕ
  penalties h =
      thermal_penalty h.temperature.status
      + memory_penalty h.memory.status
      + power_penalty h.power.status
      + throttling_penalty h.throttling.status
      + ecc_penalty h.ecc_errors

  abbrev pub issues_of : GpuHealth fl → List HealthIssue
  issues_of h =
      thermal_issues h.temperature.status
      ++ memory_issues h.memory.status
      ++ power_issues h.power.status
      ++ throttling_issues h.throttling.status
      ++ ecc_issues h.ecc_errors

  abbrev with_issues : GpuHealth fl → List HealthIssue → GpuHealth fl
  with_issues h more = record h { issues = h.issues ++ more }

  score_thermal_lem :
      (h : GpuHealth fl)
      → score_thermal h ≡ (
        thermal_penalty h.temperature.status,
        with_issues h (thermal_issues h.temperature.status),
      )
  unfolding score_thermal
  score_thermal_lem h = ground (arith, append-nil h.issues)

  score_memory_lem :
      (h : GpuHealth fl)
      → score_memory h
        ≡ (memory_penalty h.memory.status, with_issues h (memory_issues h.memory.status))
  unfolding score_memory
  score_memory_lem h = ground (arith, append-nil h.issues)

  score_power_lem :
      (h : GpuHealth fl)
      → score_power h ≡ (power_penalty h.power.status, with_issues h (power_issues h.power.status))
  unfolding score_power
  score_power_lem h = ground (arith, append-nil h.issues)

  score_throttling_lem :
      (h : GpuHealth fl)
      → score_throttling h ≡ (
        throttling_penalty h.throttling.status,
        with_issues h (throttling_issues h.throttling.status),
      )
  unfolding score_throttling
  score_throttling_lem h = ground (arith, append-nil h.issues)

  score_ecc_lem :
      (h : GpuHealth fl)
      → score_ecc h ≡ (ecc_penalty h.ecc_errors, with_issues h (ecc_issues h.ecc_errors))
  unfolding score_ecc
  score_ecc_lem h = ground (arith, append-nil h.issues)

  -- The score is 100 less every penalty, or 0, and the issues are those of the five readings, in
  -- the order of the scorers.
  pub calculate_health_score_lem :
      (h : GpuHealth fl)
      → calculate_health_score h ≡ (100 - penalties h, with_issues h (issues_of h))
  unfolding calculate_health_score
  calculate_health_score_lem h =
      rw
        (
          score_thermal_lem, score_memory_lem, score_power_lem, score_throttling_lem, score_ecc_lem,
          clamp_lem,
        )
        (ap (λ xs. (100 - penalties h, record h { issues = xs })) (append_five h.issues _ _ _ _ _))

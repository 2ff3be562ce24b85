-- ===== src/Tools/Health/Monotone.antt =====
-- The score of pkg/tools/gpu_health.go when only the temperature differs.
use k8s_gpu_mcp_server.Base.{ℕ, ◌≤◌, ◌≡◌, ap, false, some, arith}
use k8s_gpu_mcp_server.Tools.Health.Types.{Device, Percents}
use k8s_gpu_mcp_server.Tools.Health.Checks.{
  temperature_status, check_temperature, check_memory, check_power, check_throttling,
  check_ecc_errors, reported,
}
use k8s_gpu_mcp_server.Tools.Health.Score.{collect_gpu_health, checked}
use k8s_gpu_mcp_server.Tools.Health.Bounds.{thermal_penalty, penalties}
use k8s_gpu_mcp_server.Tools.Health.Status.{collect_gpu_health-Graded}

-- The penalty does not fall as the temperature rises, whatever the two limits are.
thermal_penalty-temperature_status :
    (t u threshold max_temp : ℕ)
    → t ≤ u
    → thermal_penalty (temperature_status t threshold max_temp)
      ≤ thermal_penalty (temperature_status u threshold max_temp)
unfolding temperature_status
thermal_penalty-temperature_status t u threshold max_temp le = ground arith

penalties_rise :
    (fl : Percents) (d : Device) (t u : ℕ)
    → d.temperature ≡ some t
    → t ≤ u
    → penalties (checked fl d) ≤ penalties (checked fl (record d { temperature = some u }))
unfolding checked check_temperature check_memory check_power check_throttling check_ecc_errors
penalties_rise fl d t u e le =
    let hotter =
      thermal_penalty-temperature_status t u (reported d.slowdown 82) (reported d.shutdown 90) le in
    let here =
      ap (λ o. thermal_penalty (check_temperature (record d { temperature = o })).status) e in
    omega (arith, hotter, here)

-- A device that is hotter, with every other reading the same, has no better score.
pub hotter_not_better :
    (fl : Percents) (d : Device) (t u : ℕ)
    → d.cancelled ≡ false
    → d.temperature ≡ some t
    → t ≤ u
    → (collect_gpu_health fl (record d { temperature = some u })).health_score
      ≤ (collect_gpu_health fl d).health_score
hotter_not_better fl d t u c e le =
    let cold = collect_gpu_health-Graded fl d c in
    let hot = collect_gpu_health-Graded fl (record d { temperature = some u }) c in
    omega (arith, cold.score, hot.score, penalties_rise fl d t u e le)

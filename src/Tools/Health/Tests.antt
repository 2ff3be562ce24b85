-- ===== src/Tools/Health/Tests.antt =====
-- Runs of the health checks of pkg/tools/gpu_health.go, and the theorems at inputs.
use k8s_gpu_mcp_server.Base.{
  ℕ, ◌*◌, ◌/◌, ◌≤◌, ◌≡◌, refl, true, false, [], ◌∷◌, none, some, arith, ltb, leb,
}
use k8s_gpu_mcp_server.Tools.Health.Checks.{
  temperature_status, check_temperature, check_memory, check_power, check_throttling,
  check_ecc_errors, check_performance,
}
use k8s_gpu_mcp_server.Tools.Health.Score.{
  collect_gpu_health, checked, graded, calculate_health_score, determine_status, score_thermal,
  score_memory, score_power, score_throttling, score_ecc,
}
use k8s_gpu_mcp_server.Tools.Health.Overall.{
  calculate_overall_health, generate_recommendation, all_healthy,
}
use k8s_gpu_mcp_server.Tools.Health.Status.{Graded, collect_gpu_health-Graded}
use k8s_gpu_mcp_server.Tools.Health.Worst.{Summary, calculate_overall_health-Summary}
use k8s_gpu_mcp_server.Tools.Health.Monotone.{hotter_not_better}
use k8s_gpu_mcp_server.Tools.Health.Cancelled.{cancelled_last}
use k8s_gpu_mcp_server.Tools.Health.Types.{critical, healthy, Percents, Device}

-- Percentages rounded down to a whole number.
abbrev whole : Percents
whole = record {
  Percent = ℕ;
  zero_percent = 0;
  used_percent = λ used total. used * 100 / total;
  at_least = λ p n. leb n p;
  above = λ p n. ltb n p;
}

-- A device at 85 degrees with a limit of 82, nine tenths of its memory in use, power capped and
-- thermally slowed down at once, and without ECC.
abbrev busy : Device
busy = record {
  temperature = some 85;
  slowdown = some 82;
  shutdown = none;
  memory_info = some (1000, 900, 100);
  power_usage = some 60_000;
  power_limit = some 100_000;
  throttle_reasons = some 0x44;
  ecc_mode = some false;
  ecc_correctable = none;
  ecc_uncorrectable = none;
  utilization = some (99, 70);
  graphics_clock = some 1590;
  memory_clock = some 5000;
  cancelled = false;
}

abbrev idle_device : Device
idle_device = record busy {
  temperature = some 40;
  memory_info = some (1000, 10, 990);
  throttle_reasons = some 1;
}

abbrev stopped : Device
stopped = record busy { cancelled = true }

devices_run :
    ((collect_gpu_health whole busy).health_score ≡ 45)
    × ((collect_gpu_health whole busy).status ≡ critical)
    × ((collect_gpu_health whole idle_device).health_score ≡ 100)
    × ((collect_gpu_health whole idle_device).status ≡ healthy)
unfolding collect_gpu_health checked graded calculate_health_score determine_status score_thermal
    score_memory score_power score_throttling score_ecc check_temperature check_memory check_power
    check_throttling check_ecc_errors check_performance temperature_status
devices_run = (refl, refl, refl, refl)

idle-healthy : (collect_gpu_health whole idle_device).status ≡ healthy
idle-healthy = devices_run.3

collect_gpu_health-Graded_example : Graded (checked whole busy) (collect_gpu_health whole busy)
collect_gpu_health-Graded_example = collect_gpu_health-Graded whole busy refl

hotter_not_better_example :
    (collect_gpu_health whole (record busy { temperature = some 95 })).health_score
    ≤ (collect_gpu_health whole busy).health_score
hotter_not_better_example = hotter_not_better whole busy 85 95 refl refl (omega arith)

calculate_overall_health-Summary_example :
    Summary
      (calculate_overall_health
        (collect_gpu_health whole busy ∷ collect_gpu_health whole idle_device ∷ []))
      (collect_gpu_health whole busy ∷ collect_gpu_health whole idle_device ∷ [])
calculate_overall_health-Summary_example =
    calculate_overall_health-Summary (collect_gpu_health whole busy)
      (collect_gpu_health whole idle_device ∷ [])

cancelled_last_example :
    ((calculate_overall_health
        (collect_gpu_health whole idle_device ∷ collect_gpu_health whole stopped ∷ [])).status
      ≡ healthy)
    × ((calculate_overall_health (
          collect_gpu_health whole idle_device
          ∷ collect_gpu_health whole stopped
          ∷ [])).overall_score
        ≡ 0)
    × (generate_recommendation (
          calculate_overall_health
            (collect_gpu_health whole idle_device ∷ collect_gpu_health whole stopped ∷ []))
        ≡ all_healthy)
cancelled_last_example =
    cancelled_last (collect_gpu_health whole idle_device ∷ []) stopped (idle-healthy, ground arith)
      refl

-- ===== src/Tools/Health/Cancelled.antt =====
-- pkg/tools/gpu_health.go when the context is done while a device is collected.
use k8s_gpu_mcp_server.Base.{ℕ, ◌≡◌, true, List, [], ◌∷◌, ◌++◌, arith, min, All, length-append}
use k8s_gpu_mcp_server.Tools.Health.Score.{collect_gpu_health, is_critical}
use k8s_gpu_mcp_server.Tools.Health.Overall.{
  calculate_overall_health, empty_response, generate_recommendation, all_healthy,
}
use k8s_gpu_mcp_server.Tools.Health.Worst.{
  count, worst_score, foldl-Counted, is_degraded, is_warning,
}
use k8s_gpu_mcp_server.Tools.Health.Types.{unknown, healthy, Percents, Device, GpuHealth}

module _ {fl : Percents} where
  -- No device of a list that is healthy but for one unknown device at the end is counted as worse.
  none_worse :
      (gpus : List (GpuHealth fl)) (x : GpuHealth fl)
      → All (λ g. g.status ≡ healthy) gpus
      → x.status ≡ unknown
      → (count is_critical (gpus ++ x ∷ []) ≡ 0)
        × (count is_degraded (gpus ++ x ∷ []) ≡ 0)
        × (count is_warning (gpus ++ x ∷ []) ≡ 0)
  none_worse [] x a u = ground arith
  none_worse (g ∷ gpus) x a u = ground (arith, none_worse gpus x)

  worst_score_last :
      (gpus : List (GpuHealth fl)) (n : ℕ) (x : GpuHealth fl)
      → x.health_score ≡ 0
      → worst_score n (gpus ++ x ∷ []) ≡ 0
  worst_score_last [] n x z = ground arith
  worst_score_last (g ∷ gpus) n x z = worst_score_last gpus (min n g.health_score) x z

  -- When the context is done while the last device is collected, and the others are healthy, the
  -- answer says that all devices are healthy, with an overall score of 0.
  pub cancelled_last :
      (gpus : List (GpuHealth fl)) (d : Device)
      → All (λ g. g.status ≡ healthy) gpus
      → d.cancelled ≡ true
      → ((calculate_overall_health (gpus ++ collect_gpu_health fl d ∷ [])).status ≡ healthy)
        × ((calculate_overall_health (gpus ++ collect_gpu_health fl d ∷ [])).overall_score ≡ 0)
        × (generate_recommendation (calculate_overall_health (gpus ++ collect_gpu_health fl d ∷ []))
            ≡ all_healthy)
  unfolding calculate_overall_health collect_gpu_health generate_recommendation
  cancelled_last gpus d a c =
      let x = collect_gpu_health fl d in
      let start = record (empty_response (gpus ++ x ∷ [])) { overall_score = 100 } in
      let t = foldl-Counted start (gpus ++ x ∷ []) in
      ground
        (arith, t, none_worse gpus x a, worst_score_last gpus 100 x, length-append gpus (x ∷ []))

-- ===== src/Gateway/Client/Tests.antt =====
-- Runs of pkg/gateway/http_client.go.
use k8s_gpu_mcp_server.Base.{ℕ, suc, ◌≡◌, refl, List, [], ◌∷◌, Option, none, some}
use k8s_gpu_mcp_server.Base.Int.{pos}
use k8s_gpu_mcp_server.Gateway.Client.Attempts.{Answers, call_mcp-Answers}
use k8s_gpu_mcp_server.Gateway.Client.{
  default_retry_policy, calculate_backoff, call_mcp, cancelled, answered, attempts,
}

-- The third request succeeds.
abbrev third : ℕ → Option (List ℕ)
third (suc (suc n)) = some (1 ∷ [])
third n = none

delays_run :
    (calculate_backoff default_retry_policy 3 ≡ pos 400_000_000)
    × (calculate_backoff default_retry_policy 6 ≡ pos 2_000_000_000)
unfolding calculate_backoff default_retry_policy
delays_run = (refl, refl)

third_run : call_mcp default_retry_policy third none ≡ (answered (1 ∷ []), 3)
unfolding call_mcp default_retry_policy attempts
third_run = refl

-- The context is done in the pause after the first request.
cancelled_run : call_mcp default_retry_policy third (some 1) ≡ (cancelled, 1)
unfolding call_mcp default_retry_policy attempts
cancelled_run = refl

call_mcp-Answers_example : Answers third 0 4 (call_mcp default_retry_policy third none)
unfolding default_retry_policy
call_mcp-Answers_example = call_mcp-Answers default_retry_policy third

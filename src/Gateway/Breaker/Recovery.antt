-- ===== src/Gateway/Breaker/Recovery.antt =====
-- How long an open circuit of pkg/gateway/circuit_breaker.go refuses requests.
use k8s_gpu_mcp_server.Base.{ℕ, ◌+◌, ◌≤◌, ◌<◌, ◌≡◌, ◌↔◌, String, arith, false}
use k8s_gpu_mcp_server.Base.Int.{pos, max_int}
use k8s_gpu_mcp_server.Base.Texts.{eq_iff}
use k8s_gpu_mcp_server.Gateway.Breaker.Circuit.{
  circuit_open, circuit_half_open, CircuitBreaker, allow, record_failure,
}

-- After a failure at time `t` that leaves the circuit open, a request at a later time `u` is
-- refused exactly until more than the reset timeout has passed. A refusal changes nothing, and the
-- first request that is not refused makes the circuit half-open. (Both times lie within the range
-- of one `time.Duration`.)
pub refused_iff :
    (cb : CircuitBreaker) (node : String) (t u d : ℕ)
    → cb.reset_timeout ≡ pos d
    → t ≤ u
    → u < t + max_int
    → (record_failure t node cb).state node ≡ circuit_open
    → let cb' = record_failure t node cb in
      (((allow u node cb').1 ≡ false) ↔ (u ≤ t + d))
      × (u ≤ t + d → (allow u node cb').0 ≡ cb')
      × (t + d < u → (allow u node cb').0.state node ≡ circuit_half_open)
unfolding record_failure allow
refused_iff cb node t u d e le lt h = ground (arith, eq_iff node node)

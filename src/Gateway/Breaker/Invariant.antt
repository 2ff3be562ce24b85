-- ===== src/Gateway/Breaker/Invariant.antt =====
-- What holds of every circuit of pkg/gateway/circuit_breaker.go after any sequence of calls.
use k8s_gpu_mcp_server.Base.{
  ℕ, suc, ◌+◌, ◌≤◌, ◌<◌, ◌≡◌, ◌↔◌, List, [], ◌∷◌, String, arith, length, if◌then◌else◌, foldl,
}
use k8s_gpu_mcp_server.Base.Int.{pos, max_int}
use k8s_gpu_mcp_server.Base.Texts.{str_eq, eq_iff}
use k8s_gpu_mcp_server.Gateway.Breaker.Circuit.{
  circuit_closed, CircuitBreaker, CircuitBreakerConfig, Call, ask, succeed, fail, forget,
  new_circuit_breaker, allow, record_success, record_failure, reset, step, run,
}

-- How many failures a node has had since its last success or reset.
abbrev pub streak : String → ℕ → Call → ℕ
streak node n (ask now a) = n
streak node n (succeed a) = if str_eq node a then 0 else n
streak node n (fail now a) = if str_eq node a then n + 1 else n
streak node n (forget a) = if str_eq node a then 0 else n

-- The circuit of `node` at a threshold of `t`, with `n` failures on record, `k` calls at most
-- after the start.
pub record Tracks (t k n : ℕ) (cb : CircuitBreaker) (node : String) : Type 0 where
  pub limit : cb.threshold ≡ pos t
  pub counted : cb.failures node ≡ pos n
  pub bounded : n ≤ k
  pub below : cb.state node ≡ circuit_closed → n < t
  pub shut : n < t → cb.state node ≡ circuit_closed

module _ (t : ℕ) (p : 0 < t) (node : String) where
  -- A call on any node keeps the circuit on track.
  pub step-Tracks :
      (k n : ℕ) (cb : CircuitBreaker) (c : Call)
      → k < max_int
      → Tracks t k n cb node
      → Tracks t (suc k) (streak node n c) (step cb c) node
  unfolding step allow record_success record_failure reset
  step-Tracks k n cb (ask now a) lt h = ground (arith, eq_iff node a)
  step-Tracks k n cb (succeed a) lt h = ground (arith, eq_iff node a)
  step-Tracks k n cb (fail now a) lt h = ground (arith, eq_iff node a)
  step-Tracks k n cb (forget a) lt h = ground (arith, eq_iff node a)

  pub run-Tracks :
      (k n : ℕ) (cb : CircuitBreaker) (cs : List Call)
      → k + length cs ≤ max_int
      → Tracks t k n cb node
      → Tracks t (k + length cs) (foldl (streak node) n cs) (run cb cs) node
  unfolding run
  run-Tracks k n cb [] le h = ground arith
  run-Tracks k n cb (c ∷ cs) le h =
      ground (arith, step-Tracks k n cb c, run-Tracks (suc k) (streak node n c) (step cb c) cs)

  pub new-Tracks :
      (cfg : CircuitBreakerConfig)
      → cfg.threshold ≡ pos t
      → Tracks t 0 0 (new_circuit_breaker cfg) node
  unfolding new_circuit_breaker
  new-Tracks cfg e = ground arith

  -- After any calls on any nodes, fewer than 2^63 of them, a new breaker counts the failures of a
  -- node since its last success or reset, and its circuit is closed exactly while that count is
  -- below the threshold, which is positive.
  pub closed_iff_below :
      (cfg : CircuitBreakerConfig) (cs : List Call)
      → cfg.threshold ≡ pos t
      → length cs ≤ max_int
      → let cb = run (new_circuit_breaker cfg) cs in
        let n = foldl (streak node) 0 cs in
        (cb.failures node ≡ pos n) × ((cb.state node ≡ circuit_closed) ↔ (n < t))
  closed_iff_below cfg cs e le =
      let h = run-Tracks 0 0 (new_circuit_breaker cfg) cs (omega arith) (new-Tracks cfg e) in
      (h.counted, (h.below, h.shut))

-- ===== src/Gateway/Breaker/Notices.antt =====
-- The metrics callback of pkg/gateway/circuit_breaker.go is told of every change of state.
use k8s_gpu_mcp_server.Base.{
  ◌≡◌, refl, List, [], ◌∷◌, String, arith, Bool, true, false, foldl, foldl-append, All,
  if◌then◌else◌,
}
use k8s_gpu_mcp_server.Base.Texts.{str_eq, eq_iff}
use k8s_gpu_mcp_server.Gateway.Breaker.Circuit.{
  CircuitState, circuit_closed, circuit_open, circuit_half_open, Notice, CircuitBreaker,
  CircuitBreakerConfig, Call, ask, succeed, fail, forget, allow, record_success, record_failure,
  step, run, new_circuit_breaker,
}

-- What a listener that keeps the last notice of a node knows of its circuit.
abbrev pub heard : String → CircuitState → Notice → CircuitState
heard node s m = if str_eq node m.node then m.state else s

abbrev pub replay : String → List Notice → CircuitState
replay node ms = foldl (heard node) circuit_closed ms

abbrev pub is_reset : Call → Bool
is_reset (forget a) = true
is_reset (ask now a) = false
is_reset (succeed a) = false
is_reset (fail now a) = false

module _ (node : String) where
  step-replay :
      (cb : CircuitBreaker) (c : Call)
      → cb.on_state_change ≡ true
      → is_reset c ≡ false
      → replay node cb.notices ≡ cb.state node
      → ((step cb c).on_state_change ≡ true)
        × (replay node (step cb c).notices ≡ (step cb c).state node)
  unfolding step allow record_success record_failure
  step-replay cb (ask now a) on e h = ground (
    arith,
    eq_iff node a,
    foldl-append (heard node) circuit_closed cb.notices
        (record { node = a; state = circuit_half_open; healthy = false } ∷ []),
  )
  step-replay cb (succeed a) on e h = ground (
    arith,
    eq_iff node a,
    foldl-append (heard node) circuit_closed cb.notices
        (record { node = a; state = circuit_closed; healthy = true } ∷ []),
  )
  step-replay cb (fail now a) on e h = ground (
    arith,
    eq_iff node a,
    foldl-append (heard node) circuit_closed cb.notices
        (record { node = a; state = circuit_open; healthy = false } ∷ []),
  )
  step-replay cb (forget a) on e h = ground arith

  run-replay :
      (cb : CircuitBreaker) (cs : List Call)
      → cb.on_state_change ≡ true
      → All (λ c. is_reset c ≡ false) cs
      → replay node cb.notices ≡ cb.state node
      → replay node (run cb cs).notices ≡ (run cb cs).state node
  unfolding run
  run-replay cb [] on e h = h
  run-replay cb (c ∷ cs) on (e, es) h =
      let (on', h') = step-replay cb c on e h in run-replay (step cb c) cs on' es h'

  -- With a callback, and while no node is reset, the last notice of a node names the state of its
  -- circuit (closed, if there is no notice).
  pub notices_agree :
      (cfg : CircuitBreakerConfig) (cs : List Call)
      → cfg.on_state_change ≡ true
      → All (λ c. is_reset c ≡ false) cs
      → let cb = run (new_circuit_breaker cfg) cs in replay node cb.notices ≡ cb.state node
  unfolding new_circuit_breaker
  notices_agree cfg cs on es = run-replay (new_circuit_breaker cfg) cs on es refl

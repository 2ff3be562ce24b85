-- ===== src/Gateway/Breaker/Tests.antt =====
-- Runs of the circuit breaker of pkg/gateway/circuit_breaker.go, and the theorems at inputs.
use k8s_gpu_mcp_server.Base.{
  ◌+◌, ◌≤◌, ◌<◌, ◌≡◌, refl, ◌↔◌, List, [], ◌∷◌, arith, true, false, filter,
}
use k8s_gpu_mcp_server.Base.Int.{pos}
use k8s_gpu_mcp_server.Base.Texts.{str_eq}
use k8s_gpu_mcp_server.Gateway.Breaker.Circuit.{
  circuit_closed, circuit_open, circuit_half_open, CircuitBreaker, CircuitBreakerConfig, Call, ask,
  fail, node_of, new_circuit_breaker, allow, record_success, record_failure, step, run, reset,
}
use k8s_gpu_mcp_server.Gateway.Breaker.Invariant.{closed_iff_below}
use k8s_gpu_mcp_server.Gateway.Breaker.Isolation.{SameCircuit, run-filter}
use k8s_gpu_mcp_server.Gateway.Breaker.Notices.{replay, notices_agree}
use k8s_gpu_mcp_server.Gateway.Breaker.Recovery.{refused_iff}
use k8s_gpu_mcp_server.Gateway.Breaker.Probes.{answers, failing, half_open_outcome}

abbrev cfg : CircuitBreakerConfig
cfg = record { threshold = pos 2; reset_timeout = pos 10; on_state_change = true }

abbrev fresh : CircuitBreaker
fresh = new_circuit_breaker cfg

-- Two failures of one node open its circuit; another node fails once.
abbrev script : List Call
script = fail 1 "a" ∷ fail 2 "b" ∷ ask 3 "a" ∷ fail 4 "a" ∷ ask 5 "a" ∷ ask 20 "a" ∷ []

script_runs :
    let cb = run fresh script in
    (cb.state "a" ≡ circuit_half_open) × (cb.state "b" ≡ circuit_closed) × (cb.failures "a" ≡ pos 2)
unfolding run step allow record_failure new_circuit_breaker
script_runs = (refl, refl, refl)

closed_iff_below_example :
    let cb = run (new_circuit_breaker cfg) script in
    (cb.failures "a" ≡ pos 2) × ((cb.state "a" ≡ circuit_closed) ↔ (2 < 2))
closed_iff_below_example = closed_iff_below 2 (omega arith) "a" cfg script refl (omega arith)

run-filter_example :
    SameCircuit "b" (run fresh script) (run fresh (filter (λ c. str_eq (node_of c) "b") script))
run-filter_example = run-filter "b" fresh script

notices_agree_example :
    let cb = run (new_circuit_breaker cfg) script in replay "a" cb.notices ≡ cb.state "a"
notices_agree_example = notices_agree "a" cfg script refl (ground arith)

-- One failure short of the threshold.
abbrev warned : CircuitBreaker
warned = record fresh { failures = λ _. pos 1 }

refused_iff_example :
    let cb' = record_failure 5 "a" warned in
    (((allow 12 "a" cb').1 ≡ false) ↔ (12 ≤ 5 + 10))
    × (12 ≤ 5 + 10 → (allow 12 "a" cb').0 ≡ cb')
    × (5 + 10 < 12 → (allow 12 "a" cb').0.state "a" ≡ circuit_half_open)
unfolding record_failure new_circuit_breaker
refused_iff_example = refused_iff warned "a" 5 12 10 refl (omega arith) (omega arith) refl

abbrev probing : CircuitBreaker
probing = record fresh { failures = λ _. pos 2; state = λ _. circuit_half_open }

-- Two failures open the circuit, and a request after the timeout makes it half-open.
half_open_outcome_example :
    let cb = run (new_circuit_breaker cfg) script in
    let reopened = record_failure 30 "a" cb in
    (answers (21 ∷ 21 ∷ 25 ∷ []) "a" cb ≡ true ∷ true ∷ true ∷ [])
    × (reopened.state "a" ≡ circuit_open)
    × (((allow 35 "a" reopened).1 ≡ false) ↔ (35 ≤ 30 + 10))
    × (((run (record_success "a" cb) (failing "a" (50 ∷ []))).state "a" ≡ circuit_closed) ↔ (1 < 2))
half_open_outcome_example =
    half_open_outcome cfg 2 10 "a" script (21 ∷ 21 ∷ 25 ∷ []) (50 ∷ []) 30 35 (omega arith) refl
      refl (omega arith) (omega arith) (omega arith) (script_runs.0)

reset_forgets : (reset "a" probing).state "a" ≡ circuit_closed
unfolding reset
reset_forgets = refl

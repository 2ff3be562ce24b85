-- ===== src/Gateway/Breaker/Isolation.antt =====
-- The circuits of pkg/gateway/circuit_breaker.go do not affect one another.
use k8s_gpu_mcp_server.Base.{
  ℕ, ◌≡◌, refl, List, [], ◌∷◌, String, arith, filter, true, false, Bool-cases, inl, inr,
}
use k8s_gpu_mcp_server.Base.Texts.{str_eq, eq_iff}
use k8s_gpu_mcp_server.Gateway.Breaker.Circuit.{
  CircuitBreaker, Call, ask, succeed, fail, forget, node_of, allow, record_success, record_failure,
  reset, step, run,
}

-- Two breakers that hold the same circuit for `node`, under the same configuration.
pub record SameCircuit (node : String) (a b : CircuitBreaker) : Type 0 where
  pub failures : a.failures node ≡ b.failures node
  pub last_failure : a.last_failure node ≡ b.last_failure node
  pub state : a.state node ≡ b.state node
  pub threshold : a.threshold ≡ b.threshold
  pub reset_timeout : a.reset_timeout ≡ b.reset_timeout

module _ (node : String) where
  pub step-other :
      (a b : CircuitBreaker) (c : Call)
      → str_eq (node_of c) node ≡ false
      → SameCircuit node a b
      → SameCircuit node (step a c) b
  unfolding step allow record_success record_failure reset
  step-other a b (ask now n) e h = ground (arith, eq_iff n node, eq_iff node n)
  step-other a b (succeed n) e h = ground (arith, eq_iff n node, eq_iff node n)
  step-other a b (fail now n) e h = ground (arith, eq_iff n node, eq_iff node n)
  step-other a b (forget n) e h = ground (arith, eq_iff n node, eq_iff node n)

  pub step-same :
      (a b : CircuitBreaker) (c : Call)
      → str_eq (node_of c) node ≡ true
      → SameCircuit node a b
      → SameCircuit node (step a c) (step b c)
  unfolding step allow record_success record_failure reset
  step-same a b (ask now n) e h = ground (arith, eq_iff n node, eq_iff node n)
  step-same a b (succeed n) e h = ground (arith, eq_iff n node, eq_iff node n)
  step-same a b (fail now n) e h = ground (arith, eq_iff n node, eq_iff node n)
  step-same a b (forget n) e h = ground (arith, eq_iff n node, eq_iff node n)

  -- The same circuit gives the same answer.
  pub allow-same :
      (now : ℕ) (a b : CircuitBreaker)
      → SameCircuit node a b
      → (allow now node a).1 ≡ (allow now node b).1
  unfolding allow
  allow-same now a b h = ground (arith, h)

  run-SameCircuit :
      (a b : CircuitBreaker) (cs : List Call)
      → SameCircuit node a b
      → SameCircuit node (run a cs) (run b (filter (λ c. str_eq (node_of c) node) cs))
  unfolding run
  run-SameCircuit a b [] h = h
  run-SameCircuit a b (c ∷ cs) h = elim (Bool-cases (str_eq (node_of c) node)) [
    | inl e ↦ rw e (run-SameCircuit (step a c) (step b c) cs (step-same a b c e h))
    | inr e ↦ rw e (run-SameCircuit (step a c) b cs (step-other a b c e h))
  ]

  -- However the calls on several nodes are interleaved, the circuit of a node ends as if only its
  -- own calls had been made.
  pub run-filter :
      (cb : CircuitBreaker) (cs : List Call)
      → SameCircuit node (run cb cs) (run cb (filter (λ c. str_eq (node_of c) node) cs))
  run-filter cb cs = run-SameCircuit cb cb cs (record {
    failures = refl;
    last_failure = refl;
    state = refl;
    threshold = refl;
    reset_timeout = refl;
  })

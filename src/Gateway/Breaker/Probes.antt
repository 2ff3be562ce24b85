-- ===== src/Gateway/Breaker/Probes.antt =====
-- What follows while a circuit of pkg/gateway/circuit_breaker.go is half-open.
use k8s_gpu_mcp_server.Base.{
  ℕ, suc, ◌+◌, ◌≤◌, ◌<◌, ◌≡◌, refl, ap, ◌∙◌, ◌↔◌, List, [], ◌∷◌, String, arith, Bool, true, false,
  map, length, foldl,
}
use k8s_gpu_mcp_server.Base.Int.{pos, max_int}
use k8s_gpu_mcp_server.Base.Texts.{eq_iff}
use k8s_gpu_mcp_server.Gateway.Breaker.Circuit.{
  circuit_closed, circuit_open, circuit_half_open, CircuitBreaker, CircuitBreakerConfig, Call, ask,
  succeed, fail, forget, new_circuit_breaker, allow, record_success, record_failure, reset, step,
  run,
}
use k8s_gpu_mcp_server.Gateway.Breaker.Invariant.{
  streak, Tracks, step-Tracks, run-Tracks, new-Tracks,
}
use k8s_gpu_mcp_server.Gateway.Breaker.Recovery.{refused_iff}

-- The answers to requests for one node, made one after the other.
pub answers : List ℕ → String → CircuitBreaker → List Bool
answers [] node cb = []
answers (now ∷ ts) node cb = let (cb', ok) = allow now node cb in ok ∷ answers ts node cb'

-- Failures of one node, at these times.
abbrev pub failing : String → List ℕ → List Call
failing node us = map (λ u. fail u node) us

-- No call changes the timeout.
step-reset_timeout : (cb : CircuitBreaker) (c : Call) → (step cb c).reset_timeout ≡ cb.reset_timeout
unfolding step allow record_success record_failure reset
step-reset_timeout cb (ask now a) = ground arith
step-reset_timeout cb (succeed a) = ground arith
step-reset_timeout cb (fail now a) = ground arith
step-reset_timeout cb (forget a) = ground arith

run-reset_timeout :
    (cb : CircuitBreaker) (cs : List Call) → (run cb cs).reset_timeout ≡ cb.reset_timeout
unfolding run
run-reset_timeout cb [] = refl
run-reset_timeout cb (c ∷ cs) = run-reset_timeout (step cb c) cs ∙ step-reset_timeout cb c

allow-half_open :
    (now : ℕ) (node : String) (cb : CircuitBreaker)
    → cb.state node ≡ circuit_half_open
    → allow now node cb ≡ (cb, true)
unfolding allow
allow-half_open now node cb h = ground arith

all_admitted :
    (ts : List ℕ) (node : String) (cb : CircuitBreaker)
    → cb.state node ≡ circuit_half_open
    → answers ts node cb ≡ map (λ _. true) ts
unfolding answers
all_admitted [] node cb h = refl
all_admitted (now ∷ ts) node cb h =
    rw (allow-half_open now node cb h) (ap (◌∷◌ true) (all_admitted ts node cb h))

-- A failure that takes the count to the threshold opens the circuit.
failure_reopens :
    (t k n : ℕ) (cb : CircuitBreaker) (node : String) (now : ℕ)
    → k < max_int
    → Tracks t k n cb node
    → cb.state node ≡ circuit_half_open
    → (record_failure now node cb).state node ≡ circuit_open
unfolding record_failure
failure_reopens t k n cb node now lt h e = ground (arith, eq_iff node node)

foldl-failing :
    (node : String) (n : ℕ) (us : List ℕ) → foldl (streak node) n (failing node us) ≡ n + length us
foldl-failing node n [] = ground arith
foldl-failing node n (u ∷ us) = ground (arith, eq_iff node node, foldl-failing node (n + 1) us)

length-failing : (node : String) (us : List ℕ) → length (failing node us) ≡ length us
length-failing node [] = refl
length-failing node (u ∷ us) = ap suc (length-failing node us)

-- After a success the threshold counts anew.
recovered :
    (t k n : ℕ) (cb : CircuitBreaker) (node : String) (us : List ℕ)
    → 0 < t
    → k + suc (length us) ≤ max_int
    → Tracks t k n cb node
    → ((run (record_success node cb) (failing node us)).state node ≡ circuit_closed)
      ↔ (length us < t)
unfolding step
recovered t k n cb node us p le h =
    let s = step-Tracks t p node k n cb (succeed node) (omega arith) h in
    let r =
      run-Tracks t p node (suc k) _ (record_success node cb) (failing node us)
        (omega (arith, length-failing node us)) s in
    ground (arith, eq_iff node node, foldl-failing node 0 us, r.below, r.shut)

-- When the calls on a new breaker have left the circuit of a node half-open: every request for the
-- node is admitted, however many come before an outcome; one failure opens the circuit again, and a
-- request at a later time `u` is refused exactly until more than the reset timeout has passed since
-- it; and after one success it takes as many failures as the threshold to leave the closed state.
-- (The threshold is positive, the calls are fewer than 2^63, and the later time lies within the range
-- of one `time.Duration`.)
pub half_open_outcome :
    (cfg : CircuitBreakerConfig) (t d : ℕ) (node : String) (cs : List Call) (ts us : List ℕ)
    (now u : ℕ)
    → 0 < t
    → cfg.threshold ≡ pos t
    → cfg.reset_timeout ≡ pos d
    → length cs + suc (length us) ≤ max_int
    → now ≤ u
    → u < now + max_int
    → (run (new_circuit_breaker cfg) cs).state node ≡ circuit_half_open
    → let cb = run (new_circuit_breaker cfg) cs in
      let reopened = record_failure now node cb in
      (answers ts node cb ≡ map (λ _. true) ts)
      × (reopened.state node ≡ circuit_open)
      × (((allow u node reopened).1 ≡ false) ↔ (u ≤ now + d))
      × (((run (record_success node cb) (failing node us)).state node ≡ circuit_closed)
          ↔ (length us < t))
unfolding new_circuit_breaker
half_open_outcome cfg t d node cs ts us now u p e f le later near h =
    let start = new_circuit_breaker cfg in
    let cb = run start cs in
    let k = run-Tracks t p node 0 0 start cs (omega arith) (new-Tracks t p node cfg e) in
    let tripped = failure_reopens t _ _ cb node now (omega arith) k h in
    (
      all_admitted ts node cb h,
      tripped,
      (refused_iff cb node now u d (run-reset_timeout start cs ∙ f) later near tripped).0,
      recovered t _ _ cb node us p (omega arith) k,
    )

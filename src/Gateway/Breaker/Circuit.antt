-- ===== src/Gateway/Breaker/Circuit.antt =====
-- The state and the methods of pkg/gateway/circuit_breaker.go.
use k8s_gpu_mcp_server.Base.{ℕ, ◌*◌, Bool, true, false, List, [], ◌∷◌, ◌++◌, String, if◌then◌else◌}
use k8s_gpu_mcp_server.Base.Int.{ℤ, pos, ltz, lez, inc_int, sub_time}
use k8s_gpu_mcp_server.Base.Texts.{str_eq}

pub data CircuitState : Type 0 where
  circuit_closed circuit_open circuit_half_open : CircuitState

-- A call of the metrics callback.
pub record Notice : Type 0 where
  pub node : String
  pub state : CircuitState
  pub healthy : Bool

pub record CircuitBreaker : Type 0 where
  pub failures : String → ℤ
  pub last_failure : String → ℕ
  pub state : String → CircuitState
  pub threshold : ℤ
  pub reset_timeout : ℤ
  pub on_state_change : Bool
  pub notices : List Notice

pub record CircuitBreakerConfig : Type 0 where
  pub threshold : ℤ
  pub reset_timeout : ℤ
  pub on_state_change : Bool

-- `m[k] = v`
abbrev pub update {ℓ} : {V : Type ℓ} → (String → V) → String → V → String → V
update m k v j = if str_eq j k then v else m j

pub default_config : CircuitBreakerConfig
default_config = record {
  threshold = pos 3;
  reset_timeout = pos (30 * 1_000_000_000);
  on_state_change = false;
}

unfoldable pub new_circuit_breaker : CircuitBreakerConfig → CircuitBreaker
new_circuit_breaker cfg = record {
  failures = λ _. pos 0;
  last_failure = λ _. 0;
  state = λ _. circuit_closed;
  threshold = cfg.threshold;
  reset_timeout = cfg.reset_timeout;
  on_state_change = cfg.on_state_change;
  notices = [];
}

pub notify_state_change : String → CircuitState → Bool → CircuitBreaker → CircuitBreaker
notify_state_change node state healthy cb =
    if cb.on_state_change
    then record cb {
      notices = cb.notices ++ record { node = node; state = state; healthy = healthy } ∷ [];
    }
    else cb

-- The `switch` of `Allow`, on the state that it has read.
pub allow_in : CircuitState → ℕ → String → CircuitBreaker → CircuitBreaker × Bool
unfolding notify_state_change
allow_in circuit_open now node cb =
    if ltz cb.reset_timeout (sub_time now (cb.last_failure node))
    then (
      notify_state_change node circuit_half_open false
          (record cb { state = update cb.state node circuit_half_open }),
      true,
    )
    else (cb, false)
allow_in circuit_half_open now node cb = (cb, true)
allow_in circuit_closed now node cb = (cb, true)

unfoldable pub allow : ℕ → String → CircuitBreaker → CircuitBreaker × Bool
unfolding allow_in
allow now node cb = allow_in (cb.state node) now node cb

unfoldable pub record_success : String → CircuitBreaker → CircuitBreaker
unfolding notify_state_change
record_success node cb = notify_state_change node circuit_closed true (record cb {
  failures = update cb.failures node (pos 0);
  state = update cb.state node circuit_closed;
})

unfoldable pub record_failure : ℕ → String → CircuitBreaker → CircuitBreaker
unfolding notify_state_change
record_failure now node cb =
    let cb' = record cb {
      failures = update cb.failures node (inc_int (cb.failures node));
      last_failure = update cb.last_failure node now;
    } in
    if lez cb'.threshold (cb'.failures node)
    then notify_state_change node circuit_open false
        (record cb' { state = update cb'.state node circuit_open })
    else cb'

unfoldable pub reset : String → CircuitBreaker → CircuitBreaker
reset node cb = record cb {
  failures = update cb.failures node (pos 0);
  last_failure = update cb.last_failure node 0;
  state = update cb.state node circuit_closed;
}

-- A call of a method that may change the breaker. Times are the clock's readings at the call.
pub data Call : Type 0 where
  ask : ℕ → String → Call
  succeed : String → Call
  fail : ℕ → String → Call
  forget : String → Call

abbrev pub node_of : Call → String
node_of (ask now node) = node
node_of (succeed node) = node
node_of (fail now node) = node
node_of (forget node) = node

unfoldable pub step : CircuitBreaker → Call → CircuitBreaker
step cb (ask now node) = (allow now node cb).0
step cb (succeed node) = record_success node cb
step cb (fail now node) = record_failure now node cb
step cb (forget node) = reset node cb

unfoldable pub run : CircuitBreaker → List Call → CircuitBreaker
run cb [] = cb
run cb (c ∷ cs) = run (step cb c) cs

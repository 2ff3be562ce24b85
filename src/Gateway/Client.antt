-- ===== src/Gateway/Client.antt =====
-- pkg/gateway/http_client.go: the attempts of `CallMCP` and the pauses between them. `do_request` is
-- what `doRequest` returns for an attempt, `none` an error. A context is asked once after a pause, which
-- ends early if it is done, and once after a request that failed.
pub mod Attempts
mod Tests
use k8s_gpu_mcp_server.Base.{
  ℕ, zero, suc, ◌+◌, ◌-◌, ◌*◌, ◌^◌, ◌%◌, Bool, true, false, List, Option, none, some, ◌==◌, leb,
  if◌then◌else◌,
}
use k8s_gpu_mcp_server.Base.Int.{ℤ, pos, negsuc, max_int, ltz}
use k8s_gpu_mcp_server.Events.Correlator.Types.{Context, ask}

-- Delays are nanoseconds.
pub record RetryPolicy : Type 0 where
  pub max_retries : ℕ
  pub base_delay : ℕ
  pub max_delay : ℕ

pub default_retry_policy : RetryPolicy
default_retry_policy = record {
  max_retries = 3;
  base_delay = 100_000_000;
  max_delay = 2_000_000_000;
}

-- A word of 64 bits as an int64.
abbrev pub as_int64 : ℕ → ℤ
as_int64 n = if leb (n % 2 ^ 64) max_int then pos (n % 2 ^ 64) else negsuc (2 ^ 64 - n % 2 ^ 64 - 1)

-- For an attempt from 1 on.
unfoldable pub calculate_backoff : RetryPolicy → ℕ → ℤ
calculate_backoff policy attempt =
    let delay = as_int64 (policy.base_delay * 2 ^ (attempt - 1)) in
    if ltz (pos policy.max_delay) delay then pos policy.max_delay else delay

pub data Outcome : Type 0 where
  answered : List ℕ → Outcome
  cancelled exhausted : Outcome

-- The pause before all attempts but the first.
abbrev pub pause : ℕ → Context → Bool × Context
pause attempt ctx = if attempt == 0 then (false, ctx) else ask ctx

-- What follows a request, with the number of requests.
abbrev pub after_request : Option (List ℕ) → Bool × Context → (Context → Outcome × ℕ) → Outcome × ℕ
after_request (some r) asked more = (answered r, 1)
after_request none (true, ctx) more = (cancelled, 1)
after_request none (false, ctx) more = let (o, n) = more ctx in (o, n + 1)

abbrev pub unless_done : Bool × Context → (Context → Outcome × ℕ) → Outcome × ℕ
unless_done (true, ctx) go = (cancelled, 0)
unless_done (false, ctx) go = go ctx

-- So many attempts, from a number on.
unfoldable pub attempts : (ℕ → Option (List ℕ)) → ℕ → ℕ → Context → Outcome × ℕ
attempts do_request zero attempt ctx = (exhausted, 0)
attempts do_request (suc n) attempt ctx =
    unless_done (pause attempt ctx)
      λ c. after_request (do_request attempt) (ask c) λ d. attempts do_request n (attempt + 1) d

unfoldable pub call_mcp : RetryPolicy → (ℕ → Option (List ℕ)) → Context → Outcome × ℕ
unfolding attempts
call_mcp policy do_request ctx = attempts do_request (policy.max_retries + 1) 0 ctx

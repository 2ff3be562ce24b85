-- ===== src/Gateway/Router.antt =====
-- pkg/gateway/router.go: how a request reaches one node or all of them. `RouteToAllNodes` starts one
-- goroutine for each node that its loop admits; the steps that touch shared state are the events of a
-- schedule, in any order: the loop visits a node, its goroutine begins to route, the transport has
-- answered, or the context ends while the goroutine waits for the semaphore. The semaphore only
-- restricts which schedules there are. The clients of HTTP and exec are parameters; logging, metrics
-- and request identifiers are left out.
pub mod Interleaved
pub mod Alone
pub mod Schedules
mod Tests
use k8s_gpu_mcp_server.Base.{
  ℕ, suc, Bool, true, false, not, ◌&&◌, ◌||◌, Option, none, some, List, [], ◌∷◌, ◌++◌, String, ◌==◌,
  if◌then◌else◌, length, filter, foldl, any,
}
use k8s_gpu_mcp_server.Base.Texts.{codes, str_eq}
use k8s_gpu_mcp_server.Gateway.Breaker.Circuit.{
  CircuitBreaker, allow, record_success, record_failure, update,
}

pub data RoutingMode : Type 0 where
  http_mode exec_mode : RoutingMode

-- pkg/k8s/client.go.
pub record GpuNode : Type 0 where
  pub name : String
  pub pod_name : String
  pub pod_ip : String
  pub ready : Bool
  pub namespace : String
  pub service_name : String

abbrev pub has_colon : List ℕ → Bool
has_colon s = any (λ c. c == b':') s

-- The port of the agents.
abbrev pub agent_port : List ℕ
agent_port = codes ":8080"

unfoldable pub get_agent_http_endpoint : GpuNode → List ℕ
get_agent_http_endpoint n =
    if str_eq n.pod_ip ""
    then []
    else if has_colon (codes n.pod_ip)
    then codes "http://[" ++ codes n.pod_ip ++ codes "]" ++ agent_port
    else codes "http://" ++ codes n.pod_ip ++ agent_port

unfoldable pub get_agent_dns_endpoint : GpuNode → List ℕ
get_agent_dns_endpoint n =
    if str_eq n.pod_name "" || str_eq n.service_name "" || str_eq n.namespace ""
    then []
    else codes "http://"
      ++ codes n.pod_name
      ++ codes "."
      ++ codes n.service_name
      ++ codes "."
      ++ codes n.namespace
      ++ codes ".svc.cluster.local"
      ++ agent_port

-- The clients; `none` is an error.
pub record Transport : Type 0 where
  pub via_http : GpuNode → List ℕ → Option (List ℕ)
  pub via_exec : GpuNode → Option (List ℕ)

abbrev pub http_or : Transport → GpuNode → List ℕ → Option (List ℕ) → Option (List ℕ)
http_or t n [] fallback = fallback
http_or t n (c ∷ endpoint) fallback = t.via_http n (c ∷ endpoint)

-- The choice of the endpoint, and of exec where there is none.
unfoldable pub transmit : RoutingMode → Transport → GpuNode → Option (List ℕ)
unfolding get_agent_http_endpoint get_agent_dns_endpoint
transmit http_mode t n =
    http_or t n (get_agent_http_endpoint n) (http_or t n (get_agent_dns_endpoint n) (t.via_exec n))
transmit exec_mode t n = t.via_exec n

pub data RouteError : Type 0 where
  not_ready circuit_refuses request_failed no_slot : RouteError

pub data Answer : Type 0 where
  response : List ℕ → Answer
  failure : RouteError → Answer

-- The breaker is told of the transport's answer, at a time.
unfoldable pub settle : ℕ → String → Option (List ℕ) → CircuitBreaker → Answer × CircuitBreaker
settle now node none cb = (failure request_failed, record_failure now node cb)
settle now node (some r) cb = (response r, record_success node cb)

-- After the question to the breaker, at the time of the answer.
unfoldable pub if_allowed :
    ℕ → String → Option (List ℕ) → CircuitBreaker × Bool → Answer × CircuitBreaker
unfolding settle
if_allowed now node sent (cb, true) = settle now node sent cb
if_allowed now node sent (cb, false) = (failure circuit_refuses, cb)

-- `asked` and `answered` are the times of `Allow` and of the answer.
unfoldable pub route_to_gpu_node :
    RoutingMode → Transport → ℕ → ℕ → GpuNode → CircuitBreaker → Answer × CircuitBreaker
unfolding transmit if_allowed
route_to_gpu_node mode t asked answered n cb =
    if not n.ready
    then (failure not_ready, cb)
    else if_allowed answered n.name (transmit mode t n) (allow asked n.name cb)

pub record NodeResult : Type 0 where
  pub node_name : String
  pub answer : Answer

-- Where a node is in `RouteToAllNodes`: not visited yet, waiting with its goroutine, with its request
-- under way, or done.
pub data Stage : Type 0 where
  unvisited waiting under_way settled : Stage

pub record Routing : Type 0 where
  pub breaker : CircuitBreaker
  pub stage : String → Stage
  pub results : List NodeResult

-- The steps, at a time where they read the clock.
pub data Event : Type 0 where
  visit begin finish : ℕ → GpuNode → Event
  abandon : GpuNode → Event

abbrev pub result : GpuNode → Answer → NodeResult
result n a = record { node_name = n.name; answer = a }

abbrev pub close : GpuNode → Answer → Routing → Routing
close n a r = record r {
  stage = update r.stage n.name settled;
  results = r.results ++ (result n a ∷ []);
}

abbrev pub go_on : GpuNode → Stage → Routing → Routing
go_on n s r = record r { stage = update r.stage n.name s }

-- After a question to the breaker.
abbrev pub if_admitted : GpuNode → Stage → Routing → CircuitBreaker × Bool → Routing
if_admitted n s r (cb, true) = go_on n s (record r { breaker = cb })
if_admitted n s r (cb, false) = close n (failure circuit_refuses) (record r { breaker = cb })

abbrev pub visit_in : Stage → ℕ → GpuNode → Routing → Routing
visit_in unvisited now n r =
    if not n.ready then go_on n settled r else if_admitted n waiting r (allow now n.name r.breaker)
visit_in _ now n r = r

abbrev pub begin_in : Stage → ℕ → GpuNode → Routing → Routing
begin_in waiting now n r = if_admitted n under_way r (allow now n.name r.breaker)
begin_in _ now n r = r

unfoldable pub finish_in : Stage → ℕ → GpuNode → Option (List ℕ) → Routing → Routing
unfolding settle
finish_in under_way now n answer r =
    let (a, cb) = settle now n.name answer r.breaker in close n a (record r { breaker = cb })
finish_in _ now n answer r = r

abbrev pub abandon_in : Stage → GpuNode → Routing → Routing
abandon_in waiting n r = close n (failure no_slot) r
abandon_in _ n r = r

module _ (mode : RoutingMode) (t : Transport) where
  unfoldable pub happen : Routing → Event → Routing
  unfolding finish_in transmit
  happen r (visit now n) = visit_in (r.stage n.name) now n r
  happen r (begin now n) = begin_in (r.stage n.name) now n r
  happen r (finish now n) = finish_in (r.stage n.name) now n (transmit mode t n) r
  happen r (abandon n) = abandon_in (r.stage n.name) n r

  -- A schedule from the start of a call; the results are in the order in which they are collected.
  unfoldable pub route_to_all_nodes : CircuitBreaker → List Event → Routing
  unfolding happen
  route_to_all_nodes cb events =
      foldl happen (record { breaker = cb; stage = λ _. unvisited; results = [] }) events

abbrev pub is_response : Answer → Bool
is_response (response r) = true
is_response (failure e) = false

-- Whether `RouteToAllNodes` returns an error with its results.
unfoldable pub all_failed : List NodeResult → Bool
all_failed results =
    length (filter (λ r. is_response r.answer) results) == 0 && not (length results == 0)

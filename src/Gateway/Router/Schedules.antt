-- ===== src/Gateway/Router/Schedules.antt =====
-- What a schedule of `RouteToAllNodes` in pkg/gateway/router.go gives for a node.
use mathlib.Core.Path.{subst}
use k8s_gpu_mcp_server.Base.{
  ℕ, ◌≡◌, refl, sym, ap, ◌∙◌, Bool, true, false, not, List, [], ◌∷◌, String, Bool-cases, inl, inr,
  filter, foldl, if◌then◌else◌,
}
use k8s_gpu_mcp_server.Base.Texts.{str_eq, eq_iff, eq_refl}
use k8s_gpu_mcp_server.Gateway.Breaker.Circuit.{CircuitBreaker, allow, update}
use k8s_gpu_mcp_server.Gateway.Breaker.Isolation.{SameCircuit}
use k8s_gpu_mcp_server.Gateway.Router.{
  RoutingMode, Transport, GpuNode, Answer, failure, not_ready, circuit_refuses, Stage, unvisited,
  waiting, under_way, settled, Routing, Event, visit, begin, finish, result, close, go_on,
  if_admitted, visit_in, finish_in, settle, transmit, happen, route_to_gpu_node, if_allowed,
  route_to_all_nodes,
}
use k8s_gpu_mcp_server.Gateway.Router.Interleaved.{SameNode, node_of, results_of, filter-append}
use k8s_gpu_mcp_server.Gateway.Router.Alone.{happen-other, happen-same}

-- The events of a node.
abbrev pub own : String → List Event → List Event
own node events = filter (λ e. str_eq (node_of e) node) events

module _ (mode : RoutingMode) (t : Transport) where
  foldl-SameNode :
      (node : String) (r s : Routing) (events : List Event)
      → SameNode node r s
      → SameNode node (foldl (happen mode t) r events) (foldl (happen mode t) s (own node events))
  foldl-SameNode node r s [] h = h
  foldl-SameNode node r s (e ∷ events) h = elim (Bool-cases (str_eq (node_of e) node)) [
    | inl p ↦
        let same : node_of e ≡ node = (eq_iff (node_of e) node).0 p in
        rw p (
          foldl-SameNode node (happen mode t r e) (happen mode t s e) events (
            subst (λ m. SameNode m (happen mode t r e) (happen mode t s e)) same
              (happen-same mode t r s e (subst (λ m. SameNode m r s) (sym same) h))))
    | inr n ↦
        rw n (foldl-SameNode node (happen mode t r e) s events (happen-other mode t node r s e n h))
  ]

  -- A call for one node alone: the question of the loop, and then the route.
  abbrev pub admitted_route : ℕ → ℕ → GpuNode → CircuitBreaker × Bool → Answer × CircuitBreaker
  admitted_route asked answered n (cb, true) = route_to_gpu_node mode t asked answered n cb
  admitted_route asked answered n (cb, false) = (failure circuit_refuses, cb)

  module _ (n : GpuNode) where
    abbrev Nothing : Routing → Type 0
    Nothing r = results_of n.name r ≡ []

    -- The node has one result, and the breaker is as it should be.
    record Ends (r : Routing) (out : Answer × CircuitBreaker) : Type 0 where
      one_result : results_of n.name r ≡ result n out.0 ∷ []
      breaker : r.breaker ≡ out.1

    close-results :
        (a : Answer) (r : Routing) → Nothing r → results_of n.name (close n a r) ≡ result n a ∷ []
    close-results a r e =
        filter-append (λ x. str_eq x.node_name n.name) r.results (result n a ∷ [])
        ∙ rw (e, eq_refl n.name) refl

    marked : (f : String → Stage) (st : Stage) → update f n.name st n.name ≡ st
    marked f st = rw (eq_refl n.name) refl

    finish-Ends :
        (now : ℕ) (r : Routing)
        → r.stage n.name ≡ under_way
        → Nothing r
        → Ends (happen mode t r (finish now n)) (settle now n.name (transmit mode t n) r.breaker)
    unfolding happen finish_in
    finish-Ends now r e h = rw e (record {
      one_result =
          close-results _
            (record r { breaker = (settle now n.name (transmit mode t n) r.breaker).1 }) h;
      breaker = refl;
    })

    settled-finish :
        (now : ℕ) (r : Routing) → r.stage n.name ≡ settled → happen mode t r (finish now n) ≡ r
    unfolding happen finish_in
    settled-finish now r e = rw e refl

    settled-begin :
        (now : ℕ) (r : Routing) → r.stage n.name ≡ settled → happen mode t r (begin now n) ≡ r
    unfolding happen
    settled-begin now r e = rw e refl

    begun-Ends :
        (now : ℕ) (r : Routing) (p : CircuitBreaker × Bool)
        → Nothing r
        → Ends
            (happen mode t (if_admitted n under_way r p) (finish now n))
            (if_allowed now n.name (transmit mode t n) p)
    unfolding if_allowed
    begun-Ends now r (cb, true) h =
        finish-Ends now (go_on n under_way (record r { breaker = cb })) (marked r.stage under_way) h
    begun-Ends now r (cb, false) h =
        rw
          (settled-finish now (close n (failure circuit_refuses) (record r { breaker = cb }))
            (marked r.stage settled))
          (record { one_result = close-results _ (record r { breaker = cb }) h; breaker = refl })

    ready_route :
        (asked answered : ℕ) (cb : CircuitBreaker)
        → n.ready ≡ true
        → route_to_gpu_node mode t asked answered n cb
          ≡ if_allowed answered n.name (transmit mode t n) (allow asked n.name cb)
    unfolding route_to_gpu_node
    ready_route asked answered cb ready =
        ap
          (λ b.
            if not b
            then (failure not_ready, cb)
            else if_allowed answered n.name (transmit mode t n) (allow asked n.name cb))
          ready

    begin-Ends :
        (asked answered : ℕ) (r : Routing)
        → n.ready ≡ true
        → r.stage n.name ≡ waiting
        → Nothing r
        → Ends
            (happen mode t (happen mode t r (begin asked n)) (finish answered n))
            (route_to_gpu_node mode t asked answered n r.breaker)
    unfolding happen
    begin-Ends asked answered r ready e h =
        rw (ready_route asked answered r.breaker ready, e)
          (begun-Ends answered r (allow asked n.name r.breaker) h)

    visited-Ends :
        (asked answered : ℕ) (r : Routing) (p : CircuitBreaker × Bool)
        → n.ready ≡ true
        → Nothing r
        → Ends
            (happen mode t
              (happen mode t (if_admitted n waiting r p) (begin asked n))
              (finish answered n))
            (admitted_route asked answered n p)
    visited-Ends asked answered r (cb, true) ready h =
        begin-Ends asked answered (go_on n waiting (record r { breaker = cb })) ready
          (marked r.stage waiting) h
    visited-Ends asked answered r (cb, false) ready h =
        let refused = close n (failure circuit_refuses) (record r { breaker = cb }) in
        let s = marked r.stage settled in
        rw (settled-begin asked refused s, settled-finish answered refused s)
          (record { one_result = close-results _ (record r { breaker = cb }) h; breaker = refl })

    visit-eq :
        (now : ℕ) (r : Routing)
        → n.ready ≡ true
        → r.stage n.name ≡ unvisited
        → happen mode t r (visit now n) ≡ if_admitted n waiting r (allow now n.name r.breaker)
    unfolding happen
    visit-eq now r ready e =
        ap (λ s. visit_in s now n r) e
        ∙ ap
            (λ b.
              if not b
              then go_on n settled r
              else if_admitted n waiting r (allow now n.name r.breaker))
            ready

-- A node's own result, and the circuit that it leaves, as of a call for the node alone.
pub record AsAlone (n : GpuNode) (r : Routing) (out : Answer × CircuitBreaker) : Type 0 where
  pub one_result : results_of n.name r ≡ result n out.0 ∷ []
  pub circuit : SameCircuit n.name r.breaker out.1

-- In whatever order the steps of a call of RouteToAllNodes happen, with whatever other nodes: a ready
-- node that is visited, begins to route and gets its answer, in this order, has exactly one result,
-- and this and its circuit are those of asking the breaker and then routing to the node alone, at
-- the same times.
pub route_to_all_nodes-AsAlone :
    (mode : RoutingMode) (t : Transport) (cb : CircuitBreaker) (events : List Event) (n : GpuNode)
    (seen asked answered : ℕ)
    → n.ready ≡ true
    → own n.name events ≡ visit seen n ∷ begin asked n ∷ finish answered n ∷ []
    → AsAlone n
        (route_to_all_nodes mode t cb events)
        (admitted_route mode t asked answered n (allow seen n.name cb))
unfolding route_to_all_nodes
route_to_all_nodes-AsAlone mode t cb events n seen asked answered ready e =
    let start : Routing = record { breaker = cb; stage = λ _. unvisited; results = [] } in
    let same = foldl-SameNode mode t n.name start start events (record {
      circuit = record {
        failures = refl;
        last_failure = refl;
        state = refl;
        threshold = refl;
        reset_timeout = refl;
      };
      stage = refl;
      results = refl;
    }) in
    let alone = foldl (happen mode t) start (own n.name events) in
    let ends : Ends mode t n alone (admitted_route mode t asked answered n (allow seen n.name cb)) =
      rw (e, visit-eq mode t n seen start ready refl)
        (visited-Ends mode t n asked answered start (allow seen n.name cb) ready refl) in
    record {
      one_result = same.results ∙ ends.one_result;
      circuit =
          subst (λ c. SameCircuit n.name (foldl (happen mode t) start events).breaker c)
            ends.breaker same.circuit;
    }

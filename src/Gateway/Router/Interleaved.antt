-- ===== src/Gateway/Router/Interleaved.antt =====
-- The goroutines of `RouteToAllNodes` in pkg/gateway/router.go do not affect one another.
use k8s_gpu_mcp_server.Base.{
  ℕ, ◌≡◌, refl, ap, ◌∙◌, Bool, true, false, Option, none, some, List, [], ◌∷◌, ◌++◌, String,
  append-nil, Bool-cases, inl, inr, arith, filter,
}
use k8s_gpu_mcp_server.Base.Texts.{str_eq, eq_iff}
use k8s_gpu_mcp_server.Gateway.Breaker.Circuit.{
  CircuitBreaker, allow, update, ask, succeed, fail, step,
}
use k8s_gpu_mcp_server.Gateway.Breaker.Isolation.{SameCircuit, step-other}
use k8s_gpu_mcp_server.Gateway.Router.{
  GpuNode, NodeResult, Answer, failure, circuit_refuses, no_slot, Stage, unvisited, waiting,
  under_way, settled, Routing, Event, visit, begin, finish, abandon, result, close, go_on,
  if_admitted, visit_in, begin_in, finish_in, abandon_in, settle,
}

pub filter-append {ℓ} :
    {A : Type ℓ} (p : A → Bool) (xs ys : List A) → filter p (xs ++ ys) ≡ filter p xs ++ filter p ys
filter-append p [] ys = refl
filter-append p (x ∷ xs) ys = elim (Bool-cases (p x)) [
  | inl e ↦ rw e (ap (◌∷◌ x) (filter-append p xs ys))
  | inr n ↦ rw n (filter-append p xs ys)
]

abbrev pub node_of : Event → String
node_of (visit now n) = n.name
node_of (begin now n) = n.name
node_of (finish now n) = n.name
node_of (abandon n) = n.name

abbrev pub results_of : String → Routing → List NodeResult
results_of node r = filter (λ x. str_eq x.node_name node) r.results

-- The same for a node: its circuit, where it is, and its results.
pub record SameNode (node : String) (r s : Routing) : Type 0 where
  pub circuit : SameCircuit node r.breaker s.breaker
  pub stage : r.stage node ≡ s.stage node
  pub results : results_of node r ≡ results_of node s

module _ (node : String) where
  -- Another node leaves it as it is.
  module _ (n : GpuNode) (other : str_eq n.name node ≡ false) (s : Routing) where
    stage-other : (f : String → Stage) (st : Stage) → update f n.name st node ≡ f node
    stage-other f st = ground (arith, eq_iff n.name node, eq_iff node n.name, other)

    close-other : (a : Answer) (r : Routing) → SameNode node r s → SameNode node (close n a r) s
    close-other a r h = record {
      circuit = h.circuit;
      stage = stage-other r.stage settled ∙ h.stage;
      results =
          filter-append (λ x. str_eq x.node_name node) r.results (result n a ∷ [])
          ∙ rw other (append-nil (results_of node r))
          ∙ h.results;
    }

    go_on-other : (st : Stage) (r : Routing) → SameNode node r s → SameNode node (go_on n st r) s
    go_on-other st r h = record {
      circuit = h.circuit;
      stage = stage-other r.stage st ∙ h.stage;
      results = h.results;
    }

    with_breaker :
        (cb : CircuitBreaker) (r : Routing)
        → SameCircuit node cb s.breaker
        → SameNode node r s
        → SameNode node (record r { breaker = cb }) s
    with_breaker cb r c h = record { circuit = c; stage = h.stage; results = h.results }

    if_admitted-other :
        (st : Stage) (r : Routing) (p : CircuitBreaker × Bool)
        → SameCircuit node p.0 s.breaker
        → SameNode node r s
        → SameNode node (if_admitted n st r p) s
    if_admitted-other st r (cb, true) c h =
        go_on-other st (record r { breaker = cb }) (with_breaker cb r c h)
    if_admitted-other st r (cb, false) c h =
        close-other (failure circuit_refuses) (record r { breaker = cb }) (with_breaker cb r c h)

    allow-other :
        (now : ℕ) (r : Routing)
        → SameNode node r s
        → SameCircuit node (allow now n.name r.breaker).0 s.breaker
    unfolding step
    allow-other now r h = step-other node r.breaker s.breaker (ask now n.name) other h.circuit

    pub visit_in-other :
        (st : Stage) (now : ℕ) (r : Routing)
        → SameNode node r s
        → SameNode node (visit_in st now n r) s
    visit_in-other unvisited now r h = elim (Bool-cases n.ready) [
      | inl e ↦ rw e (if_admitted-other waiting r _ (allow-other now r h) h)
      | inr e ↦ rw e (go_on-other settled r h)
    ]
    visit_in-other waiting now r h = h
    visit_in-other under_way now r h = h
    visit_in-other settled now r h = h

    pub begin_in-other :
        (st : Stage) (now : ℕ) (r : Routing)
        → SameNode node r s
        → SameNode node (begin_in st now n r) s
    begin_in-other unvisited now r h = h
    begin_in-other waiting now r h = if_admitted-other under_way r _ (allow-other now r h) h
    begin_in-other under_way now r h = h
    begin_in-other settled now r h = h

    pub finish_in-other :
        (st : Stage) (now : ℕ) (o : Option (List ℕ)) (r : Routing)
        → SameNode node r s
        → SameNode node (finish_in st now n o r) s
    unfolding finish_in settle step
    finish_in-other unvisited now o r h = h
    finish_in-other waiting now o r h = h
    finish_in-other under_way now none r h =
        let c = step-other node r.breaker s.breaker (fail now n.name) other h.circuit in
        close-other _ _ (with_breaker _ r c h)
    finish_in-other under_way now (some x) r h =
        let c = step-other node r.breaker s.breaker (succeed n.name) other h.circuit in
        close-other _ _ (with_breaker _ r c h)
    finish_in-other settled now o r h = h

    pub abandon_in-other :
        (st : Stage) (r : Routing) → SameNode node r s → SameNode node (abandon_in st n r) s
    abandon_in-other unvisited r h = h
    abandon_in-other waiting r h = close-other (failure no_slot) r h
    abandon_in-other under_way r h = h
    abandon_in-other settled r h = h

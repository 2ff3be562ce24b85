-- ===== src/Gateway/Router/Alone.antt =====
-- Every node ends a call of `RouteToAllNodes` in pkg/gateway/router.go as if it were alone.
use k8s_gpu_mcp_server.Base.{
  ℕ, ◌≡◌, refl, sym, ap, ◌∙◌, Bool, true, false, Option, none, some, List, [], ◌∷◌, ◌++◌, String,
  Bool-cases, inl, inr, arith, filter,
}
use k8s_gpu_mcp_server.Base.Texts.{str_eq, eq_refl}
use k8s_gpu_mcp_server.Gateway.Breaker.Circuit.{CircuitBreaker, allow, ask, succeed, fail, step}
use k8s_gpu_mcp_server.Gateway.Breaker.Isolation.{SameCircuit, step-same, allow-same}
use k8s_gpu_mcp_server.Gateway.Router.{
  RoutingMode, Transport, GpuNode, Answer, failure, circuit_refuses, no_slot, Stage, unvisited,
  waiting, under_way, settled, Routing, Event, visit, begin, finish, abandon, result, close, go_on,
  if_admitted, visit_in, begin_in, finish_in, abandon_in, settle, transmit, happen,
}
use k8s_gpu_mcp_server.Gateway.Router.Interleaved.{
  SameNode, node_of, filter-append, visit_in-other, begin_in-other, finish_in-other,
  abandon_in-other,
}

-- A step of the node itself does the same in both.
module _ (n : GpuNode) where
  close-same :
      (a : Answer) (r s : Routing)
      → SameNode n.name r s
      → SameNode n.name (close n a r) (close n a s)
  close-same a r s h = record {
    circuit = h.circuit;
    stage = rw (eq_refl n.name) refl;
    results =
        filter-append (λ x. str_eq x.node_name n.name) r.results (result n a ∷ [])
        ∙ ap (λ xs. xs ++ filter (λ x. str_eq x.node_name n.name) (result n a ∷ [])) h.results
        ∙ sym (filter-append (λ x. str_eq x.node_name n.name) s.results (result n a ∷ []));
  }

  go_on-same :
      (st : Stage) (r s : Routing)
      → SameNode n.name r s
      → SameNode n.name (go_on n st r) (go_on n st s)
  go_on-same st r s h = record {
    circuit = h.circuit;
    stage = rw (eq_refl n.name) refl;
    results = h.results;
  }

  with_breakers :
      (cb db : CircuitBreaker) (r s : Routing)
      → SameCircuit n.name cb db
      → SameNode n.name r s
      → SameNode n.name (record r { breaker = cb }) (record s { breaker = db })
  with_breakers cb db r s c h = record { circuit = c; stage = h.stage; results = h.results }

  if_admitted-same :
      (st : Stage) (r s : Routing) (p q : CircuitBreaker × Bool)
      → p.1 ≡ q.1
      → SameCircuit n.name p.0 q.0
      → SameNode n.name r s
      → SameNode n.name (if_admitted n st r p) (if_admitted n st s q)
  if_admitted-same st r s (cb, true) (db, true) e c h =
      go_on-same st _ _ (with_breakers cb db r s c h)
  if_admitted-same st r s (cb, false) (db, false) e c h =
      close-same (failure circuit_refuses) _ _ (with_breakers cb db r s c h)
  if_admitted-same st r s (cb, true) (db, false) e c h = absurd (ground (arith, e))
  if_admitted-same st r s (cb, false) (db, true) e c h = absurd (ground (arith, e))

  asked-same :
      (now : ℕ) (st : Stage) (r s : Routing)
      → SameNode n.name r s
      → SameNode n.name
          (if_admitted n st r (allow now n.name r.breaker))
          (if_admitted n st s (allow now n.name s.breaker))
  unfolding step
  asked-same now st r s h =
      if_admitted-same st r s _ _ (allow-same n.name now r.breaker s.breaker h.circuit)
        (step-same n.name r.breaker s.breaker (ask now n.name) (eq_refl n.name) h.circuit) h

  visit_in-same :
      (st : Stage) (now : ℕ) (r s : Routing)
      → SameNode n.name r s
      → SameNode n.name (visit_in st now n r) (visit_in st now n s)
  visit_in-same unvisited now r s h = elim (Bool-cases n.ready) [
    | inl e ↦ rw e (asked-same now waiting r s h)
    | inr e ↦ rw e (go_on-same settled r s h)
  ]
  visit_in-same waiting now r s h = h
  visit_in-same under_way now r s h = h
  visit_in-same settled now r s h = h

  begin_in-same :
      (st : Stage) (now : ℕ) (r s : Routing)
      → SameNode n.name r s
      → SameNode n.name (begin_in st now n r) (begin_in st now n s)
  begin_in-same unvisited now r s h = h
  begin_in-same waiting now r s h = asked-same now under_way r s h
  begin_in-same under_way now r s h = h
  begin_in-same settled now r s h = h

  finish_in-same :
      (st : Stage) (now : ℕ) (o : Option (List ℕ)) (r s : Routing)
      → SameNode n.name r s
      → SameNode n.name (finish_in st now n o r) (finish_in st now n o s)
  unfolding finish_in settle step
  finish_in-same unvisited now o r s h = h
  finish_in-same waiting now o r s h = h
  finish_in-same under_way now none r s h =
      let c = step-same n.name r.breaker s.breaker (fail now n.name) (eq_refl n.name) h.circuit in
      close-same _ _ _ (with_breakers _ _ r s c h)
  finish_in-same under_way now (some x) r s h =
      let c = step-same n.name r.breaker s.breaker (succeed n.name) (eq_refl n.name) h.circuit in
      close-same _ _ _ (with_breakers _ _ r s c h)
  finish_in-same settled now o r s h = h

  abandon_in-same :
      (st : Stage) (r s : Routing)
      → SameNode n.name r s
      → SameNode n.name (abandon_in st n r) (abandon_in st n s)
  abandon_in-same unvisited r s h = h
  abandon_in-same waiting r s h = close-same (failure no_slot) r s h
  abandon_in-same under_way r s h = h
  abandon_in-same settled r s h = h

module _ (mode : RoutingMode) (t : Transport) where
  pub happen-other :
      (node : String) (r s : Routing) (e : Event)
      → str_eq (node_of e) node ≡ false
      → SameNode node r s
      → SameNode node (happen mode t r e) s
  unfolding happen
  happen-other node r s (visit now n) o h = visit_in-other node n o s (r.stage n.name) now r h
  happen-other node r s (begin now n) o h = begin_in-other node n o s (r.stage n.name) now r h
  happen-other node r s (finish now n) o h =
      finish_in-other node n o s (r.stage n.name) now (transmit mode t n) r h
  happen-other node r s (abandon n) o h = abandon_in-other node n o s (r.stage n.name) r h

  pub happen-same :
      (r s : Routing) (e : Event)
      → SameNode (node_of e) r s
      → SameNode (node_of e) (happen mode t r e) (happen mode t s e)
  unfolding happen
  happen-same r s (visit now n) h = rw h.stage (visit_in-same n (s.stage n.name) now r s h)
  happen-same r s (begin now n) h = rw h.stage (begin_in-same n (s.stage n.name) now r s h)
  happen-same r s (finish now n) h =
      rw h.stage (finish_in-same n (s.stage n.name) now (transmit mode t n) r s h)
  happen-same r s (abandon n) h = rw h.stage (abandon_in-same n (s.stage n.name) r s h)

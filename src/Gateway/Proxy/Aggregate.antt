-- ===== src/Gateway/Proxy/Aggregate.antt =====
-- The status and the counts of an answer of pkg/gateway/proxy.go.
use mathlib.Core.Path.{subst}
use k8s_gpu_mcp_server.Base.{
  ℕ, ◌+◌, ◌<◌, ◌≡◌, refl, sym, ◌∙◌, Bool, true, false, Option, none, some, List, [], ◌∷◌,
  Bool-cases, inl, inr, arith, length, filter, foldl, ◌==◌, if◌then◌else◌,
}
use k8s_gpu_mcp_server.Gateway.Router.{
  Answer, response, failure, NodeResult, is_response, all_failed,
}
use k8s_gpu_mcp_server.Gateway.Proxy.{
  Aggregated, add_node, with_status, aggregate_default, text, answer_of, if_built, handle_tool,
}

abbrev pub succeeded : List NodeResult → ℕ
succeeded results = length (filter (λ r. is_response r.answer) results)

module _ {J : Type 0} (parse : List ℕ → J) where
  -- What the loop does with results.
  record Counted (a b : Aggregated J) (results : List NodeResult) : Type 0 where
    successes : b.success_count ≡ a.success_count + succeeded results
    all : b.success_count + b.error_count ≡ a.success_count + a.error_count + length results
    kept : (b.status ≡ a.status) × (b.node_count ≡ a.node_count)

  add_node-Counted :
      (a : Aggregated J) (r : NodeResult) (answer : Answer)
      → r.answer ≡ answer
      → Counted a (add_node parse a r.node_name answer) (r ∷ [])
  add_node-Counted a r (response x) e = ground (arith, e)
  add_node-Counted a r (failure x) e = ground (arith, e)

  Counted-cons :
      (a b c : Aggregated J) (r : NodeResult) (results : List NodeResult)
      → Counted a b (r ∷ [])
      → Counted b c results
      → Counted a c (r ∷ results)
  Counted-cons a b c r results h k = ground (arith, h, k)

  foldl-Counted :
      (a : Aggregated J) (results : List NodeResult)
      → Counted a (foldl (λ b r. add_node parse b r.node_name r.answer) a results) results
  foldl-Counted a [] = ground arith
  foldl-Counted a (r ∷ results) =
      let b = add_node parse a r.node_name r.answer in
      Counted-cons a b _ r results (add_node-Counted a r r.answer refl) (foldl-Counted b results)

-- Counts that add up, a node that has succeeded if there are any nodes, and the status that goes with
-- the number of errors.
pub record Balanced {J : Type 0} (a : Aggregated J) : Type 0 where
  pub total : a.success_count + a.error_count ≡ a.node_count
  pub some_success : 0 < a.node_count → 0 < a.success_count
  pub status_of_errors : a.status ≡ (if a.error_count == 0 then "success" else "partial")

module _ {J : Type 0} (parse : List ℕ → J) where
  abbrev empty_answer : List NodeResult → Aggregated J
  empty_answer results = record {
    status = "success";
    node_count = length results;
    nodes = [];
    success_count = 0;
    error_count = 0;
  }

  with_status-Balanced :
      (a : Aggregated J)
      → a.status ≡ "success"
      → a.success_count + a.error_count ≡ a.node_count
      → (0 < a.node_count → 0 < a.success_count)
      → Balanced (with_status parse a)
  with_status-Balanced a s t p = ground (arith, s, t, p)

  aggregate_default-Balanced :
      (results : List NodeResult)
      → all_failed results ≡ false
      → Balanced (aggregate_default parse results)
  unfolding aggregate_default all_failed
  aggregate_default-Balanced results h =
      let c = foldl-Counted parse (empty_answer results) results in
      with_status-Balanced _ c.kept.0 (c.all ∙ omega arith ∙ sym c.kept.1)
        (ground (arith, h, c.successes, c.kept))

  -- Whatever the rate limiter, the request and the nodes do: an answer of Handle (for a tool other than
  -- get_gpu_inventory) that is no error counts every node as a success or an error, has a success
  -- unless there is no node, and has the status success if there is no error and partial otherwise,
  -- so never the status error.
  pub handle_tool-Balanced :
      (within_rate : Bool) (request : Option (List ℕ)) (route : List ℕ → Option (List NodeResult))
      {a : Aggregated J}
      → handle_tool parse within_rate request route ≡ text a
      → Balanced a
  unfolding handle_tool if_built answer_of
  handle_tool-Balanced false request route e = absurd (ground (arith, e))
  handle_tool-Balanced true none route e = absurd (ground (arith, e))
  handle_tool-Balanced true (some bytes) route e = answered (route bytes) e
    where
      answered :
          (o : Option (List NodeResult)) {a : Aggregated J}
          → answer_of parse o ≡ text a
          → Balanced a
      answered none e' = absurd (ground (arith, e'))
      answered (some results) {a} e' = elim (Bool-cases (all_failed results)) [
        | inl f ↦ absurd (ground (arith, e', f))
        | inr n ↦ subst Balanced (ground (arith, e', n)) (aggregate_default-Balanced results n)
      ]

-- ===== src/Gateway/Proxy.antt =====
-- pkg/gateway/proxy.go: a tool call goes to all nodes, and their results become one answer. What
-- `parseToolResponse` makes of a response is a parameter, and so are the rate limiter's decision, the
-- request and the results of `RouteToAllNodes` (modelled in Router). The inventory of a cluster is left
-- out.
pub mod Aggregate
mod Tests
use k8s_gpu_mcp_server.Base.{
  ℕ, suc, ◌+◌, Bool, true, false, not, ◌&&◌, Option, none, some, List, [], ◌∷◌, ◌++◌, String, ltb,
  ◌==◌, if◌then◌else◌, length, foldl,
}
use k8s_gpu_mcp_server.Gateway.Router.{
  Answer, response, failure, RouteError, NodeResult, all_failed,
}

-- What an entry of an answer holds: parsed data or an error.
pub data NodeData (J : Type 0) : Type 0 where
  parsed_data : String → J → NodeData J
  node_error : String → RouteError → NodeData J

pub record Aggregated (J : Type 0) : Type 0 where
  pub status : String
  pub node_count : ℕ
  pub nodes : List (NodeData J)
  pub success_count : ℕ
  pub error_count : ℕ

module _ {J : Type 0} (parse_tool_response : List ℕ → J) where
  -- The body of the loop.
  abbrev pub add_node : Aggregated J → String → Answer → Aggregated J
  add_node a name (response bytes) = record a {
    nodes = a.nodes ++ (parsed_data name (parse_tool_response bytes) ∷ []);
    success_count = suc a.success_count;
  }
  add_node a name (failure e) = record a {
    nodes = a.nodes ++ (node_error name e ∷ []);
    error_count = suc a.error_count;
  }

  abbrev pub with_status : Aggregated J → Aggregated J
  with_status a =
      if ltb 0 a.error_count && (a.success_count == 0)
      then record a { status = "error" }
      else if ltb 0 a.error_count
      then record a { status = "partial" }
      else a

  unfoldable pub aggregate_default : List NodeResult → Aggregated J
  aggregate_default results = with_status (
      foldl (λ a r. add_node a r.node_name r.answer)
        (record {
          status = "success";
          node_count = length results;
          nodes = [];
          success_count = 0;
          error_count = 0;
        })
        results)

pub data ToolResult (J : Type 0) : Type 0 where
  rate_limited build_failed route_failed : ToolResult J
  text : Aggregated J → ToolResult J

module _ {J : Type 0} (parse_tool_response : List ℕ → J) where
  -- `results` is `none` where the nodes could not be listed.
  unfoldable pub answer_of : Option (List NodeResult) → ToolResult J
  unfolding aggregate_default all_failed
  answer_of none = route_failed
  answer_of (some results) =
      if all_failed results
      then route_failed
      else text (aggregate_default parse_tool_response results)

  unfoldable pub if_built : Option (List ℕ) → (List ℕ → Option (List NodeResult)) → ToolResult J
  unfolding answer_of
  if_built none route = build_failed
  if_built (some request) route = answer_of (route request)

  -- For every tool but get_gpu_inventory.
  unfoldable pub handle_tool :
      Bool → Option (List ℕ) → (List ℕ → Option (List NodeResult)) → ToolResult J
  unfolding if_built
  handle_tool within_rate request route =
      if not within_rate then rate_limited else if_built request route

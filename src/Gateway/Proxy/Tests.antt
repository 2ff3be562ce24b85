-- ===== src/Gateway/Proxy/Tests.antt =====
-- Runs of pkg/gateway/proxy.go; a response stands for what is parsed of it.
use k8s_gpu_mcp_server.Base.{ℕ, ◌≡◌, refl, true, List, [], ◌∷◌, some}
use k8s_gpu_mcp_server.Gateway.Router.{NodeResult, response, failure, request_failed, all_failed}
use k8s_gpu_mcp_server.Gateway.Proxy.{
  Aggregated, aggregate_default, parsed_data, node_error, handle_tool, text, if_built, answer_of,
}
use k8s_gpu_mcp_server.Gateway.Proxy.Aggregate.{Balanced, handle_tool-Balanced}

abbrev results : List NodeResult
results =
    record { node_name = "alpha"; answer = response (1 ∷ []) }
    ∷ record { node_name = "beta"; answer = failure request_failed }
    ∷ []

abbrev partial_answer : Aggregated (List ℕ)
partial_answer = record {
  status = "partial";
  node_count = 2;
  nodes = parsed_data "alpha" (1 ∷ []) ∷ node_error "beta" request_failed ∷ [];
  success_count = 1;
  error_count = 1;
}

handle_run : handle_tool (λ b. b) true (some []) (λ b. some results) ≡ text partial_answer
unfolding handle_tool if_built answer_of aggregate_default all_failed
handle_run = refl

handle_tool-Balanced_example : Balanced partial_answer
handle_tool-Balanced_example =
    handle_tool-Balanced (λ b. b) true (some []) (λ b. some results) {a = partial_answer} handle_run

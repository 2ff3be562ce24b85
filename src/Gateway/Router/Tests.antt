-- ===== src/Gateway/Router/Tests.antt =====
-- A call of `RouteToAllNodes` in pkg/gateway/router.go on two nodes, of which one does not answer.
use k8s_gpu_mcp_server.Base.{◌≡◌, refl, true, List, [], ◌∷◌, none, some, if◌then◌else◌}
use k8s_gpu_mcp_server.Base.Texts.{codes, str_eq}
use k8s_gpu_mcp_server.Gateway.Breaker.Circuit.{
  CircuitBreaker, new_circuit_breaker, default_config, allow,
}
use k8s_gpu_mcp_server.Gateway.Router.{
  http_mode, Transport, GpuNode, Event, visit, begin, finish, route_to_all_nodes, happen, finish_in,
  settle, transmit, get_agent_http_endpoint, get_agent_dns_endpoint, result, response, failure,
  request_failed,
}
use k8s_gpu_mcp_server.Gateway.Router.Schedules.{
  AsAlone, admitted_route, route_to_all_nodes-AsAlone,
}

abbrev alpha : GpuNode
alpha = record {
  name = "alpha";
  pod_name = "agent-a";
  pod_ip = "10.0.0.5";
  ready = true;
  namespace = "gpu";
  service_name = "agents";
}

abbrev beta : GpuNode
beta = record alpha { name = "beta"; pod_ip = "fd00::7" }

abbrev network : Transport
network = record {
  via_http = λ n endpoint. if str_eq n.name "alpha" then some endpoint else none;
  via_exec = λ n. none;
}

abbrev breaker : CircuitBreaker
breaker = new_circuit_breaker default_config

abbrev schedule : List Event
schedule =
    visit 1 alpha
    ∷ visit 2 beta
    ∷ begin 3 beta
    ∷ begin 4 alpha
    ∷ finish 5 beta
    ∷ finish 6 alpha
    ∷ []

schedule_run :
    (route_to_all_nodes http_mode network breaker schedule).results
    ≡ result beta (failure request_failed)
      ∷ result alpha (response (codes "http://10.0.0.5:8080"))
      ∷ []
unfolding route_to_all_nodes happen finish_in settle transmit get_agent_http_endpoint allow
    new_circuit_breaker
schedule_run = refl

endpoints_run :
    (get_agent_http_endpoint beta ≡ codes "http://[fd00::7]:8080")
    × (get_agent_dns_endpoint beta ≡ codes "http://agent-a.agents.gpu.svc.cluster.local:8080")
unfolding get_agent_http_endpoint get_agent_dns_endpoint
endpoints_run = (refl, refl)

route_to_all_nodes-AsAlone_example :
    AsAlone alpha
      (route_to_all_nodes http_mode network breaker schedule)
      (admitted_route http_mode network 4 6 alpha (allow 1 "alpha" breaker))
route_to_all_nodes-AsAlone_example =
    route_to_all_nodes-AsAlone http_mode network breaker schedule alpha 1 4 6 refl refl

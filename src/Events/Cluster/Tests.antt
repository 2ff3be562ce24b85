-- ===== src/Events/Cluster/Tests.antt =====
-- A run of the watcher of pkg/events/k8s_watcher.go.
use k8s_gpu_mcp_server.Base.{◌≡◌, refl, false, [], ◌∷◌, none, some, foldl, List}
use k8s_gpu_mcp_server.Base.Int.{pos}
use k8s_gpu_mcp_server.Base.Texts.{codes}
use k8s_gpu_mcp_server.Blackbox.Ring.{new_ring_buffer}
use k8s_gpu_mcp_server.Events.Correlator.Gather.{zero_k8s}
use k8s_gpu_mcp_server.Events.Cluster.{
  CoreEvent, WatcherConfig, K8sWatcher, new_k8s_watcher, convert_event, handle_event,
  register_handler, validate_node, with_default_size,
}
use k8s_gpu_mcp_server.Events.Cluster.Captured.{Action, deliver, register, act, captured, told}
use k8s_gpu_mcp_server.Events.Cluster.Kept.{Watches, new_k8s_watcher-Watches}

abbrev killed : CoreEvent
killed = record {
  object_kind = "Pod";
  object_name = "train";
  object_uid = "u1";
  object_namespace = "ml";
  event_type = "Normal";
  reason = "OOMKilled";
  message = codes "out of memory";
  source_host = "node-1";
  reporting_instance = "";
  event_time = 0;
  last_timestamp = 7;
  first_timestamp = 5;
}

abbrev elsewhere : CoreEvent
elsewhere = record killed { source_host = "node-2" }

abbrev config : WatcherConfig
config = record { node_name = "node-1"; buffer_size = pos 2 }

abbrev idle : K8sWatcher
idle = record {
  node_name = "node-1";
  buffer = record {
    buf = zero_k8s ∷ zero_k8s ∷ [];
    head = 0;
    size = 0;
    capacity = 2;
    full = false;
  };
  handlers = 0;
  calls = [];
}

abbrev actions : List Action
actions =
    deliver (some killed) 9
    ∷ register
    ∷ deliver (some elsewhere) 9
    ∷ deliver none 9
    ∷ deliver (some killed) 9
    ∷ []

idle_made : new_k8s_watcher config ≡ some idle
unfolding new_k8s_watcher validate_node with_default_size new_ring_buffer
idle_made = refl

actions_run : (foldl act idle actions).calls ≡ (0, convert_event 9 killed) ∷ []
unfolding handle_event register_handler convert_event
actions_run = refl

new_k8s_watcher-Watches_example :
    Watches idle (foldl act idle actions) (captured "node-1" actions) (told "node-1" 0 actions)
new_k8s_watcher-Watches_example = new_k8s_watcher-Watches config actions {w = idle} idle_made

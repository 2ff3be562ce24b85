-- ===== src/Xid/Tests.antt =====
-- Runs of pkg/xid, and the theorems at inputs.
use k8s_gpu_mcp_server.Base.{
  ℕ, ◌≡◌, refl, true, false, Option, none, some, List, [], ◌∷◌, ◌++◌, foldl,
}
use k8s_gpu_mcp_server.Base.Int.{pos}
use k8s_gpu_mcp_server.Base.Texts.{codes}
use k8s_gpu_mcp_server.Blackbox.Ring.{new_ring_buffer}
use k8s_gpu_mcp_server.Events.Correlator.Types.{XidEvent}
use k8s_gpu_mcp_server.Events.Correlator.Describe.{decimal, describe_event, severity_from_event}
use k8s_gpu_mcp_server.Events.Correlator.Gather.{xid_event, zero_xid}
use k8s_gpu_mcp_server.Xid.Codes.{lookup_code, lookup_or_unknown, enrich_event}
use k8s_gpu_mcp_server.Xid.Lookups.{known_severity, enrich_event_lem}
use k8s_gpu_mcp_server.Xid.BusId.{normalize_pci_bus_id}
use k8s_gpu_mcp_server.Xid.Normal.{normalize_pci_bus_id_lem}
use k8s_gpu_mcp_server.Xid.Watcher.{WatcherConfig, Watcher, new_watcher, handle_message}
use k8s_gpu_mcp_server.Xid.Watched.{recorded, Watches, new_watcher-Watches}

abbrev fallen : XidEvent
fallen = record zero_xid { xid_code = 79; pci_bus_id = "0000:1E:00.0" }

abbrev strange : XidEvent
strange = record zero_xid { timestamp = 5; xid_code = 1000; pci_bus_id = "0000:3B:00.0" }

lookups_run :
    ((lookup_or_unknown 79).severity ≡ "fatal")
    × ((lookup_or_unknown 1000).category ≡ "unknown")
    × (normalize_pci_bus_id (codes "3b:00.0") ≡ codes "0000:3B:00.0")
unfolding lookup_or_unknown lookup_code normalize_pci_bus_id
lookups_run = (refl, refl, refl)

enrich_event_lem_example :
    ((lookup_or_unknown 79).code ≡ 79)
    × (known_severity (lookup_or_unknown 79).severity ≡ true)
    × (severity_from_event (xid_event (enrich_event fallen)) ≡ (lookup_or_unknown 79).severity)
    × (describe_event (xid_event (enrich_event fallen))
        ≡ codes "XID " ++ decimal 79 ++ codes ": " ++ (lookup_or_unknown 79).description)
enrich_event_lem_example = enrich_event_lem fallen

normalize_pci_bus_id_lem_example :
    (normalize_pci_bus_id (codes "0:1e.0") ≡ codes "0000:0:1E.0")
    × (normalize_pci_bus_id (normalize_pci_bus_id (codes "0:1e.0"))
        ≡ normalize_pci_bus_id (codes "0:1e.0"))
normalize_pci_bus_id_lem_example = normalize_pci_bus_id_lem (codes "0:1e.0")

abbrev two_slots : WatcherConfig
two_slots = record { buffer_size = pos 2; kmsg_path = "" }

abbrev fresh : Watcher
fresh = record {
  buffer = record {
    buf = zero_xid ∷ zero_xid ∷ [];
    head = 0;
    size = 0;
    capacity = 2;
    full = false;
  };
  handlers = 0;
  calls = [];
}

abbrev messages : List (Option XidEvent × ℕ)
messages = (some fallen, 7) ∷ (none, 8) ∷ (some strange, 9) ∷ (some fallen, 10) ∷ []

new_watcher-Watches_example :
    Watches fresh 2
      (recorded messages)
      (codes "1e:00.0")
      (foldl handle_message (record fresh { handlers = 2 }) messages)
unfolding new_watcher new_ring_buffer
new_watcher-Watches_example = new_watcher-Watches two_slots 2 messages (codes "1e:00.0") refl

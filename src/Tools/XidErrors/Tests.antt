-- ===== src/Tools/XidErrors/Tests.antt =====
-- A run of pkg/tools/analyze_xid.go on two errors.
use k8s_gpu_mcp_server.Base.{◌≡◌, refl, List, [], ◌∷◌, Option, none, some}
use k8s_gpu_mcp_server.Base.Int.{pos}
use k8s_gpu_mcp_server.Base.Texts.{codes}
use k8s_gpu_mcp_server.Events.Correlator.Types.{XidEvent}
use k8s_gpu_mcp_server.Tools.XidErrors.{
  PciDevice, find_gpu_by_pci, find_from, AnalyzeXidResponse, analyzed, analyze_xid_errors,
}
use k8s_gpu_mcp_server.Tools.XidErrors.Verdict.{worst_status, Judges, analyze_xid_errors-Judges}
use k8s_gpu_mcp_server.Xid.Codes.{lookup_or_unknown, lookup_code}

abbrev lost : XidEvent
lost = record {
  timestamp = 100;
  xid_code = 79;
  pci_bus_id = "0000:00:1E.0";
  gpu_uuid = [];
  pod_name = "";
  namespace = "";
  severity = "";
  description = [];
}

abbrev unknown : XidEvent
unknown = record lost { xid_code = 999 }

abbrev devices : Option (List (Option PciDevice))
devices = some (
    none
    ∷ some (record { bus_id = codes "0000:00:1e.0"; name = codes "A100"; uuid = codes "GPU-1" })
    ∷ [])

found_run :
    (find_gpu_by_pci devices (codes "0000:00:1E.0") none).0
    ≡ record { index = pos 1; name = codes "A100"; uuid = codes "GPU-1" }
unfolding find_gpu_by_pci find_from
found_run = refl

status_run : worst_status (unknown ∷ lost ∷ []) ≡ "critical"
unfolding lookup_or_unknown lookup_code
status_run = refl

analyze_xid_errors-Judges_example :
    (r : AnalyzeXidResponse) × (analyze_xid_errors devices (some (unknown ∷ lost ∷ [])) none
      ≡ analyzed r)
    × Judges r (unknown ∷ lost ∷ [])
analyze_xid_errors-Judges_example = analyze_xid_errors-Judges devices (unknown ∷ lost ∷ [])

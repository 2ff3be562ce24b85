-- ===== src/Xid/Codes.antt =====
-- pkg/xid/codes.go: the table of XID codes and its lookups, and `EnrichEvent` of parser.go. The
-- map is a list of its entries, whose keys are distinct.
use k8s_gpu_mcp_server.Base.{
  ℕ, List, [], ◌∷◌, ◌++◌, Option, none, some, String, ◌==◌, if◌then◌else◌,
}
use k8s_gpu_mcp_server.Base.Texts.{codes}
use k8s_gpu_mcp_server.Events.Correlator.Types.{XidEvent}
use k8s_gpu_mcp_server.Events.Correlator.Describe.{decimal}

pub record ErrorInfo : Type 0 where
  pub code : ℕ
  pub name : List ℕ
  pub description : List ℕ
  pub severity : String
  pub sre_action : String
  pub category : String

abbrev pub error_codes : List (ℕ × ErrorInfo)
error_codes =
    (
      8,
      record {
        code = 8;
        name = codes "Page Retirement Failure";
        description = codes "GPU failed to retire a page of memory with uncorrectable errors";
        severity = "critical";
        sre_action = "Monitor ECC error counts. If persistent, schedule GPU replacement.";
        category = "memory";
      },
    )
    ∷ (
      13,
      record {
        code = 13;
        name = codes "Graphics Exception";
        description = codes "Graphics engine exception occurred during rendering or compute";
        severity = "critical";
        sre_action = "Check application logs. If frequent, drain node and investigate workload.";
        category = "hardware";
      },
    )
    ∷ (
      31,
      record {
        code = 31;
        name = codes "GPU Exception";
        description = codes "General GPU exception - internal error in GPU execution";
        severity = "critical";
        sre_action = "Check for driver/firmware mismatch. Consider GPU reset if persistent.";
        category = "hardware";
      },
    )
    ∷ (
      32,
      record {
        code = 32;
        name = codes "Invalid Memory Access";
        description = codes "GPU attempted to access invalid memory address";
        severity = "warning";
        sre_action = "Review application memory usage. May indicate programming error.";
        category = "memory";
      },
    )
    ∷ (
      43,
      record {
        code = 43;
        name = codes "GPU Stopped Responding";
        description = codes "GPU failed to respond to driver commands within timeout period";
        severity = "critical";
        sre_action = "Reset GPU or drain node. Check for thermal throttling or power issues.";
        category = "hardware";
      },
    )
    ∷ (
      45,
      record {
        code = 45;
        name = codes "Preemption Error";
        description = codes "GPU context preemption failed";
        severity = "warning";
        sre_action =
            "Monitor for frequency. If rare, can be ignored. If frequent, investigate workload scheduling.";
        category = "hardware";
      },
    )
    ∷ (
      48,
      record {
        code = 48;
        name = codes "Double Bit ECC Error";
        description =
            codes "Uncorrectable ECC error detected in GPU memory - data corruption has occurred";
        severity = "fatal";
        sre_action = "DRAIN NODE IMMEDIATELY. Memory corruption detected. GPU must be replaced.";
        category = "memory";
      },
    )
    ∷ (
      61,
      record {
        code = 61;
        name = codes "Internal Micro-controller Error";
        description = codes "GPU internal micro-controller detected an error condition";
        severity = "critical";
        sre_action = "Reset GPU. If persistent, drain node and schedule replacement.";
        category = "hardware";
      },
    )
    ∷ (
      62,
      record {
        code = 62;
        name = codes "Internal Micro-controller Breakpoint";
        description = codes "GPU micro-controller hit unexpected breakpoint";
        severity = "critical";
        sre_action = "GPU firmware issue. Update driver/firmware or replace GPU.";
        category = "hardware";
      },
    )
    ∷ (
      63,
      record {
        code = 63;
        name = codes "Internal Micro-controller Halt";
        description = codes "GPU micro-controller halted unexpectedly";
        severity = "critical";
        sre_action = "GPU firmware failure. Reset required. If persistent, replace GPU.";
        category = "hardware";
      },
    )
    ∷ (
      64,
      record {
        code = 64;
        name = codes "ECC Page Retirement Pending";
        description = codes "GPU has pages pending retirement due to excessive errors";
        severity = "warning";
        sre_action =
            "Monitor ECC error rate. Schedule GPU replacement during next maintenance window.";
        category = "memory";
      },
    )
    ∷ (
      68,
      record {
        code = 68;
        name = codes "FBPA Exception";
        description = codes "Frame Buffer Partition A exception - memory controller error";
        severity = "critical";
        sre_action = "Memory subsystem failure. Drain node and replace GPU.";
        category = "memory";
      },
    )
    ∷ (
      69,
      record {
        code = 69;
        name = codes "FBP Exception";
        description = codes "Frame Buffer Partition exception - memory controller error";
        severity = "critical";
        sre_action = "Memory subsystem failure. Drain node and replace GPU.";
        category = "memory";
      },
    )
    ∷ (
      74,
      record {
        code = 74;
        name = codes "NVLink Error";
        description = codes "NVLink interconnect detected error or link degradation";
        severity = "critical";
        sre_action =
            "Check NVLink topology and cable connections. May require node drain if multi-GPU workload.";
        category = "nvlink";
      },
    )
    ∷ (
      79,
      record {
        code = 79;
        name = codes "GPU Fallen Off Bus";
        description = codes "GPU is no longer accessible on PCIe bus - complete hardware failure";
        severity = "fatal";
        sre_action =
            "DRAIN NODE IMMEDIATELY. GPU hardware failure. Check PCIe connection and replace GPU.";
        category = "hardware";
      },
    )
    ∷ (
      92,
      record {
        code = 92;
        name = codes "High Single Bit ECC Error Rate";
        description = codes "Elevated rate of correctable ECC errors detected";
        severity = "warning";
        sre_action =
            "Monitor trend. May indicate early memory degradation. Schedule replacement if rate increases.";
        category = "memory";
      },
    )
    ∷ (
      94,
      record {
        code = 94;
        name = codes "Contained Error";
        description = codes "GPU detected and contained an error - no data corruption";
        severity = "warning";
        sre_action = "Monitor frequency. Isolated occurrences acceptable. Investigate if frequent.";
        category = "hardware";
      },
    )
    ∷ (
      95,
      record {
        code = 95;
        name = codes "Uncontained Error";
        description = codes "GPU error could not be contained - potential data corruption";
        severity = "fatal";
        sre_action = "DRAIN NODE IMMEDIATELY. Potential data corruption. GPU must be replaced.";
        category = "hardware";
      },
    )
    ∷ []

abbrev pub find_code : ℕ → List (ℕ × ErrorInfo) → Option ErrorInfo
find_code n [] = none
find_code n ((k, info) ∷ more) = if n == k then some info else find_code n more

-- `none` is the zero value with `false`.
unfoldable pub lookup_code : ℕ → Option ErrorInfo
lookup_code n = find_code n error_codes

abbrev pub unknown_info : ℕ → ErrorInfo
unknown_info n = record {
  code = n;
  name = codes "Unknown XID " ++ decimal n;
  description = codes "XID not in known error table - check NVIDIA documentation for details";
  severity = "warning";
  sre_action = "Check NVIDIA XID documentation at https://docs.nvidia.com/deploy/xid-errors/";
  category = "unknown";
}

abbrev pub or_unknown : ℕ → Option ErrorInfo → ErrorInfo
or_unknown n none = unknown_info n
or_unknown n (some info) = info

unfoldable pub lookup_or_unknown : ℕ → ErrorInfo
lookup_or_unknown n = or_unknown n (lookup_code n)

unfoldable pub enrich_event : XidEvent → XidEvent
enrich_event e =
    let info = lookup_or_unknown e.xid_code in
    record e { severity = info.severity; description = info.description }

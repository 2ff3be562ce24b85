-- ===== src/Blackbox/Snapshot.antt =====
-- The data of pkg/blackbox/snapshot.go.
use k8s_gpu_mcp_server.Base.{ℕ, List, String}

pub record ProcessInfo : Type 0 where
  pub pod_uid : String
  pub pod_name : String
  pub namespace : String

-- The fields of `GPUSnapshot` that something is computed from; temperatures are uint32.
pub record GpuSnapshot : Type 0 where
  pub timestamp : ℕ
  pub uuid : List ℕ
  pub index : ℕ
  pub power_mw : ℕ
  pub gpu_util : ℕ
  pub mem_util : ℕ
  pub temperature : ℕ
  pub temp_threshold : ℕ
  pub mem_used : ℕ
  pub mem_total : ℕ
  pub throttling : ℕ
  pub ecc_correctable : ℕ
  pub ecc_uncorrectable : ℕ
  pub processes : List ProcessInfo

-- ===== src/Tools/Health/Types.antt =====
-- The data of pkg/tools/gpu_health.go.
use k8s_gpu_mcp_server.Base.{ℕ, Bool, false, List, [], Option}
use k8s_gpu_mcp_server.Base.Int.{ℤ, pos}

-- Every status and severity that the file names. `no_throttling` is "none".
pub data Status : Type 0 where
  unset unknown critical high elevated normal over_limit : Status
  no_throttling severe minor : Status
  disabled data_unavailable degraded warning healthy : Status
  saturated active idle : Status

pub data Component : Type 0 where
  temperature memory power throttling ecc : Component

pub record HealthIssue : Type 0 where
  pub severity : Status
  pub component : Component

-- Go's float64, of which the file uses a quotient scaled by a hundred and comparisons with whole
-- numbers: `used_percent used total` is `float64(used) / float64(total) * 100`, and `zero_percent`
-- is the float 0.
pub record Percents : Type 1 where
  pub Percent : Type 0
  pub zero_percent : Percent
  pub used_percent : ℕ → ℕ → Percent
  pub at_least : Percent → ℕ → Bool
  pub above : Percent → ℕ → Bool

-- What NVML answers for one device; `none` is an error.
pub record Device : Type 0 where
  pub temperature : Option ℕ
  pub slowdown : Option ℕ
  pub shutdown : Option ℕ
  pub memory_info : Option (ℕ × ℕ × ℕ)
  pub power_usage : Option ℕ
  pub power_limit : Option ℕ
  pub throttle_reasons : Option ℕ
  pub ecc_mode : Option Bool
  pub ecc_correctable : Option ℕ
  pub ecc_uncorrectable : Option ℕ
  pub utilization : Option (ℕ × ℕ)
  pub graphics_clock : Option ℕ
  pub memory_clock : Option ℕ
  -- Whether the context is done when `collectGPUHealth` asks.
  pub cancelled : Bool

pub record TemperatureHealth : Type 0 where
  pub current : ℕ
  pub threshold : ℕ
  pub max_temp : ℕ
  pub status : Status
  pub margin : ℤ

module _ (fl : Percents) where
  pub record MemoryHealth : Type 0 where
    pub total : ℕ
    pub used : ℕ
    pub free : ℕ
    pub used_percent : fl.Percent
    pub status : Status

  pub record PowerHealth : Type 0 where
    pub current : ℕ
    pub limit : ℕ
    pub default_limit : ℕ
    pub used_percent : fl.Percent
    pub status : Status

pub data Reason : Type 0 where
  hw_thermal sw_thermal hw_slowdown power_cap power_brake app_clocks sync_boost : Reason

pub record ThrottlingStatus : Type 0 where
  pub is_active : Bool
  pub reasons : List Reason
  pub status : Status

pub record EccHealth : Type 0 where
  pub enabled : Bool
  pub correctable : ℕ
  pub uncorrectable : ℕ
  pub status : Status

pub record PerformanceHealth : Type 0 where
  pub gpu_util : ℕ
  pub memory_util : ℕ
  pub sm_clock : ℕ
  pub memory_clock : ℕ
  pub status : Status

-- `GPUHealthStatus`. The score is clamped at 0, so it is a natural number.
pub record GpuHealth (fl : Percents) : Type 0 where
  pub temperature : TemperatureHealth
  pub memory : MemoryHealth fl
  pub power : PowerHealth fl
  pub throttling : ThrottlingStatus
  pub ecc_errors : EccHealth
  pub performance : PerformanceHealth
  pub issues : List HealthIssue
  pub health_score : ℕ
  pub status : Status

-- Go's zero values. The source's empty status string is `unset`.
abbrev pub zero_health : (fl : Percents) → GpuHealth fl
zero_health fl = record {
  temperature = record { current = 0; threshold = 0; max_temp = 0; status = unset; margin = pos 0 };
  memory = record { total = 0; used = 0; free = 0; used_percent = fl.zero_percent; status = unset };
  power = record {
    current = 0;
    limit = 0;
    default_limit = 0;
    used_percent = fl.zero_percent;
    status = unset;
  };
  throttling = record { is_active = false; reasons = []; status = unset };
  ecc_errors = record { enabled = false; correctable = 0; uncorrectable = 0; status = unset };
  performance = record {
    gpu_util = 0;
    memory_util = 0;
    sm_clock = 0;
    memory_clock = 0;
    status = unset;
  };
  issues = [];
  health_score = 0;
  status = unset;
}

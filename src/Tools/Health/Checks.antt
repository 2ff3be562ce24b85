-- ===== src/Tools/Health/Checks.antt =====
-- The checks of pkg/tools/gpu_health.go: one for each kind of reading.
use Prim.Native.Nat.{bit_and, bit_xor}
use k8s_gpu_mcp_server.Base.{
  ℕ, ◌+◌, ◌-◌, ◌%◌, ◌^◌, Bool, true, false, not, ◌&&◌, ◌||◌, List, [], ◌∷◌, Option, none, some,
  ◌==◌, ltb, leb, if◌then◌else◌, length,
}
use k8s_gpu_mcp_server.Base.Int.{pos, sub_int}
use k8s_gpu_mcp_server.Tools.Health.Types.{
  Status, unknown, critical, high, elevated, normal, over_limit, no_throttling, severe, minor,
  disabled, data_unavailable, degraded, warning, healthy, saturated, active, idle, Percents, Device,
  TemperatureHealth, MemoryHealth, PowerHealth, Reason, hw_thermal, sw_thermal, hw_slowdown,
  power_cap, power_brake, app_clocks, sync_boost, ThrottlingStatus, EccHealth, PerformanceHealth,
}

abbrev pub default_temp_threshold : ℕ
default_temp_threshold = 82

abbrev pub default_temp_max : ℕ
default_temp_max = 90

abbrev pub temp_elevated_margin : ℕ
temp_elevated_margin = 10

-- A limit that the device reports, if the call succeeds with one that is not 0.
abbrev pub reported : Option ℕ → ℕ → ℕ
reported none fallback = fallback
reported (some n) fallback = if ltb 0 n then n else fallback

-- The thresholds are uint32: `threshold - tempElevatedMargin` wraps.
unfoldable pub temperature_status : ℕ → ℕ → ℕ → Status
temperature_status temp threshold max_temp =
    if leb max_temp temp
    then critical
    else if leb threshold temp
    then high
    else if leb ((threshold + 2 ^ 32 - temp_elevated_margin) % 2 ^ 32) temp
    then elevated
    else normal

unfoldable pub check_temperature : Device → TemperatureHealth
check_temperature d = elim d.temperature [
  | none ↦ record { current = 0; threshold = 0; max_temp = 0; status = unknown; margin = pos 0 }
  | some temp ↦
      let threshold = reported d.slowdown default_temp_threshold in
      let max_temp = reported d.shutdown default_temp_max in
      record {
        current = temp;
        threshold = threshold;
        max_temp = max_temp;
        status = temperature_status temp threshold max_temp;
        margin = sub_int (pos threshold) temp;
      }
]

abbrev pub default_power_limit : ℕ
default_power_limit = 70000

abbrev pub ecc_correctable_threshold : ℕ
ecc_correctable_threshold = 1000

module _ (fl : Percents) where
  open fl use {used_percent, zero_percent, at_least, above}

  unfoldable pub check_memory : Device → MemoryHealth fl
  check_memory d = elim d.memory_info [
    | none ↦ record { total = 0; used = 0; free = 0; used_percent = zero_percent; status = unknown }
    | some (total, used, free) ↦
        let percent = if ltb 0 total then used_percent used total else zero_percent in
        record {
          total = total;
          used = used;
          free = free;
          used_percent = percent;
          status =
              if at_least percent 95
              then critical
              else if at_least percent 90
              then high
              else if at_least percent 80
              then elevated
              else normal;
        }
  ]

  unfoldable pub check_power : Device → PowerHealth fl
  check_power d = elim d.power_usage [
    | none ↦ record {
      current = 0;
      limit = 0;
      default_limit = 0;
      used_percent = zero_percent;
      status = unknown;
    }
    | some usage ↦
        let limit = reported d.power_limit default_power_limit in
        let percent = if ltb 0 limit then used_percent usage limit else zero_percent in
        record {
          current = usage;
          limit = limit;
          default_limit = default_power_limit;
          used_percent = percent;
          status =
              if above percent 100
              then over_limit
              else if at_least percent 95
              then high
              else if at_least percent 80
              then elevated
              else normal;
        }
  ]

-- The bits of NVML's throttle reasons, and the string for each, in the order of the tests.
abbrev pub gpu_idle : ℕ
gpu_idle = 0x1

abbrev pub reason_bits : List (ℕ × Reason)
reason_bits =
    (0x40, hw_thermal)
    ∷ (0x20, sw_thermal)
    ∷ (0x8, hw_slowdown)
    ∷ (0x4, power_cap)
    ∷ (0x80, power_brake)
    ∷ (0x2, app_clocks)
    ∷ (0x10, sync_boost)
    ∷ []

-- Whether `bits & mask != 0`.
abbrev pub has_bits : ℕ → ℕ → Bool
has_bits bits mask = not (bit_and bits mask == 0)

abbrev pub reasons_in : ℕ → List (ℕ × Reason) → List Reason
reasons_in bits [] = []
reasons_in bits ((mask, reason) ∷ more) =
    if has_bits bits mask then reason ∷ reasons_in bits more else reasons_in bits more

-- `reasons &^ ThrottleReasonGpuIdle`
abbrev pub without_idle : ℕ → ℕ
without_idle reasons = bit_xor reasons (bit_and reasons gpu_idle)

unfoldable pub check_throttling : Device → ThrottlingStatus
check_throttling d = elim d.throttle_reasons [
  | none ↦ record { is_active = false; reasons = []; status = unknown }
  | some reasons ↦
      let bits = without_idle reasons in
      let names = reasons_in bits reason_bits in
      if bits == 0
      then record { is_active = false; reasons = []; status = no_throttling }
      else record {
        is_active = true;
        reasons = names;
        status = if has_bits bits 0x60 || leb 2 (length names) then severe else minor;
      }
]

abbrev pub or_zero : Option ℕ → ℕ
or_zero none = 0
or_zero (some n) = n

abbrev pub available : Option ℕ → Bool
available none = false
available (some n) = true

-- The status for the counts of a device whose ECC is enabled.
abbrev pub ecc_status : Option ℕ → Option ℕ → Status
ecc_status c u =
    if available u && ltb 0 (or_zero u)
    then critical
    else if not (available u)
    then degraded
    else if available c && ltb ecc_correctable_threshold (or_zero c)
    then warning
    else if available c && ltb 0 (or_zero c)
    then degraded
    else healthy

unfoldable pub check_ecc_errors : Device → EccHealth
check_ecc_errors d = elim d.ecc_mode [
  | none ↦ record { enabled = false; correctable = 0; uncorrectable = 0; status = unknown }
  | some false ↦ record { enabled = false; correctable = 0; uncorrectable = 0; status = disabled }
  | some true ↦
      if not (available d.ecc_correctable) && not (available d.ecc_uncorrectable)
      then record { enabled = true; correctable = 0; uncorrectable = 0; status = data_unavailable }
      else record {
        enabled = true;
        correctable = or_zero d.ecc_correctable;
        uncorrectable = or_zero d.ecc_uncorrectable;
        status = ecc_status d.ecc_correctable d.ecc_uncorrectable;
      }
]

unfoldable pub check_performance : Device → PerformanceHealth
check_performance d = elim d.utilization [
  | none ↦ record {
    gpu_util = 0;
    memory_util = 0;
    sm_clock = 0;
    memory_clock = 0;
    status = unknown;
  }
  | some (gpu, mem) ↦ record {
    gpu_util = gpu;
    memory_util = mem;
    sm_clock = or_zero d.graphics_clock;
    memory_clock = or_zero d.memory_clock;
    status = if leb 95 gpu then saturated else if leb 50 gpu then active else idle;
  }
]

-- ===== src/Blackbox/Config.antt =====
-- pkg/blackbox/config.go. Durations are nanoseconds.
use native.Mathlib.Nat.{le-div_iff_mul-le, div-le_of_le-mul}
use k8s_gpu_mcp_server.Base.{
  ℕ, zero, suc, ◌*◌, ◌/◌, ◌≤◌, ◌≡◌, refl, Bool, false, Option, none, some, if◌then◌else◌, arith,
  ◌==◌, ◌-◌,
}
use k8s_gpu_mcp_server.Base.Int.{ℤ, pos, negsuc, ltz}

abbrev pub min_interval : ℕ
min_interval = 1_000_000_000

abbrev pub min_retention : ℕ
min_retention = 60 * 1_000_000_000

abbrev pub max_retention : ℕ
max_retention = 7200 * 1_000_000_000

pub data ConfigError : Type 0 where
  invalid_interval invalid_retention retention_too_low : ConfigError

pub record RecorderConfig : Type 0 where
  pub interval : ℤ
  pub retention : ℤ
  pub enable_processes : Bool

-- `none` is no error.
unfoldable pub validate : RecorderConfig → Option ConfigError
validate c =
    if ltz c.interval (pos min_interval)
    then some invalid_interval
    else if ltz c.retention (pos min_retention)
    then some invalid_retention
    else if ltz (pos max_retention) c.retention
    then some invalid_retention
    else if ltz c.retention c.interval
    then some retention_too_low
    else none

-- The quotient of two durations, the divisor positive: Go rounds towards 0.
abbrev pub quotient : ℤ → ℕ → ℤ
quotient (pos a) b = pos (a / b)
quotient (negsuc a) b = if suc a / b == 0 then pos 0 else negsuc (suc a / b - 1)

abbrev capacity_in : ℤ → ℤ → ℤ
capacity_in retention (negsuc n) = pos 0
capacity_in retention (pos zero) = pos 0
capacity_in retention (pos (suc n)) = quotient retention (suc n)

unfoldable pub buffer_capacity : RecorderConfig → ℤ
buffer_capacity c = capacity_in c.retention c.interval

capacity_in-bounds :
    (retention interval : ℤ)
    → ltz interval (pos min_interval) ≡ false
    → ltz (pos max_retention) retention ≡ false
    → ltz retention interval ≡ false
    → (n : ℕ) × (capacity_in retention interval ≡ pos n) × (1 ≤ n) × (n ≤ 7200)
capacity_in-bounds retention (negsuc m) e f g = absurd (ground (arith, e))
capacity_in-bounds retention (pos zero) e f g = absurd (ground (arith, e))
capacity_in-bounds (negsuc a) (pos (suc m)) e f g = absurd (ground (arith, g))
capacity_in-bounds (pos a) (pos (suc m)) e f g =
    let least : 1_000_000_000 ≤ suc m = ground (arith, e) in
    let most : a ≤ 7200 * 1_000_000_000 = ground (arith, f) in
    let fits : suc m ≤ a = ground (arith, g) in
    (
      a / suc m,
      refl,
      (le-div_iff_mul-le {k = suc m} {x = 1} {y = a} (omega arith)).1 (omega (arith, fits)),
      div-le_of_le-mul (suc m) (omega (arith, least, most)),
    )

-- The length of the buffers of a valid configuration: at least 1, at most 7200.
pub validate-buffer_capacity :
    (c : RecorderConfig)
    → validate c ≡ none
    → (n : ℕ) × (buffer_capacity c ≡ pos n) × (1 ≤ n) × (n ≤ 7200)
unfolding validate buffer_capacity
validate-buffer_capacity c e =
    capacity_in-bounds c.retention c.interval (ground (arith, e)) (ground (arith, e))
      (ground (arith, e))

-- ===== src/Incidents/Values.antt =====
-- The conversions at the end of pkg/incidents/analyzer.go. Those between integers wrap.
use k8s_gpu_mcp_server.Base.{ℕ, ◌-◌, ◌^◌, ◌%◌, List, Option, some, none, leb, if◌then◌else◌}
use k8s_gpu_mcp_server.Base.Int.{ℤ, pos, negsuc, max_int}
use k8s_gpu_mcp_server.Incidents.Float.{Floats}
use k8s_gpu_mcp_server.Incidents.Patterns.{
  Value, int_value, int32_value, int64_value, uint_value, uint32_value, uint64_value, float32_value,
  float64_value, text_value, ints_value,
}

-- `int(n)` of a uint64.
abbrev pub wrapped : ℕ → ℤ
wrapped n = if leb n max_int then pos n else negsuc (2 ^ 64 - n - 1)

-- An integer that is not negative, as an unsigned one of w bits.
abbrev pub unsigned : ℕ → ℤ → Option ℕ
unsigned w (pos n) = some (n % 2 ^ w)
unsigned w (negsuc n) = none

module _ {fl : Floats} where
  unfoldable pub to_int : Value fl → Option ℤ
  to_int (int_value z) = some z
  to_int (int32_value z) = some z
  to_int (int64_value z) = some z
  to_int (uint_value n) = some (wrapped n)
  to_int (uint32_value n) = some (pos n)
  to_int (uint64_value n) = some (wrapped n)
  to_int _ = none

  unfoldable pub to_uint32 : Value fl → Option ℕ
  to_uint32 (uint32_value n) = some n
  to_uint32 (int_value z) = unsigned 32 z
  to_uint32 (int32_value z) = unsigned 32 z
  to_uint32 (int64_value z) = unsigned 32 z
  to_uint32 (uint_value n) = some (n % 2 ^ 32)
  to_uint32 (uint64_value n) = some (n % 2 ^ 32)
  to_uint32 _ = none

  unfoldable pub to_uint64 : Value fl → Option ℕ
  to_uint64 (uint64_value n) = some n
  to_uint64 (int_value z) = unsigned 64 z
  to_uint64 (int32_value z) = unsigned 64 z
  to_uint64 (int64_value z) = unsigned 64 z
  to_uint64 (uint_value n) = some n
  to_uint64 (uint32_value n) = some n
  to_uint64 _ = none

  unfoldable pub to_float64 : Value fl → Option fl.F
  to_float64 (float64_value x) = some x
  to_float64 (float32_value x) = some x
  to_float64 (int_value z) = some (fl.of_int z)
  to_float64 (int32_value z) = some (fl.of_int z)
  to_float64 (int64_value z) = some (fl.of_int z)
  to_float64 (uint_value n) = some (fl.of_int (pos n))
  to_float64 (uint32_value n) = some (fl.of_int (pos n))
  to_float64 (uint64_value n) = some (fl.of_int (pos n))
  to_float64 _ = none

  -- `ind.Value.(string)` and `ind.Value.([]int)`.
  abbrev pub to_text : Value fl → Option (List ℕ)
  to_text (text_value s) = some s
  to_text _ = none

  abbrev pub to_ints : Value fl → Option (List ℤ)
  to_ints (ints_value zs) = some zs
  to_ints _ = none

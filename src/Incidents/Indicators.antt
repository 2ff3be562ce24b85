-- ===== src/Incidents/Indicators.antt =====
-- The checks of one indicator in pkg/incidents/analyzer.go, each with its evidence.
use k8s_gpu_mcp_server.Base.{
  ℕ, Bool, true, false, List, [], ◌∷◌, ◌++◌, Option, none, some, ◌==◌, ltb, if◌then◌else◌,
}
use k8s_gpu_mcp_server.Base.Bytes.{contains_bytes, to_lower, equal_fold}
use k8s_gpu_mcp_server.Base.Int.{ℤ, pos, negsuc}
use k8s_gpu_mcp_server.Base.Texts.{codes, str_eq, eq_bytes}
use k8s_gpu_mcp_server.Events.Correlator.Describe.{decimal, hexadecimal, celsius}
use k8s_gpu_mcp_server.Incidents.Float.{Floats}
use k8s_gpu_mcp_server.Incidents.Patterns.{Indicator}
use k8s_gpu_mcp_server.Incidents.Values.{to_int, to_uint32, to_uint64, to_float64, to_text, to_ints}
use k8s_gpu_mcp_server.Incidents.Context.{AnalysisContext}

-- The answer of a check: whether it matched, and the evidence.
abbrev pub Checked : Type 0
Checked = Bool × List ℕ

abbrev pub no_match : Checked
no_match = (false, [])

abbrev pub matched : List ℕ → Checked
matched s = (true, s)

-- What follows a conversion that can fail.
unfoldable pub with_value {ℓ} : {A : Type ℓ} → Option A → (A → Checked) → Checked
with_value none check = no_match
with_value (some v) check = check v

-- The first element that passes a test.
unfoldable pub first_such {ℓ} :
    {A : Type ℓ} → (A → Bool) → List A → (A → Checked) → Checked → Checked
first_such p [] found rest = rest
first_such p (x ∷ xs) found rest = if p x then found x else first_such p xs found rest

abbrev pub is_code : ℤ → ℕ → Bool
is_code (pos n) code = code == n
is_code (negsuc n) code = false

abbrev pub in_codes : List ℤ → ℕ → Bool
in_codes [] code = false
in_codes (z ∷ zs) code = if is_code z code then true else in_codes zs code

-- `%v` of a slice of integers.
abbrev pub spaced : List ℕ → List ℕ
spaced [] = []
spaced (n ∷ ns) = b' ' ∷ decimal n ++ spaced ns

abbrev pub bracketed : List ℕ → List ℕ
bracketed [] = codes "[]"
bracketed (n ∷ ns) = b'[' ∷ decimal n ++ spaced ns ++ codes "]"

unfoldable pub none_present : List ℕ → Checked
none_present [] = matched (codes "No hardware XID errors")
none_present (c ∷ cs) = no_match

unfoldable pub some_present : List ℕ → Checked
some_present [] = no_match
some_present (c ∷ cs) = matched (codes "XID errors present: " ++ bracketed (c ∷ cs))

abbrev pub throttling_text : Option (List ℕ) → List ℕ → List ℕ
throttling_text none reason = codes "GPU throttling active (reason: 0x" ++ reason ++ codes ")"
throttling_text (some s) reason =
    if contains_bytes s (codes "thermal")
    then codes "Thermal throttling active (reason: 0x" ++ reason ++ codes ")"
    else codes "GPU throttling active (reason: 0x" ++ reason ++ codes ")"

module _ {fl : Floats} where
  unfoldable pub check_xid_indicator : Indicator fl → AnalysisContext fl → Checked
  unfolding to_int with_value first_such none_present some_present
  check_xid_indicator ind ctx =
      if str_eq ind.condition "equals"
      then with_value (to_int ind.value) (λ target.
        first_such (is_code target) ctx.xid_codes
          (λ c. matched (codes "XID " ++ decimal c ++ codes " detected")) no_match)
      else if str_eq ind.condition "in"
      then with_value (to_ints ind.value) (λ targets.
        first_such (in_codes targets) ctx.xid_codes
          (λ c. matched (codes "XID " ++ decimal c ++ codes " detected (in critical set)"))
          no_match)
      else if str_eq ind.condition "not_present"
      then none_present ctx.xid_codes
      else if str_eq ind.condition "present"
      then some_present ctx.xid_codes
      else no_match

  unfoldable pub check_temp_indicator : Indicator fl → AnalysisContext fl → Checked
  unfolding to_uint32 with_value
  check_temp_indicator ind ctx =
      if str_eq ind.condition "greater_than"
      then with_value (to_uint32 ind.value) (λ threshold.
        if ltb threshold ctx.temperature
        then matched (
            codes "GPU temperature "
            ++ decimal ctx.temperature
            ++ celsius
            ++ codes " exceeds threshold "
            ++ decimal threshold
            ++ celsius)
        else no_match)
      else if str_eq ind.condition "less_than"
      then with_value (to_uint32 ind.value) (λ threshold.
        if ltb ctx.temperature threshold
        then matched (
            codes "GPU temperature "
            ++ decimal ctx.temperature
            ++ celsius
            ++ codes " below "
            ++ decimal threshold
            ++ celsius)
        else no_match)
      else no_match

  unfoldable pub check_ecc_indicator : Indicator fl → AnalysisContext fl → Checked
  unfolding to_uint64 with_value
  check_ecc_indicator ind ctx =
      if str_eq ind.condition "greater_than"
      then with_value (to_uint64 ind.value) (λ threshold.
        if ltb threshold ctx.ecc_uncorrectable
        then matched (codes "Uncorrectable ECC errors: " ++ decimal ctx.ecc_uncorrectable)
        else no_match)
      else if str_eq ind.condition "equals"
      then with_value (to_uint64 ind.value) (λ target.
        if ctx.ecc_uncorrectable == target
        then matched (codes "ECC error count: " ++ decimal ctx.ecc_uncorrectable)
        else no_match)
      else no_match

  unfoldable pub check_throttle_indicator : Indicator fl → AnalysisContext fl → Checked
  check_throttle_indicator ind ctx =
      if str_eq ind.condition "present"
      then if ctx.throttle_reasons == 0
        then no_match
        else matched (throttling_text (to_text ind.value) (hexadecimal ctx.throttle_reasons))
      else if str_eq ind.condition "not_present"
      then if ctx.throttle_reasons == 0 then matched (codes "No throttling detected") else no_match
      else no_match

  unfoldable pub check_k8s_event_indicator : Indicator fl → AnalysisContext fl → Checked
  unfolding with_value first_such
  check_k8s_event_indicator ind ctx = with_value (to_text ind.value) (λ search.
      let holds = λ (s : List ℕ). contains_bytes (to_lower s) (to_lower search) in
      let by_reason = λ (s : List ℕ). matched (codes "K8s event reason: " ++ s) in
      if str_eq ind.condition "contains"
      then first_such holds ctx.k8s_reasons by_reason (
          first_such holds ctx.k8s_messages (λ s. matched (codes "K8s event contains: " ++ search))
            no_match)
      else if str_eq ind.condition "equals"
      then first_such (λ s. equal_fold s search) ctx.k8s_reasons by_reason no_match
      else no_match)

  unfoldable pub check_mem_util_indicator : Indicator fl → AnalysisContext fl → Checked
  unfolding to_float64 with_value
  check_mem_util_indicator ind ctx =
      let used = codes "GPU memory utilization " ++ fl.one_decimal ctx.mem_util_percent in
      if str_eq ind.condition "greater_than"
      then with_value (to_float64 ind.value) (λ threshold.
        if fl.gt ctx.mem_util_percent threshold
        then matched (used ++ codes "% exceeds " ++ fl.one_decimal threshold ++ codes "%")
        else no_match)
      else if str_eq ind.condition "less_than"
      then with_value (to_float64 ind.value) (λ threshold.
        if fl.gt threshold ctx.mem_util_percent
        then matched (used ++ codes "% below " ++ fl.one_decimal threshold ++ codes "%")
        else no_match)
      else no_match

  unfoldable pub check_causality_indicator : Indicator fl → AnalysisContext fl → Checked
  unfolding with_value
  check_causality_indicator ind ctx =
      if str_eq ind.condition "equals"
      then with_value (to_text ind.value) (λ target.
        if eq_bytes ctx.causality target
        then matched (codes "Correlator detected: " ++ ctx.causality)
        else no_match)
      else if str_eq ind.condition "contains"
      then with_value (to_text ind.value) (λ target.
        if contains_bytes ctx.causality target
        then matched (codes "Correlator causality includes: " ++ target)
        else no_match)
      else no_match

  unfoldable pub check_indicator : Indicator fl → AnalysisContext fl → Checked
  unfolding check_xid_indicator check_temp_indicator check_ecc_indicator check_throttle_indicator
      check_k8s_event_indicator check_mem_util_indicator check_causality_indicator
  check_indicator ind ctx =
      if str_eq ind.indicator_type "xid"
      then check_xid_indicator ind ctx
      else if str_eq ind.indicator_type "temp"
      then check_temp_indicator ind ctx
      else if str_eq ind.indicator_type "ecc"
      then check_ecc_indicator ind ctx
      else if str_eq ind.indicator_type "throttle"
      then check_throttle_indicator ind ctx
      else if str_eq ind.indicator_type "k8s_event"
      then check_k8s_event_indicator ind ctx
      else if str_eq ind.indicator_type "mem_util"
      then check_mem_util_indicator ind ctx
      else if str_eq ind.indicator_type "causality"
      then check_causality_indicator ind ctx
      else no_match

-- ===== src/Events/Correlator/Describe.antt =====
-- Descriptions, severities and the temperature test of pkg/events/correlator.go.
use k8s_gpu_mcp_server.Base.{
  ℕ, zero, suc, ◌+◌, ◌-◌, ◌/◌, ◌%◌, ◌^◌, Bool, not, ◌||◌, List, [], ◌∷◌, ◌++◌, ◌==◌, ltb, leb,
  if◌then◌else◌, length, take, String,
}
use k8s_gpu_mcp_server.Base.Texts.{codes, str_eq}
use k8s_gpu_mcp_server.Events.Correlator.Types.{
  GpuSnapshot, Payload, xid_data, k8s_data, other_data, Event,
}

-- `%d` and `%x`. The fuel is the number itself, which has no more digits than its value.
abbrev pub digit : ℕ → ℕ
digit d = if ltb d 10 then b'0' + d else (b'a' + d) - 10

abbrev pub in_base : ℕ → ℕ → ℕ → List ℕ → List ℕ
in_base base zero n tail = digit (n % base) ∷ tail
in_base base (suc fuel) n tail =
    let more = in_base base fuel (n / base) (digit (n % base) ∷ tail) in
    if ltb n base then digit (n % base) ∷ tail else more

abbrev pub decimal : ℕ → List ℕ
decimal n = in_base 10 n n []

abbrev pub hexadecimal : ℕ → List ℕ
hexadecimal n = in_base 16 n n []

unfoldable pub truncate : List ℕ → ℕ → List ℕ
truncate s max_len =
    if leb (length s) max_len
    then s
    else if leb max_len 3
    then take max_len s
    else take (max_len - 3) s ++ codes "..."

abbrev pub max_message_length : ℕ
max_message_length = 80

abbrev pub other_event : String → List ℕ
other_event t = codes t ++ codes " event"

abbrev pub describe_xid : Payload → List ℕ → List ℕ
describe_xid (xid_data e) rest =
    if ltb 0 (length e.description)
    then codes "XID " ++ decimal e.xid_code ++ codes ": " ++ e.description
    else codes "XID " ++ decimal e.xid_code ++ codes " on GPU " ++ codes e.pci_bus_id
describe_xid (k8s_data e) rest = rest
describe_xid other_data rest = rest

abbrev pub describe_k8s : Payload → List ℕ → List ℕ
unfolding truncate
describe_k8s (k8s_data e) rest =
    codes "["
    ++ codes e.reason
    ++ codes "] "
    ++ codes e.pod_name
    ++ codes ": "
    ++ truncate e.message max_message_length
describe_k8s (xid_data e) rest = rest
describe_k8s other_data rest = rest

unfoldable pub describe_event : Event → List ℕ
describe_event e =
    let rest = other_event e.event_type in
    if str_eq e.event_type "xid"
    then describe_xid e.payload rest
    else if str_eq e.event_type "k8s"
    then describe_k8s e.payload rest
    else if str_eq e.event_type "throttle"
    then codes "GPU throttling active"
    else if str_eq e.event_type "ecc"
    then codes "ECC memory errors detected"
    else if str_eq e.event_type "temp"
    then codes "High GPU temperature"
    else rest

abbrev pub xid_severity : Payload → String
xid_severity (xid_data e) = if str_eq e.severity "" then "critical" else e.severity
xid_severity (k8s_data e) = "critical"
xid_severity other_data = "critical"

abbrev pub k8s_severity : Payload → String
k8s_severity (k8s_data e) =
    if str_eq e.reason "OOMKilled" || str_eq e.reason "Failed" then "critical" else "warning"
k8s_severity (xid_data e) = "warning"
k8s_severity other_data = "warning"

unfoldable pub severity_from_event : Event → String
severity_from_event e =
    if str_eq e.event_type "xid"
    then xid_severity e.payload
    else if str_eq e.event_type "k8s"
    then k8s_severity e.payload
    else if str_eq e.event_type "throttle"
    then "warning"
    else if str_eq e.event_type "ecc"
    then "critical"
    else if str_eq e.event_type "temp"
    then "warning"
    else "info"

abbrev pub severity_from_ecc : GpuSnapshot → String
severity_from_ecc snap = if ltb 0 snap.ecc_uncorrectable then "critical" else "warning"

abbrev pub short_uuid_length : ℕ
short_uuid_length = 8

abbrev pub short : List ℕ → List ℕ
short uuid = if ltb short_uuid_length (length uuid) then take short_uuid_length uuid else uuid

abbrev pub format_throttle_description : GpuSnapshot → List ℕ
format_throttle_description snap =
    codes "GPU "
    ++ short snap.uuid
    ++ codes " throttling active (reason: 0x"
    ++ hexadecimal snap.throttling
    ++ codes ")"

abbrev pub format_ecc_description : GpuSnapshot → List ℕ
format_ecc_description snap =
    codes "GPU "
    ++ short snap.uuid
    ++ codes " ECC errors: "
    ++ decimal snap.ecc_correctable
    ++ codes " correctable, "
    ++ decimal snap.ecc_uncorrectable
    ++ codes " uncorrectable"

-- The degree sign is two bytes of UTF-8.
abbrev pub celsius : List ℕ
celsius = 0xC2 ∷ 0xB0 ∷ b'C' ∷ []

abbrev pub format_temp_description : GpuSnapshot → List ℕ
format_temp_description snap =
    codes "GPU "
    ++ short snap.uuid
    ++ codes " temperature: "
    ++ decimal snap.temperature
    ++ celsius
    ++ codes " (threshold: "
    ++ decimal snap.temp_threshold
    ++ celsius
    ++ codes ")"

abbrev pub temp_threshold_margin : ℕ
temp_threshold_margin = 10

abbrev pub absolute_high_temp_threshold : ℕ
absolute_high_temp_threshold = 85

-- The subtraction is one of uint32, which wraps.
unfoldable pub is_high_temperature : GpuSnapshot → Bool
is_high_temperature snap =
    if snap.temp_threshold == 0
    then leb absolute_high_temp_threshold snap.temperature
    else leb ((snap.temp_threshold + 2 ^ 32 - temp_threshold_margin) % 2 ^ 32) snap.temperature

abbrev pub is_throttled : GpuSnapshot → Bool
is_throttled snap = not (snap.throttling == 0)

abbrev pub has_ecc_errors : GpuSnapshot → Bool
has_ecc_errors snap = ltb 0 snap.ecc_correctable || ltb 0 snap.ecc_uncorrectable

-- ===== src/Tools/XidErrors.antt =====
-- pkg/tools/analyze_xid.go: the XID errors of the kernel log with what is known of them and of their
-- devices. What the log parser and NVML answer are arguments; process and raw message of an error are
-- left out.
pub mod Verdict
mod Tests
use k8s_gpu_mcp_server.Base.{
  ℕ, zero, suc, ◌+◌, Bool, true, false, Option, none, some, List, [], ◌∷◌, ◌++◌, String, ltb,
  if◌then◌else◌, length, filter, foldl, map,
}
use k8s_gpu_mcp_server.Base.Bytes.{equal_fold}
use k8s_gpu_mcp_server.Base.Int.{ℤ, pos, negsuc}
use k8s_gpu_mcp_server.Base.Texts.{codes, str_eq}
use k8s_gpu_mcp_server.Events.Correlator.Describe.{decimal}
use k8s_gpu_mcp_server.Events.Correlator.Types.{Context, ask, XidEvent}
use k8s_gpu_mcp_server.Xid.Codes.{ErrorInfo, lookup_or_unknown}

-- A device of NVML: its bus identifier, and name and UUID, empty where they cannot be read.
pub record PciDevice : Type 0 where
  pub bus_id : List ℕ
  pub name : List ℕ
  pub uuid : List ℕ

pub record GpuLookup : Type 0 where
  pub index : ℤ
  pub name : List ℕ
  pub uuid : List ℕ

abbrev pub nothing_read : GpuLookup
nothing_read = record { index = negsuc 0; name = []; uuid = [] }

abbrev pub not_found : GpuLookup
not_found = record { index = negsuc 0; name = codes "Unknown GPU"; uuid = codes "unknown" }

-- A device whose bus identifier cannot be read is passed over.
abbrev pub match_device :
    Option PciDevice → ℕ → List ℕ → Context → GpuLookup × Context → GpuLookup × Context
match_device none i bus ctx rest = rest
match_device (some d) i bus ctx rest =
    if equal_fold d.bus_id bus
    then (record { index = pos i; name = d.name; uuid = d.uuid }, ctx)
    else rest

abbrev pub unless_cancelled : Bool × Context → (Context → GpuLookup × Context) → GpuLookup × Context
unless_cancelled (true, ctx) go = (nothing_read, ctx)
unless_cancelled (false, ctx) go = go ctx

unfoldable pub find_from : List (Option PciDevice) → ℕ → List ℕ → Context → GpuLookup × Context
find_from [] i bus ctx = (not_found, ctx)
find_from (d ∷ ds) i bus ctx =
    unless_cancelled (ask ctx) λ c. match_device d i bus c (find_from ds (i + 1) bus c)

-- `none` is a device count that cannot be read.
unfoldable pub find_gpu_by_pci :
    Option (List (Option PciDevice)) → List ℕ → Context → GpuLookup × Context
unfolding find_from
find_gpu_by_pci none bus ctx = (nothing_read, ctx)
find_gpu_by_pci (some ds) bus ctx = find_from ds 0 bus ctx

pub record EnrichedXidError : Type 0 where
  pub xid_code : ℕ
  pub name : List ℕ
  pub severity : String
  pub description : List ℕ
  pub sre_action : String
  pub category : String
  pub gpu : GpuLookup
  pub pci_bus_id : String

unfoldable pub enriched : XidEvent → GpuLookup → EnrichedXidError
enriched e gpu =
    let info = lookup_or_unknown e.xid_code in
    record {
      xid_code = e.xid_code;
      name = info.name;
      severity = info.severity;
      description = info.description;
      sre_action = info.sre_action;
      category = info.category;
      gpu = gpu;
      pci_bus_id = e.pci_bus_id;
    }

abbrev pub cons_error :
    EnrichedXidError → Option (List EnrichedXidError) → Option (List EnrichedXidError)
cons_error e none = none
cons_error e (some es) = some (e ∷ es)

abbrev pub if_open :
    Bool × Context → (Context → Option (List EnrichedXidError)) → Option (List EnrichedXidError)
if_open (true, ctx) go = none
if_open (false, ctx) go = go ctx

-- `none` is an error: the context is done.
unfoldable pub enrich_events :
    Option (List (Option PciDevice)) → List XidEvent → Context → Option (List EnrichedXidError)
unfolding enriched find_gpu_by_pci
enrich_events devices [] ctx = some []
enrich_events devices (e ∷ es) ctx = if_open (ask ctx) λ c.
    let (gpu, d) = find_gpu_by_pci devices (codes e.pci_bus_id) c in
    cons_error (enriched e gpu) (enrich_events devices es d)

pub record SeveritySummary : Type 0 where
  pub fatal : ℕ
  pub critical : ℕ
  pub warning : ℕ
  pub info : ℕ

abbrev pub count_severity : SeveritySummary → String → SeveritySummary
count_severity s severity =
    if str_eq severity "fatal"
    then record s { fatal = suc s.fatal }
    else if str_eq severity "critical"
    then record s { critical = suc s.critical }
    else if str_eq severity "warning"
    then record s { warning = suc s.warning }
    else if str_eq severity "info"
    then record s { info = suc s.info }
    else s

abbrev pub no_errors : SeveritySummary
no_errors = record { fatal = 0; critical = 0; warning = 0; info = 0 }

unfoldable pub create_summary : List EnrichedXidError → SeveritySummary
create_summary errors = foldl (λ s e. count_severity s e.severity) no_errors errors

unfoldable pub determine_xid_status : SeveritySummary → String
determine_xid_status s =
    if ltb 0 s.fatal
    then "critical"
    else if ltb 0 s.critical
    then "degraded"
    else if ltb 0 s.warning
    then "warning"
    else "ok"

-- `%d` of an int.
abbrev pub signed_decimal : ℤ → List ℕ
signed_decimal (pos n) = decimal n
signed_decimal (negsuc n) = codes "-" ++ decimal (n + 1)

abbrev pub fatal_line : EnrichedXidError → List ℕ
fatal_line e =
    codes "- GPU "
    ++ signed_decimal e.gpu.index
    ++ codes ": XID "
    ++ decimal e.xid_code
    ++ codes " ("
    ++ e.name
    ++ codes ")"

abbrev pub advice : ℕ → List (List ℕ) → List (List ℕ)
advice n lines = if ltb 0 n then lines else []

-- `strings.Join` with a space.
abbrev pub after_space : List (List ℕ) → List ℕ
after_space [] = []
after_space (s ∷ ss) = codes " " ++ s ++ after_space ss

abbrev pub joined : List (List ℕ) → List ℕ
joined [] = codes "XID errors detected. Review detailed error information above."
joined (s ∷ ss) = s ++ after_space ss

unfoldable pub generate_xid_recommendation : List EnrichedXidError → SeveritySummary → List ℕ
generate_xid_recommendation [] s = codes "No XID errors detected. GPU health is good."
generate_xid_recommendation (e ∷ es) s = joined (
    advice s.fatal (
      (codes "URGENT: "
        ++ decimal s.fatal
        ++ codes " fatal error(s) detected. Drain affected nodes immediately.")
      ∷ map fatal_line (filter (λ x. str_eq x.severity "fatal") (e ∷ es)))
    ++ advice s.critical (
        (decimal s.critical
          ++ codes
              " critical error(s) detected. Investigate and consider GPU reset or replacement.")
        ∷ [])
    ++ advice s.warning (
        (decimal s.warning
          ++ codes " warning(s) detected. Monitor for frequency. Review application logs.")
        ∷ []))

pub record AnalyzeXidResponse : Type 0 where
  pub status : String
  pub error_count : ℕ
  pub errors : List EnrichedXidError
  pub summary : SeveritySummary
  pub recommendation : List ℕ

unfoldable pub response_of : List EnrichedXidError → AnalyzeXidResponse
unfolding create_summary determine_xid_status generate_xid_recommendation
response_of errors = record {
  status = determine_xid_status (create_summary errors);
  error_count = length errors;
  errors = errors;
  summary = create_summary errors;
  recommendation = generate_xid_recommendation errors (create_summary errors);
}

-- An answer of the tool, or an error.
pub data XidAnswer : Type 0 where
  cancelled parse_failed enrich_failed : XidAnswer
  analyzed : AnalyzeXidResponse → XidAnswer

abbrev pub if_enriched : Option (List EnrichedXidError) → XidAnswer
if_enriched none = enrich_failed
if_enriched (some errors) = analyzed (response_of errors)

abbrev pub if_parsed :
    Option (List (Option PciDevice)) → Option (List XidEvent) → Context → XidAnswer
if_parsed devices none ctx = parse_failed
if_parsed devices (some []) ctx = analyzed (record {
  status = "ok";
  error_count = 0;
  errors = [];
  summary = no_errors;
  recommendation = codes "No XID errors detected. GPU health is good.";
})
if_parsed devices (some (e ∷ es)) ctx = if_enriched (enrich_events devices (e ∷ es) ctx)

abbrev pub first_asked : Bool × Context → (Context → XidAnswer) → XidAnswer
first_asked (true, ctx) go = cancelled
first_asked (false, ctx) go = go ctx

-- `log` is what the parser makes of the kernel log, `none` an error.
unfoldable pub analyze_xid_errors :
    Option (List (Option PciDevice)) → Option (List XidEvent) → Context → XidAnswer
unfolding enrich_events response_of
analyze_xid_errors devices log ctx = first_asked (ask ctx) (if_parsed devices log)

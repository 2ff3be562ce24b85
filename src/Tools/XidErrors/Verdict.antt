-- ===== src/Tools/XidErrors/Verdict.antt =====
-- The status and the counts of an answer of pkg/tools/analyze_xid.go.
use mathlib.Core.Path.{subst}
use k8s_gpu_mcp_server.Base.{
  ℕ, suc, ◌+◌, ◌≡◌, refl, sym, ap, ◌∙◌, true, Option, none, some, List, [], ◌∷◌, Bool-cases, inl,
  inr, arith, map, length, filter, foldl, ltb, if◌then◌else◌, String,
}
use k8s_gpu_mcp_server.Base.Texts.{codes, str_eq, eq_iff}
use k8s_gpu_mcp_server.Base.Bytes.{equal_fold}
use k8s_gpu_mcp_server.Events.Correlator.Types.{XidEvent}
use k8s_gpu_mcp_server.Xid.Codes.{lookup_or_unknown}
use k8s_gpu_mcp_server.Xid.Lookups.{known_severity, enrich_event_lem}
use k8s_gpu_mcp_server.Tools.XidErrors.{
  PciDevice, GpuLookup, match_device, find_from, find_gpu_by_pci, EnrichedXidError, enriched,
  enrich_events, SeveritySummary, count_severity, create_summary, determine_xid_status, response_of,
  AnalyzeXidResponse, analyzed, analyze_xid_errors, if_enriched, cons_error, no_errors,
}

-- The severity of the code of an event.
abbrev pub severity_of : XidEvent → String
severity_of e = (lookup_or_unknown e.xid_code).severity

match_device-open :
    (d : Option PciDevice) (i : ℕ) (bus : List ℕ) (rest : GpuLookup × Option ℕ)
    → rest.1 ≡ none
    → (match_device d i bus none rest).1 ≡ none
match_device-open none i bus rest h = h
match_device-open (some d) i bus rest h = elim (Bool-cases (equal_fold d.bus_id bus)) [
  | inl p ↦ rw p refl
  | inr n ↦ rw n h
]

find_from-open :
    (ds : List (Option PciDevice)) (i : ℕ) (bus : List ℕ) → (find_from ds i bus none).1 ≡ none
unfolding find_from
find_from-open [] i bus = refl
find_from-open (d ∷ ds) i bus = match_device-open d i bus _ (find_from-open ds (i + 1) bus)

find_gpu_by_pci-open :
    (devices : Option (List (Option PciDevice))) (bus : List ℕ)
    → (find_gpu_by_pci devices bus none).1 ≡ none
unfolding find_gpu_by_pci
find_gpu_by_pci-open none bus = refl
find_gpu_by_pci-open (some ds) bus = find_from-open ds 0 bus

abbrev with_gpu : Option (List (Option PciDevice)) → XidEvent → EnrichedXidError
with_gpu devices e = enriched e (find_gpu_by_pci devices (codes e.pci_bus_id) none).0

enrich_events-open :
    (devices : Option (List (Option PciDevice))) (es : List XidEvent)
    → enrich_events devices es none ≡ some (map (with_gpu devices) es)
unfolding enrich_events
enrich_events-open devices [] = refl
enrich_events-open devices (e ∷ es) =
    ap (λ c. cons_error (with_gpu devices e) (enrich_events devices es c))
      (find_gpu_by_pci-open devices (codes e.pci_bus_id))
    ∙ ap (cons_error (with_gpu devices e)) (enrich_events-open devices es)

abbrev pub of_severity : String → List XidEvent → ℕ
of_severity s es = length (filter (λ e. str_eq (severity_of e) s) es)

-- The counts on top of others.
record Summed (a b : SeveritySummary) (es : List XidEvent) : Type 0 where
  fatals : b.fatal ≡ a.fatal + of_severity "fatal" es
  criticals : b.critical ≡ a.critical + of_severity "critical" es
  warnings : b.warning ≡ a.warning + of_severity "warning" es
  infos : b.info ≡ a.info
  total : b.fatal + b.critical + b.warning ≡ a.fatal + a.critical + a.warning + length es

-- What is counted for one of the three severities.
record Counts (a b : SeveritySummary) (s : String) : Type 0 where
  fatal_one : b.fatal ≡ a.fatal + (if str_eq s "fatal" then 1 else 0)
  critical_one : b.critical ≡ a.critical + (if str_eq s "critical" then 1 else 0)
  warning_one : b.warning ≡ a.warning + (if str_eq s "warning" then 1 else 0)
  info_none : b.info ≡ a.info
  one : b.fatal + b.critical + b.warning ≡ a.fatal + a.critical + a.warning + 1

counted_fatal : (a : SeveritySummary) → Counts a (count_severity a "fatal") "fatal"
counted_fatal a = record {
  fatal_one = omega arith;
  critical_one = omega arith;
  warning_one = omega arith;
  info_none = refl;
  one = omega arith;
}

counted_critical : (a : SeveritySummary) → Counts a (count_severity a "critical") "critical"
counted_critical a = record {
  fatal_one = omega arith;
  critical_one = omega arith;
  warning_one = omega arith;
  info_none = refl;
  one = omega arith;
}

counted_warning : (a : SeveritySummary) → Counts a (count_severity a "warning") "warning"
counted_warning a = record {
  fatal_one = omega arith;
  critical_one = omega arith;
  warning_one = omega arith;
  info_none = refl;
  one = omega arith;
}

count_severity-Counts :
    (a : SeveritySummary) (s : String) → known_severity s ≡ true → Counts a (count_severity a s) s
count_severity-Counts a s k =
    let at : (t : String)
        → str_eq s t ≡ true
        → Counts a (count_severity a t) t
        → Counts a (count_severity a s) s =
      λ t e c. subst (λ x. Counts a (count_severity a x) x) (sym ((eq_iff s t).0 e)) c in
    elim (Bool-cases (str_eq s "fatal")) [
      | inl f ↦ at _ f (counted_fatal a)
      | inr nf ↦ elim (Bool-cases (str_eq s "critical")) [
        | inl c ↦ at _ c (counted_critical a)
        | inr nc ↦ at _ (ground (arith, k, nf, nc)) (counted_warning a)
      ]
    ]

foldl-Summed :
    (a : SeveritySummary) (devices : Option (List (Option PciDevice))) (es : List XidEvent)
    → Summed a (foldl (λ s e. count_severity s e.severity) a (map (with_gpu devices) es)) es
unfolding enriched
foldl-Summed a devices [] = record {
  fatals = omega arith;
  criticals = omega arith;
  warnings = omega arith;
  infos = refl;
  total = omega arith;
}
foldl-Summed a devices (e ∷ es) =
    Summed-cons a (count_severity a (severity_of e)) _ e es
      (count_severity-Counts a (severity_of e) (enrich_event_lem e).1)
      (foldl-Summed (count_severity a (severity_of e)) devices es)
  where
    Summed-cons :
        (a b c : SeveritySummary) (e : XidEvent) (es : List XidEvent)
        → Counts a b (severity_of e)
        → Summed b c es
        → Summed a c (e ∷ es)
    Summed-cons a b c e es h k = record {
      fatals = ground (arith, h.fatal_one, k.fatals);
      criticals = ground (arith, h.critical_one, k.criticals);
      warnings = ground (arith, h.warning_one, k.warnings);
      infos = k.infos ∙ h.info_none;
      total = omega (arith, h.one, k.total);
    }

-- The status by the worst severity.
abbrev pub worst_status : List XidEvent → String
worst_status es =
    if ltb 0 (of_severity "fatal" es)
    then "critical"
    else if ltb 0 (of_severity "critical" es)
    then "degraded"
    else if ltb 0 (length es)
    then "warning"
    else "ok"

-- An answer about events: they are counted by the severity of their codes, all of them, and the status
-- goes by the worst.
pub record Judges (r : AnalyzeXidResponse) (es : List XidEvent) : Type 0 where
  pub every_error : r.error_count ≡ length es
  pub fatals : r.summary.fatal ≡ of_severity "fatal" es
  pub criticals : r.summary.critical ≡ of_severity "critical" es
  pub warnings : r.summary.warning ≡ of_severity "warning" es
  pub all_counted : r.summary.fatal + r.summary.critical + r.summary.warning ≡ length es
  pub judged : r.status ≡ worst_status es

length-map :
    (devices : Option (List (Option PciDevice))) (es : List XidEvent)
    → length (map (with_gpu devices) es) ≡ length es
length-map devices [] = refl
length-map devices (e ∷ es) = ap suc (length-map devices es)

response_of-Judges :
    (devices : Option (List (Option PciDevice))) (es : List XidEvent)
    → Judges (response_of (map (with_gpu devices) es)) es
unfolding response_of create_summary determine_xid_status
response_of-Judges devices es =
    let h = foldl-Summed no_errors devices es in
    record {
      every_error = length-map devices es;
      fatals = omega (arith, h.fatals);
      criticals = omega (arith, h.criticals);
      warnings = omega (arith, h.warnings);
      all_counted = omega (arith, h.total);
      judged = ground (arith, h.fatals, h.criticals, h.warnings, h.total);
    }

-- With a context that is never done, and whatever NVML answers, the tool answers for the events of the
-- kernel log: every event is counted once, as fatal, critical or a warning by the table of codes,
-- and the status is critical if one is fatal, else degraded if one is critical, else warning if
-- there is one, else ok.
pub analyze_xid_errors-Judges :
    (devices : Option (List (Option PciDevice))) (es : List XidEvent)
    → (r : AnalyzeXidResponse) × (analyze_xid_errors devices (some es) none ≡ analyzed r)
      × Judges r es
unfolding analyze_xid_errors
analyze_xid_errors-Judges devices [] = (
  _,
  refl,
  record {
    every_error = refl;
    fatals = refl;
    criticals = refl;
    warnings = refl;
    all_counted = refl;
    judged = refl;
  },
)
analyze_xid_errors-Judges devices (e ∷ es) = (
  response_of (map (with_gpu devices) (e ∷ es)),
  ap if_enriched (enrich_events-open devices (e ∷ es)),
  response_of-Judges devices (e ∷ es),
)

-- ===== src/Incidents/Agree.antt =====
-- The report of pkg/incidents/analyzer.go and the explanation of explainer.go, which are made by
-- separate code, tell the same.
use k8s_gpu_mcp_server.Base.{
  ℕ, ◌≡◌, refl, sym, ap, ◌∙◌, List, [], ◌∷◌, ◌++◌, Option, none, some, String, Bool-cases, inl, inr,
  foldl, foldl-kept, get_or, any, ◌==◌,
}
use k8s_gpu_mcp_server.Base.Int.{ℤ}
use k8s_gpu_mcp_server.Base.Texts.{str_eq}
use k8s_gpu_mcp_server.Events.Correlator.Types.{
  Event, K8sEvent, XidEvent, GpuSnapshot, CorrelatedIncident,
}
use k8s_gpu_mcp_server.Xid.Codes.{ErrorInfo, lookup_code}
use k8s_gpu_mcp_server.Incidents.Float.{Floats}
use k8s_gpu_mcp_server.Incidents.Patterns.{FailurePattern}
use k8s_gpu_mcp_server.Incidents.Context.{
  as_k8s, as_xid, node_in, first_node, extract_node, events_of, find_closest_snapshot,
  memory_usage_percent, closer_snapshot, AnalysisContext, add_snapshot, add_k8s, add_code,
  extract_context, extract_k8s_events, extract_xid_codes,
}
use k8s_gpu_mcp_server.Incidents.Report.{
  TemplateEngine, HardwareSnapshot, hardware_of, extract_hardware_state, IncidentReport, analyze,
  or_default, report_usage_percent,
}
use k8s_gpu_mcp_server.Incidents.Explain.{
  ExplanationData, HardwareData, hardware_data, extract_data, explained_node, named_node,
  first_named_node, explain_closer, explained_snapshot, populate_xid_from_event, with_info, no_xid,
  xid_info_in, first_xid_info, extract_xid_info,
}

node_in-or_default :
    (o : Option K8sEvent) (fallback s t : String)
    → t ≡ or_default s fallback
    → named_node o t ≡ or_default (node_in o s) fallback
node_in-or_default none fallback s t e = e
node_in-or_default (some k) fallback s t e = elim (Bool-cases (str_eq k.node_name "")) [
  | inl p ↦ rw p e
  | inr n ↦ rw (n, n) refl
]

first_node-or_default :
    (es : List Event) → first_named_node es ≡ or_default (first_node es) "the GPU node"
first_node-or_default [] = refl
first_node-or_default (e ∷ es) =
    node_in-or_default (as_k8s e) "the GPU node" (first_node es) (first_named_node es)
      (first_node-or_default es)

-- The measurements that a report and an explanation have in common.
abbrev pub Readings : Type 0
Readings = ℕ × ℕ × ℕ × ℕ × ℕ × ℕ × ℕ

abbrev pub reported : Option HardwareSnapshot → Readings
reported none = (0, 0, 0, 0, 0, 0, 0)
reported (some h) = (
  h.temperature, h.temp_threshold, h.mem_used, h.mem_total, h.ecc_correctable, h.ecc_uncorrectable,
  h.throttling,
)

abbrev pub explained : {fl : Floats} → HardwareData fl → Readings
explained h = (
  h.temperature, h.temp_threshold, h.mem_used, h.mem_total, h.ecc_correctable, h.ecc_uncorrectable,
  h.throttling,
)

-- The same pod, node, timeline and measurements, which are those of one snapshot or zeros where there
-- is none; and the XID error that is explained is the first that the analysis weighs.
pub record Agrees {fl : Floats} (incident : CorrelatedIncident) (report : IncidentReport fl)
    (data' : ExplanationData fl) : Type 0 where
  pub same_pod : data'.pod_name ≡ report.pod.name
  pub same_namespace : data'.namespace ≡ report.pod.namespace
  pub same_node : data'.node ≡ or_default report.node "the GPU node"
  pub same_timeline : data'.timeline ≡ report.timeline
  pub same_readings : explained data'.hardware ≡ reported report.hardware_state
  pub same_percent : data'.hardware.mem_percent ≡ report_usage_percent fl report.hardware_state
  pub same_xid : data'.xid.xid_code ≡ get_or (extract_context fl incident).xid_codes 0 0

-- The two searches take the same step, and the first snapshot among equally close ones.
explain_closer-eq :
    (target : ℕ) (best : GpuSnapshot × ℤ) (ss : List GpuSnapshot)
    → foldl (explain_closer target) best ss ≡ foldl (closer_snapshot target) best ss
unfolding explain_closer closer_snapshot
explain_closer-eq target best [] = refl
explain_closer-eq target best (s ∷ ss) = explain_closer-eq target (closer_snapshot target best s) ss

explained_snapshot-eq :
    (ss : List GpuSnapshot) (target : ℕ)
    → explained_snapshot ss target ≡ find_closest_snapshot ss target
unfolding explained_snapshot find_closest_snapshot
explained_snapshot-eq [] target = refl
explained_snapshot-eq (s ∷ ss) target = ap (λ p. some p.0) (explain_closer-eq target _ ss)

hardware_readings :
    (fl : Floats) (o : Option GpuSnapshot) (duration : List ℕ)
    → explained (hardware_data fl o duration) ≡ reported (hardware_of o)
unfolding hardware_data
hardware_readings fl none duration = refl
hardware_readings fl (some s) duration = refl

hardware_percent :
    (fl : Floats) (o : Option GpuSnapshot) (duration : List ℕ)
    → (hardware_data fl o duration).mem_percent ≡ report_usage_percent fl (hardware_of o)
unfolding hardware_data report_usage_percent memory_usage_percent
hardware_percent fl none duration = refl
hardware_percent fl (some s) duration = refl

add_snapshot-codes :
    {fl : Floats} (ctx : AnalysisContext fl) (snap : GpuSnapshot)
    → (add_snapshot fl ctx snap).xid_codes ≡ ctx.xid_codes
unfolding add_snapshot
add_snapshot-codes ctx snap = refl

add_k8s-codes :
    {fl : Floats} (ctx : AnalysisContext fl) (o : Option K8sEvent)
    → (add_k8s ctx o).xid_codes ≡ ctx.xid_codes
unfolding add_k8s
add_k8s-codes ctx none = refl
add_k8s-codes ctx (some k) = refl

-- The snapshots and the cluster events leave the codes of a context alone.
context_codes :
    (fl : Floats) (incident : CorrelatedIncident)
    → (extract_context fl incident).xid_codes ≡ extract_xid_codes incident
unfolding extract_context extract_k8s_events
context_codes fl incident =
    foldl-kept {S = AnalysisContext fl} (λ c e. add_k8s c (as_k8s e)) (λ c. c.xid_codes)
      (λ c e. add_k8s-codes c (as_k8s e)) _ (events_of incident)
    ∙ foldl-kept {S = AnalysisContext fl} (add_snapshot fl) (λ c. c.xid_codes) add_snapshot-codes _
        incident.gpu_snapshots

-- More codes leave the first one first.
add_code-first :
    (c : ℕ) (seen : List ℕ) (o : Option XidEvent)
    → (rest : List ℕ) × (add_code (c ∷ seen) o ≡ c ∷ rest)
add_code-first c seen none = (seen, refl)
add_code-first c seen (some x) = elim (Bool-cases (any (λ d. d == x.xid_code) (c ∷ seen))) [
  | inl p ↦ (seen, rw p refl)
  | inr n ↦ (seen ++ (x.xid_code ∷ []), rw n refl)
]

foldl-first_code :
    (c : ℕ) (seen : List ℕ) (es : List Event)
    → get_or (foldl (λ l e. add_code l (as_xid e)) (c ∷ seen) es) 0 0 ≡ c
foldl-first_code c seen [] = refl
foldl-first_code c seen (e ∷ es) =
    let (rest, p) = add_code-first c seen (as_xid e) in rw p (foldl-first_code c rest es)

populate-code : (x : XidEvent) → (populate_xid_from_event x).xid_code ≡ x.xid_code
unfolding populate_xid_from_event
populate-code x = kept (lookup_code x.xid_code)
  where
    kept :
        (o : Option ErrorInfo)
        → (with_info
            (record no_xid { xid_code = x.xid_code; xid_description = x.description })
            o).xid_code
          ≡ x.xid_code
    kept none = refl
    kept (some info) = refl

xid_info_in-code :
    (o : Option XidEvent) (es : List Event)
    → (first_xid_info es).xid_code ≡ get_or (foldl (λ l e. add_code l (as_xid e)) [] es) 0 0
    → (xid_info_in o (first_xid_info es)).xid_code
      ≡ get_or (foldl (λ l e. add_code l (as_xid e)) (add_code [] o) es) 0 0
unfolding xid_info_in
xid_info_in-code none es h = h
xid_info_in-code (some x) es h = populate-code x ∙ sym (foldl-first_code x.xid_code [] es)

first_xid-code :
    (es : List Event)
    → (first_xid_info es).xid_code ≡ get_or (foldl (λ l e. add_code l (as_xid e)) [] es) 0 0
first_xid-code [] = refl
first_xid-code (e ∷ es) = xid_info_in-code (as_xid e) es (first_xid-code es)

-- The report and the explanation of an incident show the same pod, timeline, measurements and memory
-- percentage (those of the same snapshot, which each of them searches for, or zeros where there is
-- none), and the same node, which the explanation calls "the GPU node" where the report leaves it
-- empty; and the XID error that is explained is the first of those that the analysis has collected,
-- 0 if there is none.
pub analyze-extract_data-Agrees :
    {fl : Floats} (engine : TemplateEngine) (patterns : List (FailurePattern fl)) (now : ℕ)
    (incident : CorrelatedIncident)
    → Agrees incident (analyze engine fl patterns now (some incident)) (extract_data fl incident)
unfolding analyze extract_data extract_node explained_node extract_hardware_state extract_xid_info
    extract_xid_codes
analyze-extract_data-Agrees {fl} engine patterns now incident =
    let same = explained_snapshot-eq incident.gpu_snapshots incident.timestamp in
    let shown = explained_snapshot incident.gpu_snapshots incident.timestamp in
    record {
      same_pod = refl;
      same_namespace = refl;
      same_node = first_node-or_default (events_of incident);
      same_timeline = refl;
      same_readings = hardware_readings fl shown _ ∙ ap (λ o. reported (hardware_of o)) same;
      same_percent =
          hardware_percent fl shown _ ∙ ap (λ o. report_usage_percent fl (hardware_of o)) same;
      same_xid =
          first_xid-code (events_of incident)
          ∙ ap (λ l. get_or l 0 0) (sym (context_codes fl incident));
    }

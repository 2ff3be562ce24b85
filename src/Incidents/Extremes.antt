-- ===== src/Incidents/Extremes.antt =====
-- `extractContext` of pkg/incidents/analyzer.go, and the throttle indicator on what it finds.
use k8s_gpu_mcp_server.Base.{
  ℕ, ◌≡◌, ◌↔◌, refl, ap, ◌∙◌, false, List, [], ◌∷◌, ◌++◌, Option, none, some, inl, inr, Bool-cases,
  arith, foldl, All, any, ◌==◌, if◌then◌else◌,
}
use k8s_gpu_mcp_server.Base.Texts.{codes}
use k8s_gpu_mcp_server.Events.Correlator.Types.{Event, K8sEvent, GpuSnapshot, CorrelatedIncident}
use k8s_gpu_mcp_server.Events.Correlator.Describe.{is_throttled, hexadecimal}
use k8s_gpu_mcp_server.Incidents.Float.{Floats, IsOrdered}
use k8s_gpu_mcp_server.Incidents.Patterns.{text_value, indicator}
use k8s_gpu_mcp_server.Incidents.Context.{
  AnalysisContext, add_k8s, as_k8s, events_of, extract_context, extract_k8s_events,
  extract_xid_codes, memory_usage_percent, causality_text,
}
use k8s_gpu_mcp_server.Incidents.Indicators.{
  check_indicator, check_throttle_indicator, matched, no_match,
}
use k8s_gpu_mcp_server.Incidents.Worst.{
  Largest, Words, after, hottest, most_errors, throttled, fullest,
}

module _ {fl : Floats} where
  -- Cluster events change no measurement.
  abbrev measures : AnalysisContext fl → ℕ × ℕ × ℕ × fl.F
  measures ctx =
      (ctx.temperature, ctx.ecc_uncorrectable, ctx.throttle_reasons, ctx.mem_util_percent)

  add_k8s-measures :
      (ctx : AnalysisContext fl) (o : Option K8sEvent) → measures (add_k8s ctx o) ≡ measures ctx
  unfolding add_k8s
  add_k8s-measures ctx none = refl
  add_k8s-measures ctx (some k) = refl

  foldl-measures :
      (ctx : AnalysisContext fl) (es : List Event)
      → measures (foldl (λ c e. add_k8s c (as_k8s e)) ctx es) ≡ measures ctx
  foldl-measures ctx [] = refl
  foldl-measures ctx (e ∷ es) =
      foldl-measures (add_k8s ctx (as_k8s e)) es ∙ add_k8s-measures ctx (as_k8s e)

  -- The measurements of a context are the worst of the snapshots.
  pub record Extremes (ctx : AnalysisContext fl) (snaps : List GpuSnapshot) : Type 0 where
    pub temperatures : Largest 0 ctx.temperature (λ s. s.temperature) snaps
    pub errors : Largest 0 ctx.ecc_uncorrectable (λ s. s.ecc_uncorrectable) snaps
    pub fill : All (λ s. fl.gt (memory_usage_percent fl s) ctx.mem_util_percent ≡ false) snaps
    pub reasons : (ctx.throttle_reasons ≡ 0) ↔ (any is_throttled snaps ≡ false)

abbrev fresh : (fl : Floats) → CorrelatedIncident → AnalysisContext fl
fresh fl incident = record {
  xid_codes = extract_xid_codes incident;
  temperature = 0;
  ecc_uncorrectable = 0;
  mem_util_percent = fl.hundredths 0;
  throttle_reasons = 0;
  k8s_reasons = [];
  k8s_messages = [];
  causality = causality_text incident.causality;
}

extract_context-measures :
    (fl : Floats) (incident : CorrelatedIncident)
    → measures (extract_context fl incident)
      ≡ measures (after (fresh fl incident) incident.gpu_snapshots)
unfolding extract_context extract_k8s_events
extract_context-measures fl incident = foldl-measures _ (events_of incident)

-- The temperature and the error count of the context of an incident are the largest of its
-- snapshots, 0 without snapshots; no snapshot uses a larger part of its memory; and the context has
-- throttle reasons exactly if a snapshot has any.
pub extract_context-Extremes :
    {fl : Floats} (incident : CorrelatedIncident)
    → IsOrdered fl
    → Words incident.gpu_snapshots
    → Extremes (extract_context fl incident) incident.gpu_snapshots
extract_context-Extremes {fl} incident ord w =
    let start = fresh fl incident in
    let snaps = incident.gpu_snapshots in
    let e = extract_context-measures fl incident in
    record {
      temperatures = rw (ap (λ m. m.0) e) (hottest start snaps);
      errors = rw (ap (λ m. m.1) e) (most_errors start snaps);
      fill = rw (ap (λ m. m.3) e) (fullest ord start snaps).1;
      reasons = rw (ap (λ m. m.2) e) (both refl (throttled start snaps (omega arith) w));
    }
  where
    both : {A B C : Type 0} → C → (A ↔ (C × B)) → A ↔ B
    both c (f, g) = (λ a. (f a).1, λ b. g (c, b))

abbrev pub overheating : {fl : Floats} → AnalysisContext fl → List ℕ
overheating ctx =
    codes "Thermal throttling active (reason: 0x" ++ hexadecimal ctx.throttle_reasons ++ codes ")"

-- The indicator of hw_thermal throttling matches, and says that thermal throttling is active, as
-- soon as a snapshot of the incident has any throttle reason at all; otherwise it does not match.
pub throttle_any_reason :
    {fl : Floats} (incident : CorrelatedIncident) (weight : fl.F)
    → IsOrdered fl
    → Words incident.gpu_snapshots
    → let ctx = extract_context fl incident in
      check_indicator (indicator "throttle" "present" (text_value (codes "hw_thermal")) weight) ctx
      ≡ (if any is_throttled incident.gpu_snapshots then matched (overheating ctx) else no_match)
unfolding check_indicator check_throttle_indicator
throttle_any_reason {fl} incident weight ord w =
    let r = (extract_context fl incident).throttle_reasons in
    let h = (extract_context-Extremes incident ord w).reasons in
    elim (Bool-cases (any is_throttled incident.gpu_snapshots)) [
      | inl e ↦ rw (e, differs r (λ z. ground (arith, h.0 z, e))) refl
      | inr n ↦ rw (n, h.1 n) refl
    ]
  where
    differs : (r : ℕ) → (r ≡ 0 → ⊥) → (r == 0) ≡ false
    differs r n = ground (arith, n)

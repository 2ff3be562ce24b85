-- ===== src/Incidents/Overview.antt =====
-- The confidence and the evidence of every report of pkg/incidents/analyzer.go.
use mathlib.Core.Path.{subst}
use k8s_gpu_mcp_server.Base.{
  ℕ, ◌<◌, ◌≡◌, ◌≢◌, ◌⊎◌, refl, sym, ap, ◌∙◌, true, false, List, [], ◌∷◌, Option, none, some, inl,
  inr, Bool-cases, arith, foldl, length, length-append,
}
use k8s_gpu_mcp_server.Events.Correlator.Types.{CorrelatedIncident}
use k8s_gpu_mcp_server.Incidents.Float.{Floats, IsOrdered, not_above}
use k8s_gpu_mcp_server.Incidents.Patterns.{FailurePattern, Indicator}
use k8s_gpu_mcp_server.Incidents.Context.{AnalysisContext, extract_context}
use k8s_gpu_mcp_server.Incidents.Indicators.{Checked, check_indicator}
use k8s_gpu_mcp_server.Incidents.Evidence.{Backed, check_indicator-Backed}
use k8s_gpu_mcp_server.Incidents.Match.{Best, weigh, at_most_one, evaluate_pattern, match_patterns}
use k8s_gpu_mcp_server.Incidents.Best.{Chosen, match_patterns-Chosen, no_pattern}
use k8s_gpu_mcp_server.Incidents.Report.{TemplateEngine, RootCause, analyze}

module _ (fl : Floats) where
  abbrev Scored : Type 0
  Scored = fl.F × List (List ℕ)

  -- Nothing has matched, or there is evidence.
  abbrev Founded : Scored → Type 0
  Founded s = (s.0 ≡ fl.hundredths 0) ⊎ (0 < length s.1)

weigh-Founded :
    (fl : Floats) (w : fl.F) (r : Checked) (s : Scored fl)
    → Backed r
    → Founded fl s
    → Founded fl (weigh fl w r s)
weigh-Founded fl w (false, ev) s b h = h
weigh-Founded fl w (true, ev) s b h =
    rw (b.says refl) (inr (omega (arith, length-append s.1 (ev ∷ []))))

module _ {fl : Floats} where
  foldl-Founded :
      (ctx : AnalysisContext fl) (inds : List (Indicator fl)) (s : Scored fl)
      → Founded fl s
      → Founded fl (foldl (λ a ind. weigh fl ind.weight (check_indicator ind ctx) a) s inds)
  foldl-Founded ctx [] s h = h
  foldl-Founded ctx (ind ∷ inds) s h =
      foldl-Founded ctx inds (weigh fl ind.weight (check_indicator ind ctx) s)
        (weigh-Founded fl ind.weight (check_indicator ind ctx) s (check_indicator-Backed ind ctx) h)

  module _ (ord : IsOrdered fl) where
    at_most_one-below : (c : fl.F) → fl.gt (at_most_one fl c) (fl.hundredths 100) ≡ false
    at_most_one-below c = elim (Bool-cases (fl.gt c (fl.hundredths 100))) [
      | inl e ↦ rw e (ord.gt_irrefl (fl.hundredths 100))
      | inr n ↦ rw n n
    ]

    at_most_one-zero : (c : fl.F) → c ≡ fl.hundredths 0 → at_most_one fl c ≡ fl.hundredths 0
    at_most_one-zero c e =
        let small : fl.gt c (fl.hundredths 100) ≡ false = rw e (
          not_above ord (fl.hundredths 100) (fl.hundredths 0)
            (ord.gt_constants 0 100 (omega arith) (omega arith))) in
        rw small e

    evaluate_pattern-below :
        (p : FailurePattern fl) (ctx : AnalysisContext fl)
        → fl.gt (evaluate_pattern fl p ctx).0 (fl.hundredths 100) ≡ false
    unfolding evaluate_pattern
    evaluate_pattern-below p ctx = at_most_one-below _

    evaluate_pattern-Founded :
        (p : FailurePattern fl) (ctx : AnalysisContext fl) → Founded fl (evaluate_pattern fl p ctx)
    unfolding evaluate_pattern
    evaluate_pattern-Founded p ctx =
        elim (foldl-Founded ctx p.indicators (fl.hundredths 0, []) (inl refl)) [
          | inl z ↦ inl (at_most_one-zero _ z)
          | inr l ↦ inr l
        ]

    enough_positive : (c : fl.F) → fl.gt (fl.hundredths 20) c ≡ false → c ≢ fl.hundredths 0
    enough_positive c n e = ground (
      arith,
      n,
      ap (fl.gt (fl.hundredths 20)) e,
      ord.gt_constants 0 20 (omega arith) (omega arith),
    )

-- A root cause whose confidence is 0 or between 0.2 and 1, and that names evidence.
pub record Reasoned {fl : Floats} (root : RootCause fl) : Type 0 where
  pub below_one : fl.gt root.confidence (fl.hundredths 100) ≡ false
  pub zero_or_enough :
      (root.confidence ≡ fl.hundredths 0) ⊎ (fl.gt (fl.hundredths 20) root.confidence ≡ false)
  pub says_why : 0 < length root.evidence

abbrev pub root_of : {fl : Floats} → Best fl → RootCause fl
root_of (best, confidence, evidence) = record {
  category = best.category;
  confidence = confidence;
  evidence = evidence;
  not_your_code = best.root_cause.not_your_code;
}

module _ {fl : Floats} (ord : IsOrdered fl) where
  Chosen-Reasoned :
      (ctx : AnalysisContext fl) (patterns : List (FailurePattern fl)) (b : Best fl)
      → Chosen ctx patterns b
      → Reasoned (root_of b)
  Chosen-Reasoned ctx patterns b h = record {
    below_one =
        ap (λ s. fl.gt s.0 (fl.hundredths 100)) (sym h.picked.valued)
        ∙ evaluate_pattern-below ord b.0 ctx;
    zero_or_enough = inr h.enough;
    says_why = elim (subst (Founded fl) h.picked.valued (evaluate_pattern-Founded ord b.0 ctx)) [
      | inl z ↦ absurd (enough_positive ord b.1 h.enough z)
      | inr l ↦ l
    ];
  }

  zero-Reasoned :
      (root : RootCause fl)
      → root.confidence ≡ fl.hundredths 0
      → 0 < length root.evidence
      → Reasoned root
  zero-Reasoned root z l = record {
    below_one =
        ap (λ c. fl.gt c (fl.hundredths 100)) z
        ∙ not_above ord _ _ (ord.gt_constants 0 100 (omega arith) (omega arith));
    zero_or_enough = inl z;
    says_why = l;
  }

  match_patterns-Reasoned :
      (ctx : AnalysisContext fl) (patterns : List (FailurePattern fl))
      → Reasoned (root_of (match_patterns fl patterns ctx))
  match_patterns-Reasoned ctx patterns = elim (match_patterns-Chosen ctx patterns ord) [
    | inl none_fits ↦
        subst (λ b. Reasoned (root_of b)) (sym none_fits.0)
          (zero-Reasoned (root_of (no_pattern ctx)) refl (omega arith))
    | inr h ↦ Chosen-Reasoned ctx patterns _ h
  ]

-- Whatever the patterns, the incident (a missing one included) and the engine for templates, the
-- root cause of a report has a confidence of 0 or between 0.2 and 1, and at least one text of
-- evidence.
pub analyze-Reasoned :
    {fl : Floats} (engine : TemplateEngine) (patterns : List (FailurePattern fl)) (now : ℕ)
    (incident : Option CorrelatedIncident)
    → IsOrdered fl
    → Reasoned (analyze engine fl patterns now incident).root_cause
unfolding analyze
analyze-Reasoned engine patterns now none ord = zero-Reasoned ord _ refl (omega arith)
analyze-Reasoned {fl} engine patterns now (some incident) ord =
    match_patterns-Reasoned ord (extract_context fl incident) patterns

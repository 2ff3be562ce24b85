-- ===== src/Incidents/Match.antt =====
-- `matchPatterns` and `evaluatePattern` of pkg/incidents/analyzer.go.
use k8s_gpu_mcp_server.Base.{ℕ, true, false, List, [], ◌∷◌, ◌++◌, if◌then◌else◌, foldl}
use k8s_gpu_mcp_server.Base.Bytes.{is_empty}
use k8s_gpu_mcp_server.Base.Texts.{codes}
use k8s_gpu_mcp_server.Incidents.Float.{Floats}
use k8s_gpu_mcp_server.Incidents.Patterns.{FailurePattern, recommend}
use k8s_gpu_mcp_server.Incidents.Context.{AnalysisContext}
use k8s_gpu_mcp_server.Incidents.Indicators.{Checked, check_indicator}

abbrev pub unknown_pattern : (fl : Floats) → FailurePattern fl
unknown_pattern fl = record {
  name = "unknown";
  category = "unknown";
  indicators = [];
  root_cause = record { category = "unknown"; not_your_code = false };
  recommendations =
      recommend "Review incident timeline and logs for additional context" "" "medium"
      ∷ recommend "Check GPU health metrics" "nvidia-smi -q" "medium"
      ∷ [];
}

module _ (fl : Floats) where
  -- The body of the loop over the indicators.
  abbrev pub weigh : fl.F → Checked → fl.F × List (List ℕ) → fl.F × List (List ℕ)
  weigh weight (false, ev) (confidence, evidence) = (confidence, evidence)
  weigh weight (true, ev) (confidence, evidence) =
      (fl.plus confidence weight, if is_empty ev then evidence else evidence ++ (ev ∷ []))

  abbrev pub at_most_one : fl.F → fl.F
  at_most_one c = if fl.gt c (fl.hundredths 100) then fl.hundredths 100 else c

  unfoldable pub evaluate_pattern : FailurePattern fl → AnalysisContext fl → fl.F × List (List ℕ)
  unfolding check_indicator
  evaluate_pattern pattern ctx =
      let (confidence, evidence) =
        foldl (λ s ind. weigh ind.weight (check_indicator ind ctx) s) (fl.hundredths 0, [])
          pattern.indicators in
      (at_most_one confidence, evidence)

  -- The best pattern so far, with its confidence and evidence.
  abbrev pub Best : Type 0
  Best = FailurePattern fl × fl.F × List (List ℕ)

  abbrev pub better : Best → FailurePattern fl → fl.F × List (List ℕ) → Best
  better (best, best_confidence, best_evidence) pattern (confidence, evidence) =
      if fl.gt confidence best_confidence
      then (pattern, confidence, evidence)
      else (best, best_confidence, best_evidence)

  abbrev pub or_no_match : Best → Best
  or_no_match (best, best_confidence, best_evidence) =
      if fl.gt (fl.hundredths 20) best_confidence
      then (unknown_pattern fl, fl.hundredths 0, codes "No known failure pattern matched" ∷ [])
      else (best, best_confidence, best_evidence)

  unfoldable pub match_patterns : List (FailurePattern fl) → AnalysisContext fl → Best
  unfolding evaluate_pattern
  match_patterns patterns ctx = or_no_match (
      foldl (λ b p. better b p (evaluate_pattern p ctx)) (unknown_pattern fl, fl.hundredths 0, [])
        patterns)

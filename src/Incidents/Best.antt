-- ===== src/Incidents/Best.antt =====
-- `matchPatterns` of pkg/incidents/analyzer.go takes the first of the best patterns.
use k8s_gpu_mcp_server.Base.{
  ◌≡◌, ◌⊎◌, refl, sym, ap, ◌∙◌, true, false, List, [], ◌∷◌, ◌++◌, inl, inr, Bool-cases, arith,
  foldl, All, All-append, All-map, append-nil, append_assoc,
}
use k8s_gpu_mcp_server.Base.Texts.{codes}
use k8s_gpu_mcp_server.Incidents.Float.{Floats, IsOrdered, above_bound, not_above}
use k8s_gpu_mcp_server.Incidents.Patterns.{FailurePattern}
use k8s_gpu_mcp_server.Incidents.Context.{AnalysisContext}
use k8s_gpu_mcp_server.Incidents.Match.{
  Best, better, or_no_match, evaluate_pattern, match_patterns, unknown_pattern,
}

module _ {fl : Floats} (ctx : AnalysisContext fl) where
  abbrev pub confidence_of : FailurePattern fl → fl.F
  confidence_of p = (evaluate_pattern fl p ctx).0

  abbrev start : Best fl
  start = (unknown_pattern fl, fl.hundredths 0, [])

  -- A pattern of the list with its confidence and evidence, above all that stand before it.
  pub record Picked (patterns : List (FailurePattern fl)) (b : Best fl) : Type 0 where
    pub before : List (FailurePattern fl)
    pub after : List (FailurePattern fl)
    pub parts : patterns ≡ before ++ (b.0 ∷ after)
    pub valued : evaluate_pattern fl b.0 ctx ≡ (b.1, b.2)
    pub above_earlier : All (λ q. fl.gt b.1 (confidence_of q) ≡ true) before

  -- No pattern has a higher confidence.
  abbrev pub NoneHigher : List (FailurePattern fl) → fl.F → Type 0
  NoneHigher patterns c = All (λ q. fl.gt (confidence_of q) c ≡ false) patterns

  record Scanned (seen : List (FailurePattern fl)) (b : Best fl) : Type 0 where
    highest : NoneHigher seen b.1
    picked : (b ≡ start) ⊎ Picked seen b

  abbrev step : Best fl → FailurePattern fl → Best fl
  step b p = better fl b p (evaluate_pattern fl p ctx)

  -- What `matchPatterns` returns.
  pub record Chosen (patterns : List (FailurePattern fl)) (b : Best fl) : Type 0 where
    pub picked : Picked patterns b
    pub highest : NoneHigher patterns b.1
    pub enough : fl.gt (fl.hundredths 20) b.1 ≡ false

  abbrev pub no_pattern : Best fl
  no_pattern = (unknown_pattern fl, fl.hundredths 0, codes "No known failure pattern matched" ∷ [])

  abbrev pub AllWeak : List (FailurePattern fl) → Type 0
  AllWeak patterns = All (λ q. fl.gt (fl.hundredths 20) (confidence_of q) ≡ true) patterns

  module _ (ord : IsOrdered fl) where
    step-taken :
        (seen : List (FailurePattern fl)) (b : Best fl) (p : FailurePattern fl)
        → NoneHigher seen b.1
        → fl.gt (confidence_of p) b.1 ≡ true
        → Scanned
            (seen ++ (p ∷ []))
            (p, (evaluate_pattern fl p ctx).0, (evaluate_pattern fl p ctx).1)
    step-taken seen b p none_higher g =
        let above = All-map _ _ seen (λ q n. above_bound ord _ _ b.1 g n) none_higher in
        record {
          highest =
              All-append _ seen (p ∷ []) (All-map _ _ seen (λ q h. not_above ord _ _ h) above)
                (ord.gt_irrefl (confidence_of p), tt);
          picked = inr (record {
            before = seen;
            after = [];
            parts = refl;
            valued = refl;
            above_earlier = above;
          });
        }

    Picked-append :
        (seen more : List (FailurePattern fl)) (b : Best fl)
        → Picked seen b
        → Picked (seen ++ more) b
    Picked-append seen more b h = record {
      before = h.before;
      after = h.after ++ more;
      parts = ap (λ ps. ps ++ more) h.parts ∙ append_assoc h.before (b.0 ∷ h.after) more;
      valued = h.valued;
      above_earlier = h.above_earlier;
    }

    step-kept :
        (seen : List (FailurePattern fl)) (b : Best fl) (p : FailurePattern fl)
        → Scanned seen b
        → fl.gt (confidence_of p) b.1 ≡ false
        → Scanned (seen ++ (p ∷ [])) b
    step-kept seen b p h n = record {
      highest = All-append _ seen (p ∷ []) h.highest (n, tt);
      picked = elim h.picked [ inl e ↦ inl e | inr k ↦ inr (Picked-append seen (p ∷ []) b k) ];
    }

    step-Scanned :
        (seen : List (FailurePattern fl)) (b : Best fl) (p : FailurePattern fl)
        → Scanned seen b
        → Scanned (seen ++ (p ∷ [])) (step b p)
    step-Scanned seen b p h = elim (Bool-cases (fl.gt (confidence_of p) b.1)) [
      | inl g ↦ rw g (step-taken seen b p h.highest g)
      | inr n ↦ rw n (step-kept seen b p h n)
    ]

    foldl-Scanned :
        (seen patterns : List (FailurePattern fl)) (b : Best fl)
        → Scanned seen b
        → Scanned (seen ++ patterns) (foldl step b patterns)
    foldl-Scanned seen [] b h = rw (append-nil seen) h
    foldl-Scanned seen (p ∷ patterns) b h =
        rw (sym (append_assoc seen (p ∷ []) patterns))
          (foldl-Scanned (seen ++ (p ∷ [])) patterns (step b p) (step-Scanned seen b p h))

    start-Scanned : Scanned [] start
    start-Scanned = record { highest = tt; picked = inl refl }

    start_weak : (b : Best fl) → b ≡ start → fl.gt (fl.hundredths 20) b.1 ≡ true
    start_weak b e =
        ap (λ a. fl.gt (fl.hundredths 20) a.1) e ∙ ord.gt_constants 0 20 (omega arith) (omega arith)

    all_weak :
        (patterns : List (FailurePattern fl)) (b : Best fl)
        → NoneHigher patterns b.1
        → fl.gt (fl.hundredths 20) b.1 ≡ true
        → AllWeak patterns
    all_weak patterns b h w = All-map _ _ patterns (λ q n. above_bound ord _ _ b.1 w n) h

    or_no_match-Chosen :
        (patterns : List (FailurePattern fl)) (b : Best fl)
        → Scanned patterns b
        → ((or_no_match fl b ≡ no_pattern) × AllWeak patterns) ⊎ Chosen patterns (or_no_match fl b)
    or_no_match-Chosen patterns b h = elim (Bool-cases (fl.gt (fl.hundredths 20) b.1)) [
      | inl w ↦ rw w (inl (refl, all_weak patterns b h.highest w))
      | inr e ↦ rw e (elim h.picked [
        | inl s ↦ absurd (ground (arith, start_weak b s, e))
        | inr k ↦ inr (record { picked = k; highest = h.highest; enough = e })
      ])
    ]

-- Either no pattern reaches a confidence of 0.2, and matchPatterns returns the unknown pattern with
-- confidence 0; or it returns a pattern of the list with the confidence and evidence that
-- evaluatePattern gives it, the confidence is at least 0.2, no pattern has a higher one, and all
-- patterns before it have a lower one.
pub match_patterns-Chosen :
    {fl : Floats} (ctx : AnalysisContext fl) (patterns : List (FailurePattern fl))
    → IsOrdered fl
    → ((match_patterns fl patterns ctx ≡ no_pattern ctx) × AllWeak ctx patterns)
      ⊎ Chosen ctx patterns (match_patterns fl patterns ctx)
unfolding match_patterns
match_patterns-Chosen ctx patterns ord =
    or_no_match-Chosen ctx ord patterns _
      (foldl-Scanned ctx ord [] patterns (start ctx) (start-Scanned ctx ord))

-- ===== src/Incidents/Evidence.antt =====
-- The evidence and the bounds of the confidence in a report of pkg/incidents/analyzer.go.
use k8s_gpu_mcp_server.Base.{
  ℕ, ◌≡◌, refl, Bool, true, false, List, [], ◌∷◌, Option, none, some, inl, inr, Bool-cases, arith,
  if◌then◌else◌, ◌==◌, ltb,
}
use k8s_gpu_mcp_server.Base.Bytes.{is_empty, contains_bytes, to_lower, equal_fold}
use k8s_gpu_mcp_server.Base.Texts.{codes, str_eq, eq_bytes}
use k8s_gpu_mcp_server.Events.Correlator.Describe.{hexadecimal}
use k8s_gpu_mcp_server.Incidents.Values.{to_int, to_uint32, to_uint64, to_float64, to_text, to_ints}
use k8s_gpu_mcp_server.Incidents.Float.{Floats}
use k8s_gpu_mcp_server.Incidents.Patterns.{Indicator}
use k8s_gpu_mcp_server.Incidents.Context.{AnalysisContext}
use k8s_gpu_mcp_server.Incidents.Indicators.{
  Checked, no_match, is_code, in_codes, with_value, first_such, none_present, some_present,
  throttling_text, check_indicator, check_xid_indicator, check_temp_indicator, check_ecc_indicator,
  check_throttle_indicator, check_k8s_event_indicator, check_mem_util_indicator,
  check_causality_indicator,
}

-- A check that matched says why.
pub record Backed (r : Checked) : Type 0 where
  pub says : r.0 ≡ true → is_empty r.1 ≡ false

-- A match with a text that is not empty.
backed : (c : ℕ) (s : List ℕ) → Backed (true, c ∷ s)
backed c s = record { says = λ e. refl }

with_value-Backed {ℓ} :
    {A : Type ℓ} (o : Option A) (check : A → Checked)
    → ((a : A) → Backed (check a))
    → Backed (with_value o check)
unfolding with_value
with_value-Backed none check h = record { says = λ e. absurd (ground arith) }
with_value-Backed (some a) check h = h a

first_such-Backed {ℓ} :
    {A : Type ℓ} (p : A → Bool) (xs : List A) (found : A → Checked) (rest : Checked)
    → ((a : A) → Backed (found a))
    → Backed rest
    → Backed (first_such p xs found rest)
unfolding first_such
first_such-Backed p [] found rest h k = k
first_such-Backed p (x ∷ xs) found rest h k = elim (Bool-cases (p x)) [
  | inl e ↦ rw e (h x)
  | inr n ↦ rw n (first_such-Backed p xs found rest h k)
]

-- A test between two answers, as the goal that is left after each outcome.
either-Backed : (b : Bool) {r s : Checked} → Backed r → Backed s → Backed (if b then r else s)
either-Backed true h k = h
either-Backed false h k = k

no_match-Backed : Backed no_match
no_match-Backed = record { says = λ e. absurd (ground arith) }

none_present-Backed : (cs : List ℕ) → Backed (none_present cs)
unfolding none_present
none_present-Backed [] = backed _ _
none_present-Backed (c ∷ cs) = no_match-Backed

some_present-Backed : (cs : List ℕ) → Backed (some_present cs)
unfolding some_present
some_present-Backed [] = no_match-Backed
some_present-Backed (c ∷ cs) = backed _ _

throttling_text-Backed :
    (o : Option (List ℕ)) (reason : List ℕ) → is_empty (throttling_text o reason) ≡ false
throttling_text-Backed none reason = refl
throttling_text-Backed (some s) reason = elim (Bool-cases (contains_bytes s (codes "thermal"))) [
  | inl e ↦ rw e refl
  | inr n ↦ rw n refl
]

module _ {fl : Floats} (ind : Indicator fl) (ctx : AnalysisContext fl) where
  check_xid_indicator-Backed : Backed (check_xid_indicator ind ctx)
  unfolding check_xid_indicator
  check_xid_indicator-Backed = elim (Bool-cases (str_eq ind.condition "equals")) [
    | inl e ↦ rw e (
        with_value-Backed (to_int ind.value) _ λ target.
          first_such-Backed (is_code target) ctx.xid_codes _ _ (λ c. backed _ _) (no_match-Backed))
    | inr n ↦ rw n (elim (Bool-cases (str_eq ind.condition "in")) [
      | inl e ↦ rw e (
          with_value-Backed (to_ints ind.value) _ λ targets.
            first_such-Backed (in_codes targets) ctx.xid_codes _ _ (λ c. backed _ _)
              (no_match-Backed))
      | inr n ↦ rw n (elim (Bool-cases (str_eq ind.condition "not_present")) [
        | inl e ↦ rw e (none_present-Backed ctx.xid_codes)
        | inr n ↦ rw n (elim (Bool-cases (str_eq ind.condition "present")) [
          | inl e ↦ rw e (some_present-Backed ctx.xid_codes)
          | inr n ↦ rw n (no_match-Backed)
        ])
      ])
    ])
  ]

  check_temp_indicator-Backed : Backed (check_temp_indicator ind ctx)
  unfolding check_temp_indicator
  check_temp_indicator-Backed = elim (Bool-cases (str_eq ind.condition "greater_than")) [
    | inl e ↦ rw e (
        with_value-Backed (to_uint32 ind.value) _ λ t. elim (Bool-cases (ltb t ctx.temperature)) [
          | inl f ↦ rw f (backed _ _)
          | inr g ↦ rw g no_match-Backed
        ])
    | inr n ↦ rw n (elim (Bool-cases (str_eq ind.condition "less_than")) [
      | inl e ↦ rw e (
          with_value-Backed (to_uint32 ind.value) _ λ t. elim (Bool-cases (ltb ctx.temperature t)) [
            | inl f ↦ rw f (backed _ _)
            | inr g ↦ rw g no_match-Backed
          ])
      | inr n ↦ rw n (no_match-Backed)
    ])
  ]

  check_ecc_indicator-Backed : Backed (check_ecc_indicator ind ctx)
  unfolding check_ecc_indicator
  check_ecc_indicator-Backed = elim (Bool-cases (str_eq ind.condition "greater_than")) [
    | inl e ↦ rw e (
        with_value-Backed (to_uint64 ind.value) _ λ t.
          elim (Bool-cases (ltb t ctx.ecc_uncorrectable)) [
            | inl f ↦ rw f (backed _ _)
            | inr g ↦ rw g no_match-Backed
          ])
    | inr n ↦ rw n (elim (Bool-cases (str_eq ind.condition "equals")) [
      | inl e ↦ rw e (
          with_value-Backed (to_uint64 ind.value) _ λ t.
            elim (Bool-cases (ctx.ecc_uncorrectable == t)) [
              | inl f ↦ rw f (backed _ _)
              | inr g ↦ rw g no_match-Backed
            ])
      | inr n ↦ rw n (no_match-Backed)
    ])
  ]

  check_throttle_indicator-Backed : Backed (check_throttle_indicator ind ctx)
  unfolding check_throttle_indicator
  check_throttle_indicator-Backed = elim (Bool-cases (str_eq ind.condition "present")) [
    | inl e ↦ rw e (elim (Bool-cases (ctx.throttle_reasons == 0)) [
      | inl f ↦ rw f no_match-Backed
      | inr g ↦ rw g (record {
        says = λ h. throttling_text-Backed (to_text ind.value) (hexadecimal ctx.throttle_reasons);
      })
    ])
    | inr n ↦ rw n (elim (Bool-cases (str_eq ind.condition "not_present")) [
      | inl e ↦ rw e (elim (Bool-cases (ctx.throttle_reasons == 0)) [
        | inl f ↦ rw f (backed _ _)
        | inr g ↦ rw g no_match-Backed
      ])
      | inr n ↦ rw n (no_match-Backed)
    ])
  ]

  check_k8s_event_indicator-Backed : Backed (check_k8s_event_indicator ind ctx)
  unfolding check_k8s_event_indicator
  check_k8s_event_indicator-Backed = with_value-Backed (to_text ind.value) _ λ t.
      elim (Bool-cases (str_eq ind.condition "contains")) [
        | inl e ↦ rw e (
            first_such-Backed (λ s. contains_bytes (to_lower s) (to_lower t)) ctx.k8s_reasons _ _
              (λ c. backed _ _)
              (first_such-Backed (λ s. contains_bytes (to_lower s) (to_lower t)) ctx.k8s_messages _
                _ (λ c. backed _ _) (no_match-Backed)))
        | inr n ↦ rw n (elim (Bool-cases (str_eq ind.condition "equals")) [
          | inl e ↦ rw e (
              first_such-Backed (λ s. equal_fold s t) ctx.k8s_reasons _ _ (λ c. backed _ _)
                (no_match-Backed))
          | inr n ↦ rw n (no_match-Backed)
        ])
      ]

  check_mem_util_indicator-Backed : Backed (check_mem_util_indicator ind ctx)
  unfolding check_mem_util_indicator
  check_mem_util_indicator-Backed = elim (Bool-cases (str_eq ind.condition "greater_than")) [
    | inl e ↦ rw e (
        with_value-Backed (to_float64 ind.value) _ λ t.
          elim (Bool-cases (fl.gt ctx.mem_util_percent t)) [
            | inl f ↦ rw f (backed _ _)
            | inr g ↦ rw g no_match-Backed
          ])
    | inr n ↦ rw n (elim (Bool-cases (str_eq ind.condition "less_than")) [
      | inl e ↦ rw e (
          with_value-Backed (to_float64 ind.value) _ λ t.
            elim (Bool-cases (fl.gt t ctx.mem_util_percent)) [
              | inl f ↦ rw f (backed _ _)
              | inr g ↦ rw g no_match-Backed
            ])
      | inr n ↦ rw n (no_match-Backed)
    ])
  ]

  check_causality_indicator-Backed : Backed (check_causality_indicator ind ctx)
  unfolding check_causality_indicator
  check_causality_indicator-Backed = elim (Bool-cases (str_eq ind.condition "equals")) [
    | inl e ↦ rw e (
        with_value-Backed (to_text ind.value) _ λ t. elim (Bool-cases (eq_bytes ctx.causality t)) [
          | inl f ↦ rw f (backed _ _)
          | inr g ↦ rw g no_match-Backed
        ])
    | inr n ↦ rw n (elim (Bool-cases (str_eq ind.condition "contains")) [
      | inl e ↦ rw e (
          with_value-Backed (to_text ind.value) _ λ t.
            elim (Bool-cases (contains_bytes ctx.causality t)) [
              | inl f ↦ rw f (backed _ _)
              | inr g ↦ rw g no_match-Backed
            ])
      | inr n ↦ rw n (no_match-Backed)
    ])
  ]

  pub check_indicator-Backed : Backed (check_indicator ind ctx)
  unfolding check_indicator
  check_indicator-Backed = elim (Bool-cases (str_eq ind.indicator_type "xid")) [
    | inl e ↦ rw e check_xid_indicator-Backed
    | inr n ↦ rw n (elim (Bool-cases (str_eq ind.indicator_type "temp")) [
      | inl e ↦ rw e check_temp_indicator-Backed
      | inr n ↦ rw n (elim (Bool-cases (str_eq ind.indicator_type "ecc")) [
        | inl e ↦ rw e check_ecc_indicator-Backed
        | inr n ↦ rw n (elim (Bool-cases (str_eq ind.indicator_type "throttle")) [
          | inl e ↦ rw e check_throttle_indicator-Backed
          | inr n ↦ rw n (elim (Bool-cases (str_eq ind.indicator_type "k8s_event")) [
            | inl e ↦ rw e check_k8s_event_indicator-Backed
            | inr n ↦ rw n (elim (Bool-cases (str_eq ind.indicator_type "mem_util")) [
              | inl e ↦ rw e check_mem_util_indicator-Backed
              | inr n ↦ rw n (elim (Bool-cases (str_eq ind.indicator_type "causality")) [
                | inl e ↦ rw e check_causality_indicator-Backed
                | inr n ↦ rw n (no_match-Backed)
              ])
            ])
          ])
        ])
      ])
    ])
  ]

-- ===== src/Events/Correlator/Sequence.antt =====
-- What `hasSequence` and `contains` of pkg/events/correlator.go find.
use mathlib.Core.Path.{subst}
use k8s_gpu_mcp_server.Base.{
  ◌≡◌, ◌≢◌, ◌↔◌, inl, inr, refl, sym, ◌∙◌, true, false, List, [], ◌∷◌, String, arith, Bool-cases,
}
use k8s_gpu_mcp_server.Base.Texts.{str_eq, eq_iff, eq_refl}
use k8s_gpu_mcp_server.Events.Correlator.Causality.{sequence_from, has_sequence, contains}

-- A text stands in a list.
pub data In : String → List String → Type 0 where
  here : {a : String} {rest : List String} → In a (a ∷ rest)
  later : {a t : String} {rest : List String} → In a rest → In a (t ∷ rest)

-- A place with `a` comes before a place with `b`.
pub data Before : String → String → List String → Type 0 where
  first : {a b : String} {rest : List String} → In b rest → Before a b (a ∷ rest)
  after : {a b t : String} {rest : List String} → Before a b rest → Before a b (t ∷ rest)

str_eq_sound : (a b : String) → str_eq a b ≡ true → a ≡ b
str_eq_sound a b e = (eq_iff a b).0 e

contains-In : (types : List String) (b : String) → contains types b ≡ true → In b types
unfolding contains
contains-In [] b e = ground arith
contains-In (t ∷ types) b e = elim (Bool-cases (str_eq t b)) [
  | inl p ↦ subst (λ x. In b (x ∷ types)) (sym (str_eq_sound t b p)) here
  | inr p ↦ later (contains-In types b (ground (arith, p, e)))
]

pub In-contains : (types : List String) (b : String) → In b types → contains types b ≡ true
unfolding contains
In-contains [] b i = elim i [ ]
In-contains (t ∷ types) b here = ground (arith, eq_refl t)
In-contains (t ∷ types) b (later i) = ground (arith, In-contains types b i)

-- `contains` decides membership.
pub contains_iff : (types : List String) (b : String) → (contains types b ≡ true) ↔ In b types
contains_iff types b = (contains-In types b, In-contains types b)

-- Once `a` has been found, the loop looks for `b`.
sequence_from-found :
    (types : List String) (a b : String) → sequence_from true types a b ≡ contains types b
unfolding sequence_from contains
sequence_from-found [] a b = refl
sequence_from-found (t ∷ types) a b = ground (arith, sequence_from-found types a b)

pub Before-In : (types : List String) (a b : String) → Before a b types → In b types
Before-In [] a b i = elim i [ ]
Before-In (t ∷ types) a b (first i) = later i
Before-In (t ∷ types) a b (after i) = later (Before-In types a b i)

sequence_from-Before :
    (types : List String) (a b : String)
    → a ≢ b
    → sequence_from false types a b ≡ true
    → Before a b types
unfolding sequence_from
sequence_from-Before [] a b n e = ground arith
sequence_from-Before (t ∷ types) a b n e = elim (Bool-cases (str_eq t a)) [
  | inl p ↦ elim (Bool-cases (str_eq t b)) [
    | inl q ↦ absurd (n (sym (str_eq_sound t a p) ∙ str_eq_sound t b q))
    | inr q ↦
        subst (λ x. Before a b (x ∷ types)) (sym (str_eq_sound t a p))
          (first (contains-In types b (ground (arith, p, q, e, sequence_from-found types a b))))
  ]
  | inr p ↦ after (sequence_from-Before types a b n (ground (arith, p, e)))
]

Before-sequence_from :
    (types : List String) (a b : String) → Before a b types → sequence_from false types a b ≡ true
unfolding sequence_from
Before-sequence_from [] a b i = elim i [ ]
Before-sequence_from (t ∷ types) a b (first i) =
    ground (arith, eq_refl t, sequence_from-found types t b, In-contains types b i)
Before-sequence_from (t ∷ types) a b (after i) = ground (
  arith,
  sequence_from-found types a b,
  In-contains types b (Before-In types a b i),
  Before-sequence_from types a b i,
)

-- For two different types, `hasSequence` holds exactly when an `a` comes before a `b`.
pub has_sequence_iff :
    (types : List String) (a b : String)
    → a ≢ b
    → (has_sequence types a b ≡ true) ↔ Before a b types
unfolding has_sequence
has_sequence_iff types a b n = (sequence_from-Before types a b n, Before-sequence_from types a b)

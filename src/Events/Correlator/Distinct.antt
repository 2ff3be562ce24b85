-- ===== src/Events/Correlator/Distinct.antt =====
-- What `deduplicateTimeline` of pkg/events/correlator.go keeps.
use k8s_gpu_mcp_server.Base.{
  ℕ, ◌≡◌, inl, inr, refl, ap, Bool, true, List, [], ◌∷◌, arith, Bool-cases, any, if◌then◌else◌,
  Option, none, some,
}
use k8s_gpu_mcp_server.Base.Texts.{eq_bytes, eq_bytes_sound, eq_bytes_refl}
use k8s_gpu_mcp_server.Events.Correlator.Types.{TimelineEntry}
use k8s_gpu_mcp_server.Events.Correlator.Timeline.{key_of, dedup, deduplicate_timeline}

-- Whether a key is one of a list.
abbrev pub has_key : List ℕ → List (List ℕ) → Bool
has_key key keys = any (eq_bytes key) keys

-- The first entry with a key.
abbrev pub find_key : List ℕ → List TimelineEntry → Option TimelineEntry
find_key key [] = none
find_key key (e ∷ es) = if eq_bytes key (key_of e) then some e else find_key key es

-- No key occurs twice.
abbrev pub DistinctKeys : List TimelineEntry → Type 0
DistinctKeys [] = Unit {0}
DistinctKeys (e ∷ es) = (find_key (key_of e) es ≡ none) × DistinctKeys es

-- The second list is the first with some entries left out.
pub data Shortened : List TimelineEntry → List TimelineEntry → Type 0 where
  finished : Shortened [] []
  kept :
      {e : TimelineEntry} {es out : List TimelineEntry}
      → Shortened es out
      → Shortened (e ∷ es) (e ∷ out)
  skipped :
      {e : TimelineEntry} {es out : List TimelineEntry} → Shortened es out → Shortened (e ∷ es) out

has_key-eq :
    (a b : List ℕ) (keys : List (List ℕ)) → eq_bytes a b ≡ true → has_key a keys ≡ has_key b keys
has_key-eq a b keys e = ap (λ k. has_key k keys) (eq_bytes_sound a b e)

find_key-dedup :
    (key : List ℕ) (seen : List (List ℕ)) (es : List TimelineEntry)
    → find_key key (dedup seen es) ≡ (if has_key key seen then none else find_key key es)
unfolding dedup
find_key-dedup key seen [] = ground arith
find_key-dedup key seen (e ∷ es) = elim (Bool-cases (has_key (key_of e) seen)) [
  | inl p ↦ ground (arith, p, find_key-dedup key seen es, has_key-eq key (key_of e) seen)
  | inr p ↦
      ground (arith, p, find_key-dedup key (key_of e ∷ seen) es, has_key-eq key (key_of e) seen)
]

dedup-DistinctKeys : (seen : List (List ℕ)) (es : List TimelineEntry) → DistinctKeys (dedup seen es)
unfolding dedup
dedup-DistinctKeys seen [] = ground arith
dedup-DistinctKeys seen (e ∷ es) = elim (Bool-cases (has_key (key_of e) seen)) [
  | inl p ↦ rw p (dedup-DistinctKeys seen es)
  | inr p ↦ rw p (
    ground (arith, find_key-dedup (key_of e) (key_of e ∷ seen) es, eq_bytes_refl (key_of e)),
    dedup-DistinctKeys (key_of e ∷ seen) es,
  )
]

dedup-Shortened : (seen : List (List ℕ)) (es : List TimelineEntry) → Shortened es (dedup seen es)
unfolding dedup
dedup-Shortened seen [] = finished
dedup-Shortened seen (e ∷ es) = elim (Bool-cases (has_key (key_of e) seen)) [
  | inl p ↦ rw p (skipped (dedup-Shortened seen es))
  | inr p ↦ rw p (kept (dedup-Shortened (key_of e ∷ seen) es))
]

-- A list of at most one entry is returned as it is, which the loop would do too.
deduplicate_timeline-eq-dedup : (es : List TimelineEntry) → deduplicate_timeline es ≡ dedup [] es
unfolding deduplicate_timeline dedup
deduplicate_timeline-eq-dedup [] = refl
deduplicate_timeline-eq-dedup (e ∷ []) = refl
deduplicate_timeline-eq-dedup (e ∷ f ∷ es) = ground arith

-- What is left of a timeline.
pub record Deduplicated (entries out : List TimelineEntry) : Type 0 where
  pub in_order : Shortened entries out
  pub no_repeats : DistinctKeys out
  pub firsts : (key : List ℕ) → find_key key out ≡ find_key key entries

-- `deduplicateTimeline` leaves entries out and keeps the order of the others; no type with
-- description is left twice, and each is left in its first entry.
pub deduplicate_timeline-Deduplicated :
    (entries : List TimelineEntry) → Deduplicated entries (deduplicate_timeline entries)
deduplicate_timeline-Deduplicated entries = rw (deduplicate_timeline-eq-dedup entries) (record {
  in_order = dedup-Shortened [] entries;
  no_repeats = dedup-DistinctKeys [] entries;
  firsts = λ key. find_key-dedup key [] entries;
})

-- ===== src/Xid/Lookups.antt =====
-- What the lookups of pkg/xid/codes.go give, and what the correlator makes of an enriched event.
use k8s_gpu_mcp_server.Base.{
  ℕ, ◌≡◌, refl, sym, ap, ◌∙◌, Bool, true, false, ◌&&◌, ◌||◌, List, [], ◌∷◌, ◌++◌, Option, none,
  some, String, ◌==◌, ltb, all, length, arith, Bool-cases, inl, inr,
}
use k8s_gpu_mcp_server.Base.Texts.{codes, str_eq, eq_iff}
use k8s_gpu_mcp_server.Events.Correlator.Types.{XidEvent}
use k8s_gpu_mcp_server.Events.Correlator.Describe.{decimal, describe_event, severity_from_event}
use k8s_gpu_mcp_server.Events.Correlator.Gather.{xid_event}
use k8s_gpu_mcp_server.Xid.Codes.{
  ErrorInfo, error_codes, find_code, lookup_code, lookup_or_unknown, or_unknown, enrich_event,
}

-- Whether a severity is one of the three that the table uses.
abbrev pub known_severity : String → Bool
known_severity s = str_eq s "warning" || str_eq s "critical" || str_eq s "fatal"

-- What is checked of an entry: its key is its code, its severity is known, its description is not
-- empty.
abbrev pub sound : ℕ → ErrorInfo → Bool
sound n info = (n == info.code) && known_severity info.severity && ltb 0 (length info.description)

all-sound : all (λ entry. sound entry.0 entry.1) error_codes ≡ true
all-sound = refl

find_code-sound :
    (n : ℕ) (table : List (ℕ × ErrorInfo)) (info : ErrorInfo)
    → all (λ entry. sound entry.0 entry.1) table ≡ true
    → find_code n table ≡ some info
    → sound n info ≡ true
find_code-sound n [] info a e = ground arith
find_code-sound n ((k, x) ∷ table) info a e = elim (Bool-cases (n == k)) [
  | inl p ↦
      let same : x ≡ info = ground (arith, p, e) in
      let here : sound k x ≡ true = ground (arith, a) in
      let key : k ≡ n = ground (arith, p) in
      ap (sound n) (sym same) ∙ ap (λ m. sound m x) (sym key) ∙ here
  | inr p ↦ find_code-sound n table info (ground (arith, a)) (ground (arith, p, e))
]

or_unknown-sound :
    (n : ℕ) (found : Option ErrorInfo)
    → ((info : ErrorInfo) → found ≡ some info → sound n info ≡ true)
    → sound n (or_unknown n found) ≡ true
or_unknown-sound n none h = ground arith
or_unknown-sound n (some info) h = h info refl

pub lookup_or_unknown-sound : (n : ℕ) → sound n (lookup_or_unknown n) ≡ true
unfolding lookup_or_unknown lookup_code
lookup_or_unknown-sound n =
    or_unknown-sound n (find_code n error_codes)
      (λ info p. find_code-sound n error_codes info all-sound p)

-- The severities of the table are not empty.
known_nonempty : (s : String) → known_severity s ≡ true → str_eq s "" ≡ false
known_nonempty s h = elim (Bool-cases (str_eq s "")) [
  | inl p ↦
      let empty : s ≡ "" = (eq_iff s "").0 p in
      absurd (ground (arith, sym h ∙ ap known_severity empty))
  | inr p ↦ p
]

-- What is found for a code has that code and one of the three severities. An event that was
-- enriched has in the correlator the severity of its code, and is described by its code and the
-- description of its code, never by its device.
pub enrich_event_lem :
    (e : XidEvent)
    → ((lookup_or_unknown e.xid_code).code ≡ e.xid_code)
      × (known_severity (lookup_or_unknown e.xid_code).severity ≡ true)
      × (severity_from_event (xid_event (enrich_event e)) ≡ (lookup_or_unknown e.xid_code).severity)
      × (describe_event (xid_event (enrich_event e))
          ≡ codes "XID "
            ++ decimal e.xid_code
            ++ codes ": "
            ++ (lookup_or_unknown e.xid_code).description)
unfolding enrich_event severity_from_event describe_event
enrich_event_lem e =
    let info = lookup_or_unknown e.xid_code in
    let s = lookup_or_unknown-sound e.xid_code in
    let known : known_severity info.severity ≡ true = ground (arith, s) in
    let described : ltb 0 (length info.description) ≡ true = ground (arith, s) in
    (ground (arith, s), known, rw (known_nonempty info.severity known) refl, rw described refl)

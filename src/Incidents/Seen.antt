-- ===== src/Incidents/Seen.antt =====
-- `extractXIDCodes` of pkg/incidents/analyzer.go finds every code once.
use k8s_gpu_mcp_server.Base.{
  ℕ, ◌+◌, ◌≤◌, ◌≡◌, refl, Bool, false, ◌||◌, List, [], ◌∷◌, ◌++◌, Option, none, some, arith, foldl,
  any, filter, length, if◌then◌else◌, ◌==◌, ltb,
}
use k8s_gpu_mcp_server.Events.Correlator.Types.{Event, XidEvent, CorrelatedIncident}
use k8s_gpu_mcp_server.Incidents.Context.{as_xid, add_code, events_of, extract_xid_codes}

abbrev pub count_code : ℕ → List ℕ → ℕ
count_code n codes = length (filter (λ c. c == n) codes)

-- The event is an XID error with the code.
abbrev pub mentions : ℕ → Option XidEvent → Bool
mentions n none = false
mentions n (some x) = x.xid_code == n

any-count_code : (n : ℕ) (codes : List ℕ) → any (λ c. c == n) codes ≡ ltb 0 (count_code n codes)
any-count_code n [] = refl
any-count_code n (c ∷ codes) = ground (arith, any-count_code n codes)

count_code-append :
    (n c : ℕ) (codes : List ℕ)
    → count_code n (codes ++ (c ∷ [])) ≡ count_code n codes + (if c == n then 1 else 0)
count_code-append n c [] = ground arith
count_code-append n c (d ∷ codes) = ground (arith, count_code-append n c codes)

abbrev indicator_of : Bool → ℕ
indicator_of b = if b then 1 else 0

add_code-count :
    (n : ℕ) (seen : List ℕ) (o : Option XidEvent)
    → count_code n seen ≤ 1
    → count_code n (add_code seen o) ≡ indicator_of (ltb 0 (count_code n seen) || mentions n o)
add_code-count n seen none h = ground arith
add_code-count n seen (some x) h = ground (
  arith,
  any-count_code n seen,
  any-count_code x.xid_code seen,
  count_code-append n x.xid_code seen,
)

foldl-count :
    (n : ℕ) (seen : List ℕ) (es : List Event)
    → count_code n seen ≤ 1
    → count_code n (foldl (λ s e. add_code s (as_xid e)) seen es)
      ≡ indicator_of (ltb 0 (count_code n seen) || any (λ e. mentions n (as_xid e)) es)
foldl-count n seen [] h = ground arith
foldl-count n seen (e ∷ es) h =
    ground (arith, add_code-count n seen (as_xid e) h, foldl-count n (add_code seen (as_xid e)) es)

-- The codes of an incident hold a code once if the trigger or a related event is an XID error with
-- that code, and not at all otherwise.
pub extract_xid_codes-count :
    (n : ℕ) (incident : CorrelatedIncident)
    → count_code n (extract_xid_codes incident)
      ≡ (if any (λ e. mentions n (as_xid e)) (events_of incident) then 1 else 0)
unfolding extract_xid_codes
extract_xid_codes-count n incident = foldl-count n [] (events_of incident) (omega arith)

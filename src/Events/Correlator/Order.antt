-- ===== src/Events/Correlator/Order.antt =====
-- The timeline of pkg/events/correlator.go is in the order of time and names every event.
use mathlib.Core.List.{Memᴰ}
use k8s_gpu_mcp_server.Base.{ℕ, ◌≤◌, ◌≡◌, ◌≢◌, sym, ap, ◌∙◌, true, List, [], ◌∷◌, none, arith, All}
use k8s_gpu_mcp_server.Base.Texts.{eq_bytes, eq_bytes_refl}
use k8s_gpu_mcp_server.Blackbox.Ring.Queries.{InOrder}
use k8s_gpu_mcp_server.Events.Correlator.Types.{TimelineEntry, CorrelatedIncident}
use k8s_gpu_mcp_server.Events.Correlator.Timeline.{
  key_of, deduplicate_timeline, all_entries, build_timeline,
}
use k8s_gpu_mcp_server.Events.Correlator.Distinct.{
  DistinctKeys, Shortened, finished, kept, skipped, deduplicate_timeline-Deduplicated, find_key,
}

abbrev pub when : TimelineEntry → ℕ
when e = e.timestamp

-- What `sort.Slice` with the comparison of the source promises.
pub record SortsByTime (sort_slice : List TimelineEntry → List TimelineEntry) : Type 0 where
  pub in_order : (es : List TimelineEntry) → InOrder when (sort_slice es)
  pub adds_none : (es : List TimelineEntry) (e : TimelineEntry) → Memᴰ e (sort_slice es) → Memᴰ e es
  pub keeps : (es : List TimelineEntry) (e : TimelineEntry) → Memᴰ e es → Memᴰ e (sort_slice es)

All-Shortened :
    (t : ℕ) (es out : List TimelineEntry)
    → Shortened es out
    → All (λ e. t ≤ when e) es
    → All (λ e. t ≤ when e) out
All-Shortened t [] out finished a = a
All-Shortened t (e ∷ es) out (kept {out = rest} s) a = (a.0, All-Shortened t es rest s a.1)
All-Shortened t (e ∷ es) out (skipped s) a = All-Shortened t es out s a.1

InOrder-Shortened :
    (es out : List TimelineEntry) → Shortened es out → InOrder when es → InOrder when out
InOrder-Shortened [] out finished o = o
InOrder-Shortened (e ∷ es) out (kept {out = rest} s) o =
    (All-Shortened (when e) es rest s o.0, InOrder-Shortened es rest s o.1)
InOrder-Shortened (e ∷ es) out (skipped s) o = InOrder-Shortened es out s o.1

find_key-Mem :
    (e : TimelineEntry) (es : List TimelineEntry) → Memᴰ e es → find_key (key_of e) es ≢ none
find_key-Mem e [] m = elim m [ ]
find_key-Mem e (x ∷ es) (Memᴰ.head p) =
    let same : eq_bytes (key_of e) (key_of x) ≡ true =
      ap (λ y. eq_bytes (key_of e) (key_of y)) (sym p) ∙ eq_bytes_refl (key_of e) in
    ground (arith, same)
find_key-Mem e (x ∷ es) (Memᴰ.tail m) = ground (arith, find_key-Mem e es m)

Mem-Shortened :
    (e : TimelineEntry) (es out : List TimelineEntry) → Shortened es out → Memᴰ e out → Memᴰ e es
Mem-Shortened e [] out finished m = m
Mem-Shortened e (x ∷ es) out (kept {out = rest} s) (Memᴰ.head p) = Memᴰ.head p
Mem-Shortened e (x ∷ es) out (kept {out = rest} s) (Memᴰ.tail m) =
    Memᴰ.tail (Mem-Shortened e es rest s m)
Mem-Shortened e (x ∷ es) out (skipped s) m = Memᴰ.tail (Mem-Shortened e es out s m)

-- What a timeline is for a list of entries: in the order of time, without an entry that is not one
-- of them, without repeats of a type with description, and with one for each type with description.
pub record TimelineOf (entries out : List TimelineEntry) : Type 0 where
  pub in_order : InOrder when out
  pub no_repeats : DistinctKeys out
  pub from_entries : (e : TimelineEntry) → Memᴰ e out → Memᴰ e entries
  pub named : (e : TimelineEntry) → Memᴰ e entries → find_key (key_of e) out ≢ none

-- If the sort orders entries by time, adding and losing none, the timeline of an incident is in the
-- order of time, has only entries of its events and snapshots, and has exactly one entry for each
-- type with description among them.
pub build_timeline-TimelineOf :
    (sort_slice : List TimelineEntry → List TimelineEntry) (incident : CorrelatedIncident)
    → SortsByTime sort_slice
    → TimelineOf (all_entries incident) (build_timeline sort_slice incident)
unfolding build_timeline
build_timeline-TimelineOf sort_slice incident sorts =
    let entries = all_entries incident in
    let sorted = sort_slice entries in
    let out = deduplicate_timeline sorted in
    let d = deduplicate_timeline-Deduplicated sorted in
    record {
      in_order = InOrder-Shortened sorted out d.in_order (sorts.in_order entries);
      no_repeats = d.no_repeats;
      from_entries = λ e m. sorts.adds_none entries e (Mem-Shortened e sorted out d.in_order m);
      named =
          λ e m n. find_key-Mem e sorted (sorts.keeps entries e m) (sym (d.firsts (key_of e)) ∙ n);
    }

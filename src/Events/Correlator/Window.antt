-- ===== src/Events/Correlator/Window.antt =====
-- Which events pkg/events/correlator.go relates to a trigger.
use k8s_gpu_mcp_server.Base.{
  ℕ, zero, suc, ◌≤◌, ◌+◌, ◌-◌, ◌≡◌, refl, sym, ap, ◌&&◌, List, [], ◌∷◌, ◌++◌, Option, none, some,
  leb, map, filter, append_assoc, append-nil, arith, Bool-cases, inl, inr,
}
use k8s_gpu_mcp_server.Base.Int.{pos, max_int}
use k8s_gpu_mcp_server.Blackbox.Ring.{RingBuffer, query}
use k8s_gpu_mcp_server.Blackbox.Ring.Bounds.{IsValid}
use k8s_gpu_mcp_server.Blackbox.Ring.Contents.{contents}
use k8s_gpu_mcp_server.Blackbox.Ring.Queries.{InOrder, query-eq-filter}
use k8s_gpu_mcp_server.Events.Correlator.Types.{
  XidEvent, K8sEvent, GpuSnapshot, Event, TimelineEntry, AffectedPod, CorrelatedIncident, ask,
  Context,
}
use k8s_gpu_mcp_server.Events.Correlator.Gather.{
  Correlator, clock_skew_tolerance, xid_event, k8s_event, zero_xid, zero_k8s, unless_done, gather,
  gather_xid_events, gather_k8s_events, gather_gpu_snapshots, completed, correlate, start_of,
  end_of,
}

module _ {A : Type 0} (time_fn : A → ℕ) where
  -- The items of a list within a window.
  abbrev pub within : ℕ → ℕ → List A → List A
  within window_start window_end es =
      filter (λ e. leb window_start (time_fn e) && leb (time_fn e) window_end) es

  filter-within :
      (window_start window_end : ℕ) (es : List A)
      → filter (λ e. leb (time_fn e) window_end) (filter (λ e. leb window_start (time_fn e)) es)
        ≡ within window_start window_end es
  filter-within window_start window_end [] = refl
  filter-within window_start window_end (e ∷ es) =
      ground (arith, filter-within window_start window_end es)

module _ {A : Type 0} (time_fn : A → ℕ) (event_of : A → Event) where
  -- A loop whose context is never done adds the events that are not after the window.
  gather-filter :
      (window_end : ℕ) (es : List A) (out : List Event)
      → gather time_fn event_of window_end none es out
        ≡ (none, out ++ map event_of (filter (λ e. leb (time_fn e) window_end) es))
  unfolding gather
  gather-filter window_end [] out = ap (λ o. (none, o)) (sym (append-nil out))
  gather-filter window_end (e ∷ es) out = ground (
    arith,
    gather-filter window_end es out,
    gather-filter window_end es (out ++ event_of e ∷ []),
    append_assoc out (event_of e ∷ []) (map event_of (filter (λ x. leb (time_fn x) window_end) es)),
  )

  -- What a gathering loop adds to the events, from the ring buffer of its watcher.
  pub gather-query :
      (z : A) (window_start window_end : ℕ) (ring : RingBuffer A) (out : List Event)
      → IsValid ring
      → InOrder time_fn (contents ring)
      → gather time_fn event_of window_end none (query z window_start time_fn ring) out
        ≡ (none, out ++ map event_of (within time_fn window_start window_end (contents ring)))
  gather-query z window_start window_end ring out v o =
      rw
        (
          query-eq-filter z window_start time_fn ring v o,
          gather-filter window_end (filter (λ e. leb window_start (time_fn e)) (contents ring)) out,
          filter-within time_fn window_start window_end (contents ring),
        )
        refl

-- The two buffers that a correlator reads, and the order of what they hold.
pub record Watching (c : Correlator) (xids : RingBuffer XidEvent) (k8s : RingBuffer K8sEvent)
    : Type 0 where
  pub reads_xids : c.xid_watcher ≡ some xids
  pub reads_k8s : c.k8s_watcher ≡ some k8s
  pub xids_valid : IsValid xids
  pub k8s_valid : IsValid k8s
  pub xids_in_order : InOrder (λ e. e.timestamp) (contents xids)
  pub k8s_in_order : InOrder (λ e. e.timestamp) (contents k8s)

-- The events that belong to a trigger at time `t`: those of both watchers within a margin.
abbrev pub events_around : ℕ → ℕ → RingBuffer XidEvent → RingBuffer K8sEvent → List Event
events_around margin t xids k8s =
    map xid_event (within (λ e. e.timestamp) (t - margin) (t + margin) (contents xids))
    ++ map k8s_event (within (λ e. e.timestamp) (t - margin) (t + margin) (contents k8s))

gather_gpu_snapshots-related :
    (r : Option (List (List GpuSnapshot))) (window_start window_end : ℕ) (ctx : Context)
    (incident : CorrelatedIncident)
    → ((gather_gpu_snapshots r window_start window_end ctx incident).1).related_events
      ≡ incident.related_events
unfolding gather_gpu_snapshots
gather_gpu_snapshots-related none window_start window_end ctx incident = refl
gather_gpu_snapshots-related (some ts) window_start window_end ctx incident = refl

-- The bounds of a window that does not wrap.
start_of-sub :
    (w t : ℕ)
    → w + clock_skew_tolerance ≤ max_int
    → start_of (pos w) t ≡ t - (w + clock_skew_tolerance)
start_of-sub zero t le = refl
start_of-sub (suc n) t le = ground arith

end_of-add :
    (w t : ℕ)
    → w + clock_skew_tolerance ≤ max_int
    → end_of (pos w) t ≡ t + (w + clock_skew_tolerance)
end_of-add w t le = ground arith

module _ (sort_entries : List TimelineEntry → List TimelineEntry)
    (sort_pods : List AffectedPod → List AffectedPod) where
  -- The snapshots and the last steps leave the related events alone.
  last_steps :
      (r : Option (List (List GpuSnapshot))) (window_start window_end : ℕ)
      (incident : CorrelatedIncident)
      → (unless_done sort_entries sort_pods
          (gather_gpu_snapshots r window_start window_end none incident).0
          (gather_gpu_snapshots r window_start window_end none incident).1
          (λ ctx.
            completed sort_entries sort_pods
              (gather_gpu_snapshots r window_start window_end none incident).1)).related_events
        ≡ incident.related_events
  unfolding completed
  last_steps r window_start window_end incident =
      elim (Bool-cases (ask (gather_gpu_snapshots r window_start window_end none incident).0).0) [
        | inl p ↦ rw p (gather_gpu_snapshots-related r window_start window_end none incident)
        | inr p ↦ rw p (gather_gpu_snapshots-related r window_start window_end none incident)
      ]

  -- With a context that is never done, and a window that, with the tolerance of clocks added, is
  -- still in the range of a time.Duration, the related events of an incident are exactly those of the
  -- two watchers whose distance from the trigger is at most the window with the tolerance, XID errors
  -- first.
  pub correlate-events_around :
      (c : Correlator) (xids : RingBuffer XidEvent) (k8s : RingBuffer K8sEvent) (trigger : Event)
      (w : ℕ)
      → Watching c xids k8s
      → c.window_size ≡ pos w
      → w + clock_skew_tolerance ≤ max_int
      → (correlate sort_entries sort_pods c none trigger).related_events
        ≡ events_around (w + clock_skew_tolerance) trigger.timestamp xids k8s
  unfolding correlate gather_xid_events gather_k8s_events
  correlate-events_around c xids k8s trigger w watching e le = rw (watching.reads_xids) (
      rw (watching.reads_k8s) (
        rw
          (
            gather-query (λ e. e.timestamp) xid_event zero_xid _ _ xids [] watching.xids_valid
                watching.xids_in_order,
            gather-query (λ e. e.timestamp) k8s_event zero_k8s _ _ k8s _ watching.k8s_valid
                watching.k8s_in_order,
          )
          (rw (e, start_of-sub w trigger.timestamp le, end_of-add w trigger.timestamp le)
            (last_steps c.recorder _ _ _))))

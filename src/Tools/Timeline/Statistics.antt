-- ===== src/Tools/Timeline/Statistics.antt =====
-- The statistics of pkg/tools/get_gpu_timeline.go are the extremes of the snapshots.
use k8s_gpu_mcp_server.Base.{
  ℕ, ◌≤◌, ◌≡◌, ◌⊎◌, refl, ◌∙◌, true, some, List, [], ◌∷◌, inl, inr, arith, All, any, foldl, ◌==◌,
}
use k8s_gpu_mcp_server.Blackbox.Snapshot.{GpuSnapshot}
use k8s_gpu_mcp_server.Tools.Timeline.{
  Averages, StatValues, TimelineStats, start, include, include_all, compute_statistics,
}

-- Bounds on a metric of snapshots that are reached.
pub record Spans (least greatest : ℕ) (read : GpuSnapshot → ℕ) (snaps : List GpuSnapshot)
    : Type 0 where
  pub lower : All (λ s. least ≤ read s) snaps
  pub upper : All (λ s. read s ≤ greatest) snaps
  pub least_seen : any (λ s. read s == least) snaps ≡ true
  pub greatest_seen : any (λ s. read s == greatest) snaps ≡ true

module _ (av : Averages) (read : GpuSnapshot → ℕ) where
  abbrev gather : StatValues av → List GpuSnapshot → StatValues av
  gather v snaps = foldl (λ w s. include av w (read s)) v snaps

  -- What the loop makes of the extremes so far.
  record Widened (v out : StatValues av) (snaps : List GpuSnapshot) : Type 0 where
    less : out.min_value ≤ v.min_value
    more : v.max_value ≤ out.max_value
    lower : All (λ s. out.min_value ≤ read s) snaps
    upper : All (λ s. read s ≤ out.max_value) snaps
    least_seen : (out.min_value ≡ v.min_value) ⊎ (any (λ s. read s == out.min_value) snaps ≡ true)
    greatest_seen :
        (out.max_value ≡ v.max_value) ⊎ (any (λ s. read s == out.max_value) snaps ≡ true)

  seen_or_start :
      (n m out : ℕ) (snaps : List GpuSnapshot) (s : GpuSnapshot)
      → (n ≡ m) ⊎ (n ≡ read s)
      → (out ≡ n) ⊎ (any (λ t. read t == out) snaps ≡ true)
      → (out ≡ m) ⊎ (any (λ t. read t == out) (s ∷ snaps) ≡ true)
  seen_or_start n m out snaps s h (inr a) = inr (ground (arith, a))
  seen_or_start n m out snaps s (inl e) (inl o) = inl (o ∙ e)
  seen_or_start n m out snaps s (inr e) (inl o) = inr (ground (arith, e, o))

  include-least :
      (v : StatValues av) (n : ℕ)
      → ((include av v n).min_value ≡ v.min_value) ⊎ ((include av v n).min_value ≡ n)
  unfolding include
  include-least v n = ground arith

  include-greatest :
      (v : StatValues av) (n : ℕ)
      → ((include av v n).max_value ≡ v.max_value) ⊎ ((include av v n).max_value ≡ n)
  unfolding include
  include-greatest v n = ground arith

  include-bounds :
      (v : StatValues av) (n : ℕ)
      → let w = include av v n in
        (w.min_value ≤ v.min_value)
        × (w.min_value ≤ n)
        × (v.max_value ≤ w.max_value)
        × (n ≤ w.max_value)
  unfolding include
  include-bounds v n = ground arith

  gather-Widened : (v : StatValues av) (snaps : List GpuSnapshot) → Widened v (gather v snaps) snaps
  gather-Widened v [] = record {
    less = omega arith;
    more = omega arith;
    lower = tt;
    upper = tt;
    least_seen = inl refl;
    greatest_seen = inl refl;
  }
  gather-Widened v (s ∷ snaps) =
      let w = include av v (read s) in
      let h = gather-Widened w snaps in
      let (a, b, c, d) = include-bounds v (read s) in
      record {
        less = omega (arith, h.less);
        more = omega (arith, h.more);
        lower = (omega (arith, h.less), h.lower);
        upper = (omega (arith, h.more), h.upper);
        least_seen = seen_or_start w.min_value _ _ snaps s (include-least v (read s)) h.least_seen;
        greatest_seen =
            seen_or_start w.max_value _ _ snaps s (include-greatest v (read s)) h.greatest_seen;
      }

  first_seen :
      (out : ℕ) (s : GpuSnapshot) (snaps : List GpuSnapshot)
      → (out ≡ read s) ⊎ (any (λ t. read t == out) (s ∷ snaps) ≡ true)
      → any (λ t. read t == out) (s ∷ snaps) ≡ true
  first_seen out s snaps (inl e) = ground (arith, e)
  first_seen out s snaps (inr a) = a

  gather-Spans :
      (s : GpuSnapshot) (snaps : List GpuSnapshot)
      → let out = gather (start av (read s)) (s ∷ snaps) in
        Spans out.min_value out.max_value read (s ∷ snaps)
  unfolding start
  gather-Spans s snaps =
      let h = gather-Widened (start av (read s)) (s ∷ snaps) in
      record {
        lower = h.lower;
        upper = h.upper;
        least_seen = first_seen _ s snaps h.least_seen;
        greatest_seen = first_seen _ s snaps h.greatest_seen;
      }

module _ (av : Averages) where
  -- The loop over all metrics is one loop for each.
  record EachMetric (t out : TimelineStats av) (snaps : List GpuSnapshot) : Type 0 where
    temperature : out.temperature ≡ gather av (λ s. s.temperature) t.temperature snaps
    power_mw : out.power_mw ≡ gather av (λ s. s.power_mw) t.power_mw snaps
    gpu_util : out.gpu_util ≡ gather av (λ s. s.gpu_util) t.gpu_util snaps
    mem_util : out.mem_util ≡ gather av (λ s. s.mem_util) t.mem_util snaps

  foldl-EachMetric :
      (t : TimelineStats av) (snaps : List GpuSnapshot)
      → EachMetric t (foldl (include_all av) t snaps) snaps
  unfolding include_all
  foldl-EachMetric t [] = record {
    temperature = refl;
    power_mw = refl;
    gpu_util = refl;
    mem_util = refl;
  }
  foldl-EachMetric t (s ∷ snaps) = into (foldl-EachMetric (include_all av t s) snaps)
    where
      into :
          {out : TimelineStats av}
          → EachMetric (include_all av t s) out snaps
          → EachMetric t out (s ∷ snaps)
      into h = record {
        temperature = h.temperature;
        power_mw = h.power_mw;
        gpu_util = h.gpu_util;
        mem_util = h.mem_util;
      }

abbrev pub SpansOf : {av : Averages} → StatValues av → (GpuSnapshot → ℕ) → List GpuSnapshot → Type 0
SpansOf v read snaps = Spans v.min_value v.max_value read snaps

-- Every metric's extremes.
pub record Describes {av : Averages} (t : TimelineStats av) (snaps : List GpuSnapshot)
    : Type 0 where
  pub temperatures : SpansOf t.temperature (λ s. s.temperature) snaps
  pub powers : SpansOf t.power_mw (λ s. s.power_mw) snaps
  pub gpu_utils : SpansOf t.gpu_util (λ s. s.gpu_util) snaps
  pub mem_utils : SpansOf t.mem_util (λ s. s.mem_util) snaps

-- For at least one snapshot, computeStatistics gives for the temperature, the power and both
-- utilizations a least and a greatest value: all snapshots lie between them, and each is the value
-- of a snapshot.
pub compute_statistics-Describes :
    (av : Averages) (s : GpuSnapshot) (snaps : List GpuSnapshot)
    → (t : TimelineStats av) × (compute_statistics av (s ∷ snaps) ≡ some t)
      × Describes t (s ∷ snaps)
unfolding compute_statistics
compute_statistics-Describes av s snaps =
    let first : TimelineStats av = record {
      temperature = start av s.temperature;
      power_mw = start av s.power_mw;
      gpu_util = start av s.gpu_util;
      mem_util = start av s.mem_util;
    } in
    let e = foldl-EachMetric av first (s ∷ snaps) in
    (
      _,
      refl,
      record {
        temperatures = rw e.temperature (gather-Spans av (λ x. x.temperature) s snaps);
        powers = rw e.power_mw (gather-Spans av (λ x. x.power_mw) s snaps);
        gpu_utils = rw e.gpu_util (gather-Spans av (λ x. x.gpu_util) s snaps);
        mem_utils = rw e.mem_util (gather-Spans av (λ x. x.mem_util) s snaps);
      },
    )

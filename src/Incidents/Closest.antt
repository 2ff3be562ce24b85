-- ===== src/Incidents/Closest.antt =====
-- The snapshot that a report and an explanation of pkg/incidents show.
use mathlib.Core.List.{Memᴰ}
use k8s_gpu_mcp_server.Base.{
  ℕ, ◌<◌, ◌≤◌, ◌≡◌, refl, List, [], ◌∷◌, some, Bool-cases, inl, inr, arith, foldl, length, All, ltb,
}
use k8s_gpu_mcp_server.Base.Int.{pos, max_int}
use k8s_gpu_mcp_server.Blackbox.Ring.{closer}
use k8s_gpu_mcp_server.Blackbox.Ring.Nearest.{
  InRange, foldl-closer, closer-next, dist, magnitude-sub_time,
}
use k8s_gpu_mcp_server.Events.Correlator.Types.{GpuSnapshot}
use k8s_gpu_mcp_server.Incidents.Context.{closer_snapshot, find_closest_snapshot}

abbrev pub when : GpuSnapshot → ℕ
when s = s.timestamp

module _ (target : ℕ) where
  closer_snapshot-next :
      (b x : GpuSnapshot)
      → dist when target x ≤ max_int
      → closer_snapshot target (b, pos (dist when target b)) x
        ≡ closer when target (b, pos (dist when target b)) x
  unfolding closer_snapshot
  closer_snapshot-next b x h =
      rw (closer-next when target b x h, magnitude-sub_time x.timestamp target h) refl

  -- The scan is that of `FindNearest` in the ring buffer.
  foldl-closer_snapshot :
      (b : GpuSnapshot) (xs : List GpuSnapshot)
      → InRange when target xs
      → foldl (closer_snapshot target) (b, pos (dist when target b)) xs
        ≡ foldl (closer when target) (b, pos (dist when target b)) xs
  foldl-closer_snapshot b [] h = refl
  foldl-closer_snapshot b (x ∷ xs) (h, t) =
      rw (closer_snapshot-next b x h, closer-next when target b x h)
        (elim (Bool-cases (ltb (dist when target x) (dist when target b))) [
          | inl e ↦ rw e (foldl-closer_snapshot x xs t)
          | inr n ↦ rw n (foldl-closer_snapshot b xs t)
        ])

-- If there is a snapshot, and the times of all lie within the range of a time.Duration of the target,
-- findClosestSnapshot returns one of them, and no snapshot is closer to the target.
pub find_closest_snapshot_lem :
    (snapshots : List GpuSnapshot) (target : ℕ)
    → 0 < length snapshots
    → InRange when target snapshots
    → (s : GpuSnapshot) × (find_closest_snapshot snapshots target ≡ some s)
      × Memᴰ s snapshots
      × All (λ y. dist when target s ≤ dist when target y) snapshots
unfolding find_closest_snapshot
find_closest_snapshot_lem [] target p h = absurd (omega arith)
find_closest_snapshot_lem (s ∷ ss) target p (h, t) =
    let n = foldl-closer when target s ss t in
    let e = foldl-closer_snapshot target s ss t in
    (
      (foldl (closer when target) (s, pos (dist when target s)) ss).0,
      rw (magnitude-sub_time s.timestamp target h, e) refl,
      n.found,
      (n.first, n.least),
    )

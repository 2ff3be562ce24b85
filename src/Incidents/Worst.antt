-- ===== src/Incidents/Worst.antt =====
-- What `extractContext` of pkg/incidents/analyzer.go takes from the snapshots of an incident.
use k8s_gpu_mcp_server.Base.{
  ℕ, zero, suc, ◌*◌, ◌/◌, ◌^◌, ◌<◌, ◌≤◌, ◌≡◌, ◌↔◌, ◌⊎◌, refl, true, false, not, List, [], ◌∷◌,
  Bool-cases, inl, inr, arith, foldl, All, any, ltb, ◌==◌, if◌then◌else◌,
}
use k8s_gpu_mcp_server.Events.Correlator.Types.{GpuSnapshot}
use k8s_gpu_mcp_server.Events.Correlator.Describe.{is_throttled}
use k8s_gpu_mcp_server.Incidents.Float.{Floats, IsOrdered, not_above}
use k8s_gpu_mcp_server.Incidents.Context.{
  AnalysisContext, bit_or, add_snapshot, memory_usage_percent,
}

double : (w : ℕ) → 2 ^ suc w ≡ 2 * 2 ^ w
double w = omega arith

bit_or-bound : (w m n : ℕ) → bit_or w m n < 2 ^ w
bit_or-bound zero m n = omega arith
bit_or-bound (suc w) m n = rw (double w) (omega (arith, bit_or-bound w (m / 2) (n / 2)))

bit_or-zero : (w m n : ℕ) → m < 2 ^ w → n < 2 ^ w → (bit_or w m n ≡ 0) ↔ ((m ≡ 0) × (n ≡ 0))
bit_or-zero zero m n h k = ground arith
bit_or-zero (suc w) m n h k = ground (arith, bit_or-zero w (m / 2) (n / 2), double w)

-- A count whose largest value the loop keeps.
pub record Largest (start out : ℕ) (read : GpuSnapshot → ℕ) (snaps : List GpuSnapshot)
    : Type 0 where
  pub above_start : start ≤ out
  pub above_all : All (λ s. read s ≤ out) snaps
  pub reached : (out ≡ start) ⊎ (any (λ s. read s == out) snaps ≡ true)

Largest-cons :
    (start out : ℕ) (read : GpuSnapshot → ℕ) (s : GpuSnapshot) (snaps : List GpuSnapshot)
    → Largest (if ltb start (read s) then read s else start) out read snaps
    → Largest start out read (s ∷ snaps)
Largest-cons start out read s snaps h = record {
  above_start = ground (arith, h.above_start);
  above_all = (ground (arith, h.above_start), h.above_all);
  reached = elim h.reached [
    | inl e ↦ elim (Bool-cases (ltb start (read s))) [
      | inl l ↦ inr (ground (arith, e, l))
      | inr g ↦ inl (ground (arith, e, g))
    ]
    | inr a ↦ inr (ground (arith, a))
  ];
}

-- Throttle reasons are 64-bit words.
abbrev pub Words : List GpuSnapshot → Type 0
Words = All (λ s. s.throttling < 2 ^ 64)

abbrev add_reasons : ℕ → ℕ → ℕ
add_reasons r t = if not (t == 0) then bit_or 64 r t else r

add_reasons-bound : (r t : ℕ) → r < 2 ^ 64 → add_reasons r t < 2 ^ 64
add_reasons-bound r t h = elim (Bool-cases (t == 0)) [
  | inl e ↦ rw e h
  | inr n ↦ rw n (bit_or-bound 64 r t)
]

add_reasons-zero : (r t : ℕ) → r < 2 ^ 64 → t < 2 ^ 64 → (add_reasons r t ≡ 0) ↔ ((r ≡ 0) × (t ≡ 0))
add_reasons-zero r t h k = elim (Bool-cases (t == 0)) [
  | inl e ↦ rw e (ground (arith, e))
  | inr n ↦ rw n (bit_or-zero 64 r t h k)
]

none_throttled :
    (s : GpuSnapshot) (snaps : List GpuSnapshot)
    → s.throttling ≡ 0
    → any is_throttled snaps ≡ false
    → any is_throttled (s ∷ snaps) ≡ false
none_throttled s snaps e n = rw (e, n) refl

some_throttled :
    (s : GpuSnapshot) (snaps : List GpuSnapshot)
    → any is_throttled (s ∷ snaps) ≡ false
    → (s.throttling ≡ 0) × (any is_throttled snaps ≡ false)
some_throttled s snaps h = ground (arith, h)

module _ {fl : Floats} where
  abbrev pub after : AnalysisContext fl → List GpuSnapshot → AnalysisContext fl
  after ctx snaps = foldl (add_snapshot fl) ctx snaps

  pub hottest :
      (ctx : AnalysisContext fl) (snaps : List GpuSnapshot)
      → Largest ctx.temperature (after ctx snaps).temperature (λ s. s.temperature) snaps
  unfolding add_snapshot
  hottest ctx [] = record { above_start = omega arith; above_all = tt; reached = inl refl }
  hottest ctx (s ∷ snaps) =
      Largest-cons ctx.temperature _ (λ t. t.temperature) s snaps
        (hottest (add_snapshot fl ctx s) snaps)

  pub most_errors :
      (ctx : AnalysisContext fl) (snaps : List GpuSnapshot)
      → Largest ctx.ecc_uncorrectable
          (after ctx snaps).ecc_uncorrectable
          (λ s. s.ecc_uncorrectable)
          snaps
  unfolding add_snapshot
  most_errors ctx [] = record { above_start = omega arith; above_all = tt; reached = inl refl }
  most_errors ctx (s ∷ snaps) =
      Largest-cons ctx.ecc_uncorrectable _ (λ t. t.ecc_uncorrectable) s snaps
        (most_errors (add_snapshot fl ctx s) snaps)

  pub throttled :
      (ctx : AnalysisContext fl) (snaps : List GpuSnapshot)
      → ctx.throttle_reasons < 2 ^ 64
      → Words snaps
      → ((after ctx snaps).throttle_reasons ≡ 0)
        ↔ ((ctx.throttle_reasons ≡ 0) × (any is_throttled snaps ≡ false))
  unfolding add_snapshot
  throttled ctx [] h w = ground arith
  throttled ctx (s ∷ snaps) h (v, w) =
      let r = ctx.throttle_reasons in
      let more = throttled (add_snapshot fl ctx s) snaps (add_reasons-bound r s.throttling h) w in
      let one = add_reasons-zero r s.throttling h v in
      (
        λ e. ((one.0 (more.0 e).0).0, none_throttled s snaps (one.0 (more.0 e).0).1 (more.0 e).1),
        λ e. more.1 (one.1 (e.0, (some_throttled s snaps e.1).0), (some_throttled s snaps e.1).1),
      )

  module _ (ord : IsOrdered fl) where
    fuller :
        (ctx : AnalysisContext fl) (s : GpuSnapshot)
        → let c = (add_snapshot fl ctx s).mem_util_percent in
          (fl.gt ctx.mem_util_percent c ≡ false) × (fl.gt (memory_usage_percent fl s) c ≡ false)
    unfolding add_snapshot
    fuller ctx s =
        let m = memory_usage_percent fl s in
        elim (Bool-cases (fl.gt m ctx.mem_util_percent)) [
          | inl e ↦ rw e (not_above ord m ctx.mem_util_percent e, ord.gt_irrefl m)
          | inr n ↦ rw n (ord.gt_irrefl ctx.mem_util_percent, n)
        ]

    -- What is not above a number is not above one that the number is not above.
    not_above_trans : (x y z : fl.F) → fl.gt x y ≡ false → fl.gt y z ≡ false → fl.gt x z ≡ false
    not_above_trans x y z n k = elim (Bool-cases (fl.gt x z)) [
      | inl e ↦ elim (ord.gt_split x y z e) [
        | inl a ↦ absurd (ground (arith, n, a))
        | inr b ↦ absurd (ground (arith, k, b))
      ]
      | inr r ↦ r
    ]

    pub fullest :
        (ctx : AnalysisContext fl) (snaps : List GpuSnapshot)
        → let c = (after ctx snaps).mem_util_percent in
          (fl.gt ctx.mem_util_percent c ≡ false)
          × All (λ s. fl.gt (memory_usage_percent fl s) c ≡ false) snaps
    fullest ctx [] = (ord.gt_irrefl ctx.mem_util_percent, tt)
    fullest ctx (s ∷ snaps) =
        let (kept, all) = fullest (add_snapshot fl ctx s) snaps in
        let (start, own) = fuller ctx s in
        (not_above_trans _ _ _ start kept, (not_above_trans _ _ _ own kept, all))

-- ===== src/Tools/Timeline/Transitions.antt =====
-- The throttle events of pkg/tools/get_gpu_timeline.go tell when a device was throttled.
use mathlib.Core.Path.{subst}
use k8s_gpu_mcp_server.Base.{
  ℕ, suc, ◌≡◌, refl, sym, ap, ◌∙◌, Bool, true, false, not, List, [], ◌∷◌, Bool-cases, inl, inr,
  arith, length, if◌then◌else◌,
}
use k8s_gpu_mcp_server.Base.Texts.{str_eq}
use k8s_gpu_mcp_server.Blackbox.Snapshot.{GpuSnapshot}
use k8s_gpu_mcp_server.Events.Correlator.Describe.{is_throttled}
use k8s_gpu_mcp_server.Tools.Timeline.{
  TimelineEvent, transition, differ, transitions_from, detect_throttling_transitions,
}

-- Starts and ends that take turns, after a time when the device was throttled or not.
abbrev pub Alternates : Bool → List TimelineEvent → Type 0
Alternates throttled [] = Unit
Alternates throttled (e ∷ es) =
    (e.event_type ≡ (if throttled then "throttle_end" else "throttle_start"))
    × Alternates (not throttled) es

-- Whether the device is throttled after events.
abbrev pub state_after : Bool → List TimelineEvent → Bool
state_after throttled [] = throttled
state_after throttled (e ∷ es) = state_after (str_eq e.event_type "throttle_start") es

abbrev pub last_state : Bool → List GpuSnapshot → Bool
last_state throttled [] = throttled
last_state throttled (s ∷ ss) = last_state (is_throttled s) ss

-- How often neighbouring snapshots differ.
abbrev pub changes : Bool → List GpuSnapshot → ℕ
changes throttled [] = 0
changes throttled (s ∷ ss) =
    let more = changes (is_throttled s) ss in
    if differ throttled (is_throttled s) then suc more else more

pub record Tells (throttled : Bool) (snaps : List GpuSnapshot) (es : List TimelineEvent)
    : Type 0 where
  pub alternate : Alternates throttled es
  pub ends_right : state_after throttled es ≡ last_state throttled snaps
  pub one_each : length es ≡ changes throttled snaps

event_state : (b : Bool) (s : GpuSnapshot) → str_eq (transition b s).event_type "throttle_start" ≡ b
unfolding transition
event_state true s = refl
event_state false s = refl

event_type_of :
    (b c : Bool) (s : GpuSnapshot)
    → differ b c ≡ true
    → (transition c s).event_type ≡ (if b then "throttle_end" else "throttle_start")
unfolding transition
event_type_of true true s e = absurd (ground (arith, e))
event_type_of true false s e = refl
event_type_of false true s e = refl
event_type_of false false s e = absurd (ground (arith, e))

other_state : (b c : Bool) → differ b c ≡ true → not b ≡ c
other_state true true e = absurd (ground (arith, e))
other_state true false e = refl
other_state false true e = refl
other_state false false e = absurd (ground (arith, e))

same_state : (b c : Bool) → differ b c ≡ false → b ≡ c
same_state true true e = refl
same_state true false e = absurd (ground (arith, e))
same_state false true e = absurd (ground (arith, e))
same_state false false e = refl

Tells-cons :
    (b : Bool) (s : GpuSnapshot) (ss : List GpuSnapshot) (es : List TimelineEvent)
    → differ b (is_throttled s) ≡ true
    → Tells (is_throttled s) ss es
    → Tells b (s ∷ ss) (transition (is_throttled s) s ∷ es)
Tells-cons b s ss es d h = record {
  alternate = (
    event_type_of b (is_throttled s) s d,
    subst (λ x. Alternates x es) (sym (other_state b (is_throttled s) d)) h.alternate,
  );
  ends_right = ap (λ x. state_after x es) (event_state (is_throttled s) s) ∙ h.ends_right;
  one_each = rw d (ap suc h.one_each);
}

Tells-skip :
    (b : Bool) (s : GpuSnapshot) (ss : List GpuSnapshot) (es : List TimelineEvent)
    → differ b (is_throttled s) ≡ false
    → Tells (is_throttled s) ss es
    → Tells b (s ∷ ss) es
Tells-skip b s ss es n h =
    let same = sym (same_state b (is_throttled s) n) in
    record {
      alternate = subst (λ x. Alternates x es) same h.alternate;
      ends_right = ap (λ x. state_after x es) (sym same) ∙ h.ends_right;
      one_each = rw n h.one_each;
    }

transitions_from-Tells :
    (b : Bool) (snaps : List GpuSnapshot) → Tells b snaps (transitions_from b snaps)
unfolding transitions_from
transitions_from-Tells b [] = record { alternate = tt; ends_right = refl; one_each = refl }
transitions_from-Tells b (s ∷ ss) =
    let h = transitions_from-Tells (is_throttled s) ss in
    elim (Bool-cases (differ b (is_throttled s))) [
      | inl d ↦ rw d (Tells-cons b s ss (transitions_from (is_throttled s) ss) d h)
      | inr n ↦ rw n (Tells-skip b s ss (transitions_from (is_throttled s) ss) n h)
    ]

-- For at least one snapshot, the throttle events start and end by turns, the first of them ends
-- throttling if the device was throttled at the first snapshot and else starts it; after the last of
-- them the device is as at the last snapshot; and there is one for each two neighbours that differ.
pub detect_throttling_transitions-Tells :
    (s : GpuSnapshot) (snaps : List GpuSnapshot)
    → Tells (is_throttled s) snaps (detect_throttling_transitions (s ∷ snaps))
unfolding detect_throttling_transitions
detect_throttling_transitions-Tells s snaps = transitions_from-Tells (is_throttled s) snaps

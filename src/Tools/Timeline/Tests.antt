-- ===== src/Tools/Timeline/Tests.antt =====
-- Runs of pkg/tools/get_gpu_timeline.go; an average is kept as its sum.
use k8s_gpu_mcp_server.Base.{ℕ, ◌+◌, ◌*◌, ◌≡◌, refl, false, [], ◌∷◌, map, some, inl}
use k8s_gpu_mcp_server.Base.Int.{pos}
use k8s_gpu_mcp_server.Base.Texts.{codes}
use k8s_gpu_mcp_server.Blackbox.Snapshot.{GpuSnapshot}
use k8s_gpu_mcp_server.Tools.Timeline.{
  Averages, TimelineStats, compute_statistics, detect_throttling_transitions, transitions_from,
  transition, parse_duration_arg, too_long, second,
}
use k8s_gpu_mcp_server.Tools.Timeline.Statistics.{Describes, compute_statistics-Describes}
use k8s_gpu_mcp_server.Tools.Timeline.Transitions.{Tells, detect_throttling_transitions-Tells}

abbrev sums : Averages
sums = record { Average = ℕ; zero_sum = 0; plus = λ a n. a + n; divide = λ a n. a }

abbrev cool : GpuSnapshot
cool = record {
  timestamp = 10 * second;
  uuid = codes "GPU-1";
  index = 0;
  power_mw = 200;
  gpu_util = 50;
  mem_util = 40;
  temperature = 60;
  temp_threshold = 90;
  mem_used = 10;
  mem_total = 80;
  throttling = 0;
  ecc_correctable = 0;
  ecc_uncorrectable = 0;
  processes = [];
}

abbrev slow : GpuSnapshot
slow = record cool { timestamp = 20 * second; temperature = 91; throttling = 0x40 }

events_run :
    map (λ e. e.event_type) (detect_throttling_transitions (cool ∷ slow ∷ slow ∷ cool ∷ []))
    ≡ "throttle_start" ∷ "throttle_end" ∷ []
unfolding detect_throttling_transitions transitions_from transition
events_run = refl

duration_run :
    parse_duration_arg (λ s. some (pos (90_000 * second))) (some (codes "25h")) ≡ inl too_long
unfolding parse_duration_arg
duration_run = refl

compute_statistics-Describes_example :
    (t : TimelineStats sums) × (compute_statistics sums (cool ∷ slow ∷ []) ≡ some t)
    × Describes t (cool ∷ slow ∷ [])
compute_statistics-Describes_example = compute_statistics-Describes sums cool (slow ∷ [])

detect_throttling_transitions-Tells_example :
    Tells false (slow ∷ cool ∷ []) (detect_throttling_transitions (cool ∷ slow ∷ cool ∷ []))
detect_throttling_transitions-Tells_example =
    detect_throttling_transitions-Tells cool (slow ∷ cool ∷ [])

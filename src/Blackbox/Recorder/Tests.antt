-- ===== src/Blackbox/Recorder/Tests.antt =====
-- Runs of pkg/blackbox/recorder.go and config.go, and the theorems at inputs.
use k8s_gpu_mcp_server.Base.{
  ℕ, ◌*◌, ◌-◌, ◌≤◌, ◌≡◌, refl, false, Option, none, some, List, [], ◌∷◌, foldl, arith, inr,
}
use k8s_gpu_mcp_server.Base.Int.{pos}
use k8s_gpu_mcp_server.Base.Texts.{codes}
use k8s_gpu_mcp_server.Blackbox.Ring.{new_ring_buffer, add, query, ordered, scan}
use k8s_gpu_mcp_server.Blackbox.Snapshot.{GpuSnapshot}
use k8s_gpu_mcp_server.Blackbox.Config.{
  RecorderConfig, validate, buffer_capacity, validate-buffer_capacity,
}
use k8s_gpu_mcp_server.Blackbox.Recorder.{zero_snapshot, new_recorder, sample_gpu, get_timeline}
use k8s_gpu_mcp_server.Blackbox.Recorder.Sampled.{
  TimelineFrom, snapshots_of, get_timeline-TimelineFrom,
}

abbrev second : ℕ
second = 1_000_000_000

-- Two snapshots a minute for a minute.
abbrev short_config : RecorderConfig
short_config = record {
  interval = pos (30 * second);
  retention = pos (60 * second);
  enable_processes = false;
}

abbrev at_time : ℕ → GpuSnapshot
at_time t = record zero_snapshot { timestamp = t; uuid = codes "GPU-a" }

abbrev samples : List (Option GpuSnapshot)
samples = some (at_time 1) ∷ none ∷ some (at_time 2) ∷ some (at_time 3) ∷ []

recorder_run :
    (get_timeline (foldl sample_gpu (new_recorder short_config) samples) (codes "GPU-a") 3 0
      ≡ inr (at_time 3 ∷ []))
    × (validate short_config ≡ none)
    × (buffer_capacity short_config ≡ pos 2)
unfolding get_timeline sample_gpu new_ring_buffer add query ordered scan validate buffer_capacity
recorder_run = (refl, refl, refl)

validate-buffer_capacity_example :
    (n : ℕ) × (buffer_capacity short_config ≡ pos n) × (1 ≤ n) × (n ≤ 7200)
validate-buffer_capacity_example = validate-buffer_capacity short_config recorder_run.1

get_timeline-TimelineFrom_example :
    TimelineFrom 2
      (3 - 0)
      (snapshots_of (codes "GPU-a") samples)
      (get_timeline (foldl sample_gpu (new_recorder short_config) samples) (codes "GPU-a") 3 0)
get_timeline-TimelineFrom_example =
    get_timeline-TimelineFrom short_config 2 samples (codes "GPU-a") 3 0 recorder_run.1
      recorder_run.2 (omega arith)

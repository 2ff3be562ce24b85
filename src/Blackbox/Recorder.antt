-- ===== src/Blackbox/Recorder.antt =====
-- pkg/blackbox/recorder.go: the buffers of the flight recorder. The map from identifiers to buffers
-- is a function. A sample of all devices is the list of their snapshots, `none` for a device that
-- answers with an error. NVML, the resolver of processes and the goroutine are left out.
pub mod Sampled
mod Tests
use k8s_gpu_mcp_server.Base.{
  ℕ, ◌+◌, ◌-◌, Bool, true, false, Option, none, some, List, [], ◌∷◌, if◌then◌else◌, foldl, ◌⊎◌, inl,
  inr,
}
use k8s_gpu_mcp_server.Base.Texts.{eq_bytes}
use k8s_gpu_mcp_server.Blackbox.Config.{RecorderConfig, buffer_capacity}
use k8s_gpu_mcp_server.Blackbox.Ring.{RingBuffer, new_ring_buffer, add, query, find_nearest, latest}
use k8s_gpu_mcp_server.Blackbox.Snapshot.{GpuSnapshot}

pub record Recorder : Type 0 where
  pub config : RecorderConfig
  pub gpu_buffers : List ℕ → Option (RingBuffer GpuSnapshot)

abbrev pub zero_snapshot : GpuSnapshot
zero_snapshot = record {
  timestamp = 0;
  uuid = [];
  temperature = 0;
  temp_threshold = 0;
  index = 0;
  power_mw = 0;
  gpu_util = 0;
  mem_util = 0;
  mem_used = 0;
  mem_total = 0;
  throttling = 0;
  ecc_correctable = 0;
  ecc_uncorrectable = 0;
  processes = [];
}

abbrev pub new_recorder : RecorderConfig → Recorder
new_recorder c = record { config = c; gpu_buffers = λ uuid. none }

abbrev pub put : Recorder → List ℕ → RingBuffer GpuSnapshot → Recorder
put r uuid ring = record r {
  gpu_buffers = λ u. if eq_bytes u uuid then some ring else r.gpu_buffers u;
}

-- A device of `discoverGPUs`; `none` is one whose identifier cannot be read.
abbrev made : Recorder → List ℕ → Option (RingBuffer GpuSnapshot) → Recorder
made r uuid none = r
made r uuid (some ring) = put r uuid ring

unfoldable pub discover_gpu : Recorder → Option (List ℕ) → Recorder
discover_gpu r none = r
discover_gpu r (some uuid) = made r uuid (new_ring_buffer zero_snapshot (buffer_capacity r.config))

-- The buffer to add to: that of the device, or a new one.
abbrev pub buffer_or_new :
    Option (RingBuffer GpuSnapshot) → RecorderConfig → Option (RingBuffer GpuSnapshot)
buffer_or_new (some ring) c = some ring
buffer_or_new none c = new_ring_buffer zero_snapshot (buffer_capacity c)

abbrev pub add_to : Recorder → GpuSnapshot → Option (RingBuffer GpuSnapshot) → Recorder
add_to r snap none = r
add_to r snap (some ring) = put r snap.uuid (add snap ring)

unfoldable pub sample_gpu : Recorder → Option GpuSnapshot → Recorder
sample_gpu r none = r
sample_gpu r (some snap) = add_to r snap (buffer_or_new (r.gpu_buffers snap.uuid) r.config)

-- `sampleAllGPUs`; the outer `none` is a device count that cannot be read.
abbrev pub sample_all_gpus : Recorder → Option (List (Option GpuSnapshot)) → Recorder
sample_all_gpus r none = r
sample_all_gpus r (some snaps) = foldl sample_gpu r snaps

pub data RecorderError : Type 0 where
  gpu_not_found no_snapshots : RecorderError

abbrev pub nearest_in : Option (RingBuffer GpuSnapshot) → ℕ → RecorderError ⊎ GpuSnapshot
nearest_in none at_time = inl gpu_not_found
nearest_in (some ring) at_time = elim (find_nearest zero_snapshot at_time (λ s. s.timestamp) ring) [
  | none ↦ inl no_snapshots
  | some snap ↦ inr snap
]

unfoldable pub get_snapshot : Recorder → List ℕ → ℕ → RecorderError ⊎ GpuSnapshot
get_snapshot r uuid at_time = nearest_in (r.gpu_buffers uuid) at_time

abbrev pub since_in : Option (RingBuffer GpuSnapshot) → ℕ → RecorderError ⊎ List GpuSnapshot
since_in none since = inl gpu_not_found
since_in (some ring) since = inr (query zero_snapshot since (λ s. s.timestamp) ring)

-- `now` is the clock's reading.
unfoldable pub get_timeline : Recorder → List ℕ → ℕ → ℕ → RecorderError ⊎ List GpuSnapshot
get_timeline r uuid now duration = since_in (r.gpu_buffers uuid) (now - duration)

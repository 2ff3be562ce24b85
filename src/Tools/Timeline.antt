-- ===== src/Tools/Timeline.antt =====
-- pkg/tools/get_gpu_timeline.go: the history of a device, with statistics and events. Averages are float64
-- and a parameter; `time.ParseDuration` and `sort.Slice` are parameters too. The times of events are
-- whole seconds, which is what the texts that the code compares hold.
pub mod Statistics
pub mod Transitions
mod Tests
use k8s_gpu_mcp_server.Base.{
  ℕ, zero, suc, ◌+◌, ◌-◌, ◌*◌, ◌/◌, ◌⊎◌, inl, inr, Bool, true, false, not, ◌&&◌, ◌||◌, Option, none,
  some, List, [], ◌∷◌, ◌++◌, String, ltb, leb, ◌==◌, if◌then◌else◌, length, filter, foldl, map,
}
use k8s_gpu_mcp_server.Base.Bytes.{is_empty}
use k8s_gpu_mcp_server.Base.Int.{ℤ, pos, negsuc, ltz, lez, sub_time}
use k8s_gpu_mcp_server.Base.Texts.{codes, eq_bytes, str_eq}
use k8s_gpu_mcp_server.Blackbox.Recorder.{Recorder, RecorderError, get_timeline}
use k8s_gpu_mcp_server.Blackbox.Snapshot.{GpuSnapshot}
use k8s_gpu_mcp_server.Events.Correlator.Describe.{is_throttled}
use k8s_gpu_mcp_server.Events.Correlator.Types.{XidEvent}
use k8s_gpu_mcp_server.Xid.Watcher.{Watcher, get_events}

-- `sum += float64(n)` from 0, and the quotient by a length.
pub record Averages : Type 1 where
  pub Average : Type 0
  pub zero_sum : Average
  pub plus : Average → ℕ → Average
  pub divide : Average → ℕ → Average

pub record StatValues (av : Averages) : Type 0 where
  pub min_value : ℕ
  pub max_value : ℕ
  pub average : av.Average

pub record TimelineStats (av : Averages) : Type 0 where
  pub temperature : StatValues av
  pub power_mw : StatValues av
  pub gpu_util : StatValues av
  pub mem_util : StatValues av

module _ (av : Averages) where
  -- A metric before the loop, after one more value, and with its average. The sum is in `average`.
  unfoldable pub start : ℕ → StatValues av
  start n = record { min_value = n; max_value = n; average = av.zero_sum }

  unfoldable pub include : StatValues av → ℕ → StatValues av
  include s n = record {
    min_value = if ltb n s.min_value then n else s.min_value;
    max_value = if ltb s.max_value n then n else s.max_value;
    average = av.plus s.average n;
  }

  abbrev pub averaged : ℕ → StatValues av → StatValues av
  averaged n s = record s { average = av.divide s.average n }

  -- The body of the loop.
  unfoldable pub include_all : TimelineStats av → GpuSnapshot → TimelineStats av
  unfolding include
  include_all t snap = record {
    temperature = include t.temperature snap.temperature;
    power_mw = include t.power_mw snap.power_mw;
    gpu_util = include t.gpu_util snap.gpu_util;
    mem_util = include t.mem_util snap.mem_util;
  }

  unfoldable pub compute_statistics : List GpuSnapshot → Option (TimelineStats av)
  unfolding start include_all
  compute_statistics [] = none
  compute_statistics (s ∷ ss) =
      let n = length (s ∷ ss) in
      let first : TimelineStats av = record {
        temperature = start s.temperature;
        power_mw = start s.power_mw;
        gpu_util = start s.gpu_util;
        mem_util = start s.mem_util;
      } in
      let t = foldl include_all first (s ∷ ss) in
      some (record {
        temperature = averaged n t.temperature;
        power_mw = averaged n t.power_mw;
        gpu_util = averaged n t.gpu_util;
        mem_util = averaged n t.mem_util;
      })

pub record TimelineEvent : Type 0 where
  pub seconds : ℕ
  pub event_type : String
  pub code : ℕ
  pub description : List ℕ
  pub severity : String

abbrev pub second : ℕ
second = 1_000_000_000

unfoldable pub transition : Bool → GpuSnapshot → TimelineEvent
transition now_throttled s = record {
  seconds = s.timestamp / second;
  event_type = if now_throttled then "throttle_start" else "throttle_end";
  code = 0;
  description =
      if now_throttled then codes "GPU throttling started" else codes "GPU throttling ended";
  severity = "";
}

abbrev pub differ : Bool → Bool → Bool
differ true b = not b
differ false b = b

-- The loop from the second snapshot on.
unfoldable pub transitions_from : Bool → List GpuSnapshot → List TimelineEvent
transitions_from prev [] = []
transitions_from prev (s ∷ ss) =
    let rest = transitions_from (is_throttled s) ss in
    if differ prev (is_throttled s) then transition (is_throttled s) s ∷ rest else rest

unfoldable pub detect_throttling_transitions : List GpuSnapshot → List TimelineEvent
unfolding transitions_from
detect_throttling_transitions [] = []
detect_throttling_transitions (s ∷ ss) = transitions_from (is_throttled s) ss

abbrev pub xid_timeline_event : XidEvent → TimelineEvent
xid_timeline_event x = record {
  seconds = x.timestamp / second;
  event_type = "xid";
  code = x.xid_code;
  description = x.description;
  severity = x.severity;
}

-- An event that names no device counts for every device.
abbrev pub concerns : List ℕ → XidEvent → Bool
concerns uuid x = is_empty x.gpu_uuid || eq_bytes x.gpu_uuid uuid

abbrev pub watched_events : Option Watcher → List ℕ → ℕ → List TimelineEvent
watched_events none uuid since = []
watched_events (some w) uuid since =
    map xid_timeline_event (filter (concerns uuid) (get_events w since))

unfoldable pub extract_events :
    (List TimelineEvent → List TimelineEvent)
    → Option Watcher
    → List GpuSnapshot
    → List ℕ
    → ℕ
    → List TimelineEvent
unfolding detect_throttling_transitions
extract_events sort w snapshots uuid since =
    sort (watched_events w uuid since ++ detect_throttling_transitions snapshots)

pub record DataPoint : Type 0 where
  pub seconds : ℕ
  pub temperature_celsius : ℕ
  pub power_mw : ℕ
  pub gpu_util_percent : ℕ
  pub mem_util_percent : ℕ
  pub mem_used_bytes : ℕ
  pub mem_total_bytes : ℕ
  pub throttling : Bool

abbrev pub data_point : GpuSnapshot → DataPoint
data_point s = record {
  seconds = s.timestamp / second;
  temperature_celsius = s.temperature;
  power_mw = s.power_mw;
  gpu_util_percent = s.gpu_util;
  mem_util_percent = s.mem_util;
  mem_used_bytes = s.mem_used;
  mem_total_bytes = s.mem_total;
  throttling = is_throttled s;
}

pub record GpuTimelineResponse (av : Averages) : Type 0 where
  pub gpu_uuid : List ℕ
  pub gpu_index : ℕ
  pub duration : ℕ
  pub sample_count : ℕ
  pub sample_interval : Option ℤ
  pub data_points : List DataPoint
  pub statistics : Option (TimelineStats av)
  pub events : List TimelineEvent

abbrev pub first_index : List GpuSnapshot → ℕ
first_index [] = 0
first_index (s ∷ ss) = s.index

abbrev pub first_interval : List GpuSnapshot → Option ℤ
first_interval (s ∷ t ∷ ss) = some (sub_time t.timestamp s.timestamp)
first_interval _ = none

-- Without the events, and without the name, which NVML gives.
unfoldable pub build_response :
    (av : Averages) → List ℕ → ℕ → Bool → List GpuSnapshot → GpuTimelineResponse av
unfolding compute_statistics
build_response av uuid duration include_stats snapshots = record {
  gpu_uuid = uuid;
  gpu_index = first_index snapshots;
  duration = duration;
  sample_count = length snapshots;
  sample_interval = first_interval snapshots;
  data_points = map data_point snapshots;
  statistics = if include_stats then compute_statistics av snapshots else none;
  events = [];
}

-- The text of a duration as `time.ParseDuration` reads it, `none` an error.
pub data DurationError : Type 0 where
  invalid_duration not_positive too_long : DurationError

abbrev pub max_timeline_duration : ℕ
max_timeline_duration = 24 * 3600 * second

abbrev pub checked_duration : Option ℤ → DurationError ⊎ ℕ
checked_duration none = inl invalid_duration
checked_duration (some (negsuc n)) = inl not_positive
checked_duration (some (pos n)) =
    if n == 0 then inl not_positive else if ltb max_timeline_duration n then inl too_long else inr n

-- The part of `parseArgs` on the duration; a missing or empty text leaves the default of 30 minutes.
unfoldable pub parse_duration_arg : (List ℕ → Option ℤ) → Option (List ℕ) → DurationError ⊎ ℕ
parse_duration_arg parse none = inr (30 * 60 * second)
parse_duration_arg parse (some []) = inr (30 * 60 * second)
parse_duration_arg parse (some (c ∷ s)) = checked_duration (parse (c ∷ s))

abbrev pub with_snapshots :
    {A : Type 0} → RecorderError ⊎ List GpuSnapshot → (List GpuSnapshot → A) → RecorderError ⊎ A
with_snapshots (inl e) f = inl e
with_snapshots (inr ss) f = inr (f ss)

-- `now` is the clock's reading for the recorder, `later` the one for the events.
unfoldable pub handle_single_gpu :
    (av : Averages)
    → (List TimelineEvent → List TimelineEvent)
    → Recorder
    → Option Watcher
    → List ℕ
    → ℕ
    → Bool
    → ℕ
    → ℕ
    → RecorderError ⊎ GpuTimelineResponse av
unfolding build_response extract_events
handle_single_gpu av sort r w uuid duration include_stats now later =
    with_snapshots (get_timeline r uuid now duration) λ ss.
      record (build_response av uuid duration include_stats ss) {
        events = extract_events sort w ss uuid (later - duration);
      }

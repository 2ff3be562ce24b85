-- ===== src/Xid/Watcher.antt =====
-- The XID watcher of pkg/xid/watcher.go. A message is what `parseXIDLine` makes of it (`none` if it
-- is no XID error), with the clock's reading. The handlers are numbered in the order of their
-- registration, and their calls are a log; a handler that panics is recovered from and is not
-- different from one that returns.
use k8s_gpu_mcp_server.Base.{
  ℕ, zero, suc, ◌+◌, Bool, true, false, Option, none, some, List, [], ◌∷◌, ◌++◌, ◌==◌,
  if◌then◌else◌, String,
}
use k8s_gpu_mcp_server.Base.Int.{ℤ, pos, ltz}
use k8s_gpu_mcp_server.Base.Texts.{codes, str_eq}
use k8s_gpu_mcp_server.Blackbox.Ring.{
  RingBuffer, new_ring_buffer, add, items, latest, query, query_func,
}
use k8s_gpu_mcp_server.Events.Correlator.Types.{XidEvent}
use k8s_gpu_mcp_server.Events.Correlator.Gather.{zero_xid}
use k8s_gpu_mcp_server.Base.Texts.{eq_bytes}
use k8s_gpu_mcp_server.Xid.BusId.{normalize_pci_bus_id}

pub record WatcherConfig : Type 0 where
  pub buffer_size : ℤ
  pub kmsg_path : String

-- `none` is no error.
abbrev pub is_valid_config : WatcherConfig → Bool
is_valid_config c = if ltz c.buffer_size (pos 0) then false else true

abbrev pub default_kmsg_path : String
default_kmsg_path = "/dev/kmsg"

abbrev default_size : ℤ → ℤ
default_size (pos n) = if n == 0 then pos 100 else pos n
default_size z = z

abbrev pub with_defaults : WatcherConfig → WatcherConfig
with_defaults c = record {
  buffer_size = default_size c.buffer_size;
  kmsg_path = if str_eq c.kmsg_path "" then default_kmsg_path else c.kmsg_path;
}

pub record Watcher : Type 0 where
  pub buffer : RingBuffer XidEvent
  pub handlers : ℕ
  pub calls : List (ℕ × XidEvent)

abbrev pub with_buffer : Option (RingBuffer XidEvent) → Option Watcher
with_buffer none = none
with_buffer (some ring) = some (record { buffer = ring; handlers = 0; calls = [] })

-- `none` is an error.
unfoldable pub new_watcher : WatcherConfig → Option Watcher
new_watcher c =
    if is_valid_config c
    then with_buffer (new_ring_buffer zero_xid (with_defaults c).buffer_size)
    else none

abbrev pub register_handler : Watcher → Watcher
register_handler w = record w { handlers = w.handlers + 1 }

-- The calls of `n` handlers from number `i` on.
abbrev pub calls_from : ℕ → ℕ → XidEvent → List (ℕ × XidEvent)
calls_from zero i e = []
calls_from (suc n) i e = (i, e) ∷ calls_from n (i + 1) e

unfoldable pub notify_handlers : Watcher → XidEvent → Watcher
notify_handlers w e = record w { calls = w.calls ++ calls_from w.handlers 0 e }

-- The event with the time of the clock if it has none.
abbrev pub stamped : ℕ → XidEvent → XidEvent
stamped now e = if e.timestamp == 0 then record e { timestamp = now } else e

unfoldable pub handle_message : Watcher → Option XidEvent × ℕ → Watcher
handle_message w (none, now) = w
handle_message w (some e, now) =
    notify_handlers (record w { buffer = add (stamped now e) w.buffer }) (stamped now e)

unfoldable pub get_events : Watcher → ℕ → List XidEvent
get_events w since = query zero_xid since (λ e. e.timestamp) w.buffer

unfoldable pub get_events_by_gpu : Watcher → List ℕ → List XidEvent
get_events_by_gpu w bus_id =
    query_func zero_xid (λ e. eq_bytes (codes e.pci_bus_id) (normalize_pci_bus_id bus_id)) w.buffer

unfoldable pub get_latest : Watcher → Option XidEvent
get_latest w = latest zero_xid w.buffer

unfoldable pub get_all_events : Watcher → List XidEvent
get_all_events w = items zero_xid w.buffer

-- ===== src/Xid/Watched.antt =====
-- What the watcher of pkg/xid/watcher.go keeps of the messages that it reads, and whom it tells.
use k8s_gpu_mcp_server.Base.{
  ℕ, ◌≡◌, refl, sym, ap, ap₂, ◌∙◌, Bool, Option, none, some, List, [], ◌∷◌, ◌++◌, append_assoc,
  append-nil, foldl, filter, map, arith, Bool-cases, inl, inr,
}
use k8s_gpu_mcp_server.Base.Texts.{codes}
use k8s_gpu_mcp_server.Blackbox.Ring.{RingBuffer, new_ring_buffer, items, query_func}
use k8s_gpu_mcp_server.Blackbox.Ring.Bounds.{new_ring_buffer-IsValid}
use k8s_gpu_mcp_server.Blackbox.Ring.Contents.{keep_last, contents, items-eq-contents}
use k8s_gpu_mcp_server.Blackbox.Ring.History.{push, apply, log, run-Holds, empty-Holds}
use k8s_gpu_mcp_server.Blackbox.Ring.Queries.{query_func-eq-filter}
use k8s_gpu_mcp_server.Events.Correlator.Types.{XidEvent}
use k8s_gpu_mcp_server.Events.Correlator.Gather.{zero_xid}
use k8s_gpu_mcp_server.Base.Texts.{eq_bytes}
use k8s_gpu_mcp_server.Xid.BusId.{normalize_pci_bus_id}
use k8s_gpu_mcp_server.Xid.Watcher.{
  WatcherConfig, is_valid_config, with_defaults, Watcher, with_buffer, new_watcher, calls_from,
  stamped, notify_handlers, handle_message, get_events_by_gpu, get_all_events,
}

-- The events of the messages that are XID errors, with their times.
abbrev pub recorded : List (Option XidEvent × ℕ) → List XidEvent
recorded [] = []
recorded ((none, now) ∷ ms) = recorded ms
recorded ((some e, now) ∷ ms) = stamped now e ∷ recorded ms

-- The calls of `n` handlers for events: for each event those of all handlers, in their order.
abbrev pub all_calls : ℕ → List XidEvent → List (ℕ × XidEvent)
all_calls n [] = []
all_calls n (e ∷ es) = calls_from n 0 e ++ all_calls n es

-- What a run of messages does to a watcher.
record Read (w v : Watcher) (ms : List (Option XidEvent × ℕ)) : Type 0 where
  pub pushed : v.buffer ≡ foldl (apply zero_xid) w.buffer (map push (recorded ms))
  pub told : v.calls ≡ w.calls ++ all_calls w.handlers (recorded ms)

foldl-Read : (w : Watcher) (ms : List (Option XidEvent × ℕ)) → Read w (foldl handle_message w ms) ms
unfolding handle_message notify_handlers apply
foldl-Read w [] = record { pushed = refl; told = sym (append-nil w.calls) }
foldl-Read w ((none, now) ∷ ms) = record {
  pushed = (foldl-Read w ms).pushed;
  told = (foldl-Read w ms).told;
}
foldl-Read w ((some e, now) ∷ ms) =
    let r = foldl-Read (handle_message w (some e, now)) ms in
    record {
      pushed = r.pushed;
      told = r.told ∙ append_assoc w.calls (calls_from w.handlers 0 (stamped now e)) _;
    }

foldl-log : (h xs : List XidEvent) → foldl log h (map push xs) ≡ h ++ xs
foldl-log h [] = sym (append-nil h)
foldl-log h (x ∷ xs) = foldl-log (h ++ x ∷ []) xs ∙ append_assoc h (x ∷ []) xs

with_buffer-some :
    (ring : Option (RingBuffer XidEvent)) {w : Watcher}
    → with_buffer ring ≡ some w
    → (ring ≡ some w.buffer) × (w.calls ≡ [])
with_buffer-some none e = ground arith
with_buffer-some (some ring) e = ground arith

new_watcher-some :
    (c : WatcherConfig) {w : Watcher}
    → new_watcher c ≡ some w
    → (new_ring_buffer zero_xid (with_defaults c).buffer_size ≡ some w.buffer) × (w.calls ≡ [])
unfolding new_watcher
new_watcher-some c {w} e = elim (Bool-cases (is_valid_config c)) [
  | inl p ↦ with_buffer-some _ {w = w} (ground (arith, p, e))
  | inr p ↦ absurd (ground (arith, p, e))
]

-- What a watcher with some handlers has, after messages, of a bus identifier.
pub record Watches (w : Watcher) (n : ℕ) (events : List XidEvent) (bus_id : List ℕ) (v : Watcher)
    : Type 0 where
  pub all_events : get_all_events v ≡ keep_last w.buffer.capacity events
  pub of_gpu :
      get_events_by_gpu v bus_id
      ≡ filter
          (λ e. eq_bytes (codes e.pci_bus_id) (normalize_pci_bus_id bus_id))
          (keep_last w.buffer.capacity events)
  pub told : v.calls ≡ all_calls n events

-- A new watcher with n handlers, after any messages, has the last XID events among them, as many as
-- its buffer holds; asked for a device, it has those of them with the normal form of the
-- identifier; and it has called every handler once for every event, in order.
pub new_watcher-Watches :
    (c : WatcherConfig) (n : ℕ) (ms : List (Option XidEvent × ℕ)) (bus_id : List ℕ) {w : Watcher}
    → new_watcher c ≡ some w
    → Watches w n (recorded ms) bus_id (foldl handle_message (record w { handlers = n }) ms)
unfolding get_all_events get_events_by_gpu
new_watcher-Watches c n ms bus_id {w} e =
    let (made, silent) = new_watcher-some c e in
    let (valid, empty, _) = new_ring_buffer-IsValid zero_xid (with_defaults c).buffer_size made in
    let r = foldl-Read (record w { handlers = n }) ms in
    let (held, kept) =
      run-Holds zero_xid [] w.buffer (map push (recorded ms)) (empty-Holds w.buffer valid empty) in
    let here : contents (foldl (apply zero_xid) w.buffer (map push (recorded ms)))
        ≡ keep_last w.buffer.capacity (recorded ms) =
      held.latest_items ∙ ap₂ keep_last kept (foldl-log [] (recorded ms)) in
    let p : XidEvent → Bool = λ e. eq_bytes (codes e.pci_bus_id) (normalize_pci_bus_id bus_id) in
    record {
      all_events = ap (items zero_xid) r.pushed ∙ items-eq-contents zero_xid _ held.valid ∙ here;
      of_gpu =
          ap (query_func zero_xid p) r.pushed
          ∙ query_func-eq-filter zero_xid p _ held.valid
          ∙ ap (filter p) here;
      told = r.told ∙ ap (λ cs. cs ++ all_calls n (recorded ms)) silent;
    }

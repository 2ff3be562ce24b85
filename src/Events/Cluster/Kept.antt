-- ===== src/Events/Cluster/Kept.antt =====
-- A watcher of pkg/events/k8s_watcher.go from its construction on.
use k8s_gpu_mcp_server.Base.{
  ℕ, ◌≡◌, refl, sym, ap, ap₂, ◌∙◌, Bool, ◌&&◌, Option, none, some, List, [], ◌∷◌, ◌++◌,
  append_assoc, append-nil, foldl, foldl-append, filter, map, arith, Bool-cases, inl, inr, String,
}
use k8s_gpu_mcp_server.Base.Texts.{str_eq}
use k8s_gpu_mcp_server.Blackbox.Ring.{RingBuffer, new_ring_buffer, items, query_func}
use k8s_gpu_mcp_server.Blackbox.Ring.Bounds.{new_ring_buffer-IsValid}
use k8s_gpu_mcp_server.Blackbox.Ring.Contents.{keep_last, contents, items-eq-contents}
use k8s_gpu_mcp_server.Blackbox.Ring.History.{push, apply, log, run-Holds, empty-Holds}
use k8s_gpu_mcp_server.Blackbox.Ring.Queries.{query_func-eq-filter}
use k8s_gpu_mcp_server.Events.Correlator.Types.{K8sEvent}
use k8s_gpu_mcp_server.Events.Correlator.Gather.{zero_k8s}
use k8s_gpu_mcp_server.Events.Cluster.{
  WatcherConfig, K8sWatcher, with_ring, new_k8s_watcher, validate_node, with_default_size,
  get_all_k8s_events, get_events_for_pod, get_events_by_reason,
}
use k8s_gpu_mcp_server.Events.Cluster.Captured.{
  Action, act, captured, captured_of, notices, told, handlers_after, act-Effect,
}

map-append {ℓ κ} :
    {A : Type ℓ} {B : Type κ} (f : A → B) (xs ys : List A) → map f (xs ++ ys) ≡ map f xs ++ map f ys
map-append f [] ys = refl
map-append f (x ∷ xs) ys = ap (◌∷◌ (f x)) (map-append f xs ys)

pushed-append :
    (r : RingBuffer K8sEvent) (es fs : List K8sEvent)
    → foldl (apply zero_k8s) r (map push (es ++ fs))
      ≡ foldl (apply zero_k8s) (foldl (apply zero_k8s) r (map push es)) (map push fs)
pushed-append r es fs =
    ap (foldl (apply zero_k8s) r) (map-append push es fs)
    ∙ foldl-append (apply zero_k8s) r (map push es) (map push fs)

-- What a run of actions does to a watcher.
record Run (w v : K8sWatcher) (as' : List Action) : Type 0 where
  stored : v.buffer ≡ foldl (apply zero_k8s) w.buffer (map push (captured w.node_name as'))
  notified : v.calls ≡ w.calls ++ told w.node_name w.handlers as'

foldl-Run : (w : K8sWatcher) (as' : List Action) → Run w (foldl act w as') as'
foldl-Run w [] = record { stored = refl; notified = sym (append-nil w.calls) }
foldl-Run w (a ∷ as') =
    let v = act w a in
    let e = act-Effect w a in
    let r = foldl-Run v as' in
    let new = captured_of w.node_name a in
    record {
      stored =
          r.stored
          ∙ ap₂ (λ b n. foldl (apply zero_k8s) b (map push (captured n as'))) e.pushed e.same_node
          ∙ sym (pushed-append w.buffer new (captured w.node_name as'));
      notified =
          r.notified
          ∙ ap₂ (λ n h. v.calls ++ told n h as') e.same_node e.listening
          ∙ ap (λ cs. cs ++ told w.node_name (handlers_after w.handlers a) as') e.called
          ∙ append_assoc w.calls (notices w.handlers new) _;
    }

foldl-log : (h xs : List K8sEvent) → foldl log h (map push xs) ≡ h ++ xs
foldl-log h [] = sym (append-nil h)
foldl-log h (x ∷ xs) = foldl-log (h ++ x ∷ []) xs ∙ append_assoc h (x ∷ []) xs

-- A watcher as it is made: on its node, with nothing registered and nothing called.
record Fresh (c : WatcherConfig) (w : K8sWatcher) : Type 0 where
  made : new_ring_buffer zero_k8s (with_default_size c).buffer_size ≡ some w.buffer
  on_node : w.node_name ≡ c.node_name
  unheard : w.handlers ≡ 0
  silent : w.calls ≡ []

with_ring-some :
    (c : WatcherConfig) (ring : Option (RingBuffer K8sEvent)) {w : K8sWatcher}
    → new_ring_buffer zero_k8s (with_default_size c).buffer_size ≡ ring
    → with_ring c.node_name ring ≡ some w
    → Fresh c w
with_ring-some c none d e = ground (arith, e)
with_ring-some c (some ring) d e = ground (arith, d, e)

new_k8s_watcher-some : (c : WatcherConfig) {w : K8sWatcher} → new_k8s_watcher c ≡ some w → Fresh c w
unfolding new_k8s_watcher
new_k8s_watcher-some c {w} e = elim (Bool-cases (validate_node c)) [
  | inl p ↦ with_ring-some c _ {w = w} refl (ground (arith, p, e))
  | inr p ↦ absurd (ground (arith, p, e))
]

-- What a watcher answers when it has captured some events, and has made some calls.
pub record Watches (w v : K8sWatcher) (events : List K8sEvent) (calls : List (ℕ × K8sEvent))
    : Type 0 where
  pub all_events : get_all_k8s_events v ≡ keep_last w.buffer.capacity events
  pub of_pod :
      (pod namespace : String)
      → get_events_for_pod v pod namespace
        ≡ filter
            (λ e. str_eq e.pod_name pod && str_eq e.namespace namespace)
            (keep_last w.buffer.capacity events)
  pub of_reason :
      (reason : String)
      → get_events_by_reason v reason
        ≡ filter (λ e. str_eq e.reason reason) (keep_last w.buffer.capacity events)
  pub notified : v.calls ≡ calls

-- A new watcher, after any events and registrations of handlers, has the last events of interest on
-- its node, as many as its buffer holds; asked for a pod or a reason it has exactly those of them; and
-- each event of interest has gone to every handler that was registered by then, once and in order.
pub new_k8s_watcher-Watches :
    (c : WatcherConfig) (as' : List Action) {w : K8sWatcher}
    → new_k8s_watcher c ≡ some w
    → Watches w (foldl act w as') (captured c.node_name as') (told c.node_name 0 as')
unfolding get_all_k8s_events get_events_for_pod get_events_by_reason
new_k8s_watcher-Watches c as' {w} e =
    let f = new_k8s_watcher-some c e in
    let (valid, empty, _) =
      new_ring_buffer-IsValid zero_k8s (with_default_size c).buffer_size f.made in
    let events = captured w.node_name as' in
    let r = foldl-Run w as' in
    let ring = foldl (apply zero_k8s) w.buffer (map push events) in
    let (held, kept) =
      run-Holds zero_k8s [] w.buffer (map push events) (empty-Holds w.buffer valid empty) in
    let here : contents ring ≡ keep_last w.buffer.capacity (captured c.node_name as') =
      held.latest_items
      ∙ ap₂ keep_last kept (foldl-log [] events)
      ∙ ap (λ n. keep_last w.buffer.capacity (captured n as')) f.on_node in
    let asked : (p : K8sEvent → Bool)
        → query_func zero_k8s p (foldl act w as').buffer
          ≡ filter p (keep_last w.buffer.capacity (captured c.node_name as')) =
      λ p.
        ap (query_func zero_k8s p) r.stored
        ∙ query_func-eq-filter zero_k8s p ring held.valid
        ∙ ap (filter p) here in
    record {
      all_events = ap (items zero_k8s) r.stored ∙ items-eq-contents zero_k8s ring held.valid ∙ here;
      of_pod = λ pod ns. asked (λ e. str_eq e.pod_name pod && str_eq e.namespace ns);
      of_reason = λ reason. asked (λ e. str_eq e.reason reason);
      notified =
          r.notified
          ∙ ap (λ cs. cs ++ told w.node_name w.handlers as') f.silent
          ∙ ap₂ (λ n h. told n h as') f.on_node f.unheard;
    }

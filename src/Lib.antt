-- ===== src/Lib.antt =====
-- A model of the core of k8s-gpu-mcp-server, and what it does.
--
-- The server watches the GPUs of Kubernetes nodes. On each node an agent samples telemetry into
-- ring buffers, follows the kernel log for XID errors and the cluster for events, correlates them into
-- incidents and reports on them; a gateway forwards requests to the agents.
--
-- Blackbox (pkg/blackbox): Ring is ring.go. A buffer is a record with the fields of the Go
-- struct (`data` is `buf`), a method that changes it returns the new record, and `All`, `Latest`,
-- `Query`, `QueryFunc`, `FindNearest`, `Clear` are `items`, `latest`, `query`, `query_func`,
-- `find_nearest`, `clear`. Config is config.go; Recorder is recorder.go: the map of ring buffers, the
-- sampling of all devices and the queries of one, without the goroutine and the calls of NVML.
-- Snapshot is the data of snapshot.go.
-- Gateway (pkg/gateway): Breaker is circuit_breaker.go, with one function for each method and `step`
-- for a call of any of them; Framing is framing.go: `split_json_objects` is `SplitJSONObjects` one
-- byte at a time, Json the part of `json.Marshal` that the requests use. Client is http_client.go, the
-- attempts of `CallMCP`; Router is router.go with the endpoints of pkg/k8s/client.go: `route_to_gpu_node` asks
-- the circuit breaker of Breaker, and `route_to_all_nodes` is a schedule of the steps of its goroutines;
-- Proxy is proxy.go, which aggregates the results of Router.
-- Tools (pkg/tools): Health is gpu_health.go, the get_gpu_health tool: one function for each check and
-- each scorer, `collect_gpu_health`, `calculate_overall_health` and `handle`. What NVML answers is a
-- record, with `none` for a call that fails; Go's floats, of which only comparisons with whole numbers
-- are used, are a parameter.
-- Timeline is get_gpu_timeline.go, the get_gpu_timeline tool for one device: it reads the recorder of
-- Blackbox and the watcher of Xid. Averages and the parser of durations are parameters.
-- XidErrors is analyze_xid.go, on the table of Xid.
-- Events (pkg/events): Correlator is correlator.go: `correlate` gathers the events of the two watchers
-- (through `query` of Blackbox.Ring) and the snapshots around a trigger, builds the timeline, names
-- the affected pods and detects the causality; the bounds of its window are sums of int64. A context is the number of calls of `ctx.Err()` that
-- still find it open; `sort.Slice` is a parameter.
-- Cluster is k8s_watcher.go with buffer.go: `handle_event` takes the object that an informer delivers, with the
-- reading of the clock.
-- Mapper is process_mapper.go: `get_pod_for_pid` with both caches, on what `parseCgroup` reads.
-- Incidents (pkg/incidents): Patterns is patterns.go, Values the conversions, Context, Indicators, Match
-- and Report are analyzer.go from `extractContext` to `Analyze`, Explain the data of explainer.go. A
-- float64 is a parameter, of which the theorems use the order; so is text/template.
-- Xid (pkg/xid): Codes is codes.go and `EnrichEvent`, BusId `normalizePCIBusID`, Watcher watcher.go from
-- the parsed line on: `handle_message` takes what `parseXIDLine` makes of a line, which is not modelled,
-- and keeps the events in the ring buffer of Blackbox.Ring.
-- Base holds what the others share: tests and lists over the native numbers, Go's `int` and
-- `time.Duration`, counted loops, texts.
--
-- Times are nanoseconds since Go's zero time, as natural numbers; `t.Sub(u)` saturates as Go's does.
-- Locks are not modelled: the methods of the ring buffer and of the circuit breaker hold theirs from the
-- first line to the last, so that calls come one after the other, and a history is a list of calls. The
-- recorder and the watchers have one goroutine each that writes, and their histories are what it does. The
-- steps of the goroutines of `RouteToAllNodes` come in any order; between them the breaker is changed by
-- one method at a time. The process mapper lets go of its locks inside `GetPodForPID`; its calls are taken one after
-- the other, as the recorder makes them. Logging is left out.
-- Slice indices and lengths are natural numbers without a bound: the sums that the code forms stay
-- below twice the length of a slice that is in memory. Every loop is a recursion over a list or a count;
-- only the printing of a number takes fuel, the number itself, which has no more digits than that.
pub mod Base
pub mod Blackbox
pub mod Gateway
pub mod Tools
pub mod Events
pub mod Xid
pub mod Incidents

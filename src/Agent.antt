-- ===== src/Agent.antt =====
-- internal/app/clusteragent/server.go: the calls that a cluster agent answers from its store and
-- from the Kubernetes API.
pub mod Answers
pub mod Wiring
pub mod Memory
pub mod Ingestion
pub mod Startup
pub mod Serving
use mcp_k8s.Base.{
  ℕ, String, not, ◌&&◌, Option, none, some, List, [], ◌∷◌, if◌then◌else◌, ◌==◌, num_keys, text_keys,
  Ranging, to_int, is_pos,
}
use mcp_k8s.Base.Result.{Result, ◌>>=◌, ok, err}
use mcp_k8s.Event.{NormalizedEvent, Time}
use mcp_k8s.Store.{Store}
use mcp_k8s.Store.Query.{Filter, query}
use mcp_k8s.Store.Summary.{NamespaceSummary, summarize_namespace}
use mcp_k8s.Enrichment.{Client, Walk, resolve_owner_chain}
use mcp_k8s.Enrichment.Snapshot.{
  ContainerStatus, WorkloadCondition, ObjectSnapshot, ObjectClient, get_object_snapshot,
}
use mcp_k8s.Proto.{
  Timestamps, PbOwnerRef, PbEvent, PbGroup, to_proto_owner_chain, to_proto_event, to_proto_events,
  time_or_zero,
}
use mcp_k8s.Messages.{
  ListEventsRequest, ObjectRequest, NamespaceSummaryRequest, ContainerLogsRequest,
  ContainerLogsResponse, PodMetricsRequest, PbContainerStatus, PbWorkloadCondition,
  PbObjectSnapshot, PbContainerMetrics, PbPodMetrics,
}

abbrev pub default_log_tail_lines : ℕ
default_log_tail_lines = 50

-- `toProtoContainerStatuses`
unfoldable pub to_proto_container_statuses : List ContainerStatus → List PbContainerStatus
to_proto_container_statuses [] = []
to_proto_container_statuses (s ∷ statuses) =
    record {
      name = s.name;
      ready = s.ready;
      restart_count = s.restart_count;
      state = s.state;
      reason = s.reason;
      last_termination_exit_code = s.last_termination_exit_code;
      last_termination_reason = s.last_termination_reason;
      last_termination_message = s.last_termination_message;
    }
    ∷ to_proto_container_statuses statuses

-- `toProtoWorkloadConditions`
unfoldable pub to_proto_workload_conditions : List WorkloadCondition → List PbWorkloadCondition
to_proto_workload_conditions [] = []
to_proto_workload_conditions (c ∷ conditions) =
    record { type = c.type; status = c.status; reason = c.reason; message = c.message }
    ∷ to_proto_workload_conditions conditions

-- `toProtoSnapshot`
unfoldable pub to_proto_snapshot : ObjectSnapshot → PbObjectSnapshot
to_proto_snapshot snap = record {
  namespace = snap.namespace;
  kind = snap.kind;
  name = snap.name;
  uid = snap.uid;
  phase = snap.phase;
  labels = snap.labels;
  annotations = snap.annotations;
  owner_chain = to_proto_owner_chain snap.owner_chain;
  raw_status_json = snap.raw_status_json;
  container_statuses = to_proto_container_statuses snap.container_statuses;
  workload_conditions = to_proto_workload_conditions snap.workload_conditions;
}

-- `metricsapi.ContainerMetrics`, with what `MilliValue` and `Value` give of its usage.
pub record ContainerMetrics : Type 0 where
  pub name : String
  pub cpu_milli_value : ℕ
  pub memory_value : ℕ

-- `metricsapi.PodMetrics`
pub record PodMetrics : Type 0 where
  pub namespace : String
  pub name : String
  pub containers : List ContainerMetrics
  pub timestamp : Time

-- A metrics clientset: the calls that read one pod of a namespace, or all of them.
pub record Metrics : Type 0 where
  pub get : String → String → Result PodMetrics
  pub list : String → Result (List PodMetrics)

-- A value of the interface type of the metrics client: the nil interface, or one that holds a
-- pointer to a clientset, which may be nil itself.
pub data MetricsInterface : Type 0 where
  nil_interface : MetricsInterface
  holds : Option Metrics → MetricsInterface

-- `toPBContainerMetrics`
unfoldable pub to_pb_container_metrics : List ContainerMetrics → List PbContainerMetrics
to_pb_container_metrics [] = []
to_pb_container_metrics (c ∷ containers) =
    record { name = c.name; cpu_millicores = c.cpu_milli_value; memory_bytes = c.memory_value }
    ∷ to_pb_container_metrics containers

-- `GetLogs(...).Stream(...)`: the error of the call, or what copying the stream gives.
abbrev pub LogStream : Type 0
LogStream = String → String → String → ℕ → Result (Result String)

module _ (T : Timestamps) where
  open T use {Timestamp, new, as_time}

  -- `grpcServer`, with the orders in which the store ranges over its maps.
  pub record GrpcServer : Type 0 where
    pub store : Store
    pub enricher : Client
    pub objects : ObjectClient
    pub logs : LogStream
    pub metrics : MetricsInterface
    pub ids : Ranging ℕ
    pub reasons : Ranging String
    pub names : Ranging String

  -- The filter of `ListEvents`.
  abbrev pub list_filter : ListEventsRequest T → Filter
  list_filter req = record {
    namespace = req.namespace;
    object_uid = "";
    reason = req.reason;
    since = time_or_zero T req.since;
    limit = to_int req.limit;
  }

  -- `ListEvents`
  unfoldable pub list_events : GrpcServer → ListEventsRequest T → Result (List (PbEvent T))
  list_events s req = ok (to_proto_events T (query s.ids s.store (list_filter req)))

  abbrev pub namespace_filter : String → Filter
  namespace_filter namespace = record {
    namespace = namespace;
    object_uid = "";
    reason = "";
    since = 0;
    limit = 0;
  }

  -- The loop of `GetEventsForObject`.
  unfoldable pub match_events : String → String → List NormalizedEvent → List (PbEvent T)
  match_events kind name [] = []
  match_events kind name (e ∷ evs) =
      let rest = match_events kind name evs in
      if e.involved_object_kind == kind && e.involved_object_name == name
      then to_proto_event T e ∷ rest
      else rest

  -- `GetEventsForObject`
  unfoldable pub get_events_for_object : GrpcServer → ObjectRequest → Result (List (PbEvent T))
  get_events_for_object s req =
      ok (match_events req.kind req.name (query s.ids s.store (namespace_filter req.namespace)))

  -- The loop of `GetNamespaceSummary`.
  unfoldable pub to_proto_groups : List NamespaceSummary → List (PbGroup T)
  to_proto_groups [] = []
  to_proto_groups (g ∷ groups) =
      record {
        reason = g.reason;
        total_count = g.total_count;
        objects = g.objects;
        last_seen = some (new g.last_seen);
      }
      ∷ to_proto_groups groups

  -- `GetNamespaceSummary`
  unfoldable pub get_namespace_summary :
      GrpcServer → NamespaceSummaryRequest T → Result (List (PbGroup T))
  get_namespace_summary s req = ok (
      to_proto_groups (
        summarize_namespace s.ids s.reasons s.names s.store req.namespace
          (time_or_zero T req.since)))

  abbrev pub sent_chain : Walk → Result (List PbOwnerRef)
  sent_chain (chain, none) = ok (to_proto_owner_chain chain)
  sent_chain (chain, some e) = err e

  -- `ResolveOwnerChain`
  unfoldable pub server_owner_chain : GrpcServer → ObjectRequest → Result (List PbOwnerRef)
  server_owner_chain s req =
      sent_chain (resolve_owner_chain s.enricher req.namespace req.kind req.name)

  -- `GetObjectSnapshot`
  unfoldable pub server_snapshot : GrpcServer → ObjectRequest → Result (Option PbObjectSnapshot)
  server_snapshot s req = do
    snap ← get_object_snapshot s.objects s.enricher req.namespace req.kind req.name
    ok (some (to_proto_snapshot snap))

  abbrev pub effective_tail_lines : ℕ → ℕ
  effective_tail_lines lines =
      if is_pos (to_int lines) then to_int lines else default_log_tail_lines

  -- `GetContainerLogs`
  unfoldable pub get_container_logs :
      GrpcServer → ContainerLogsRequest → Result ContainerLogsResponse
  get_container_logs s req = do
    stream ← s.logs req.namespace req.pod req.container (effective_tail_lines req.tail_lines)
    copied ← stream
    ok (record { pod = req.pod; container = req.container; logs = copied })

  -- `podMetricsToPB` on the parts of one pod's metrics.
  abbrev pub pod_metrics_to_pb : PodMetrics → PbPodMetrics T
  pod_metrics_to_pb m = record {
    namespace = m.namespace;
    pod = m.name;
    containers = to_pb_container_metrics m.containers;
    timestamp = some (new m.timestamp);
  }

  -- The loop of `GetPodMetrics`.
  unfoldable pub all_pod_metrics : List PodMetrics → List (PbPodMetrics T)
  all_pod_metrics [] = []
  all_pod_metrics (m ∷ items) = pod_metrics_to_pb m ∷ all_pod_metrics items

  -- `GetPodMetrics` behind the test of the client.
  unfoldable pub read_pod_metrics : Metrics → PodMetricsRequest → Result (List (PbPodMetrics T))
  read_pod_metrics client req =
      if not (req.pod == "")
      then (do m ← client.get req.namespace req.pod; ok (pod_metrics_to_pb m ∷ []))
      else (do items ← client.list req.namespace; ok (all_pod_metrics items))

  -- `GetPodMetrics`; `none` is a panic, which a method call on a nil clientset is.
  unfoldable pub get_pod_metrics :
      GrpcServer → PodMetricsRequest → Option (Result (List (PbPodMetrics T)))
  get_pod_metrics s req = elim s.metrics [
    | nil_interface ↦ some (ok [])
    | holds none ↦ none
    | holds (some client) ↦ some (read_pod_metrics client req)
  ]

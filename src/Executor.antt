-- ===== src/Executor.antt =====
-- internal/app/coordinator/executor.go: the steps of a plan are run against a cluster agent.
pub mod Partial
pub mod Planned
use mcp_k8s.Base.{String, none, some, List, [], ◌∷◌, ◌++◌, num_keys, text_keys, to_int32}
use Prim.Native.String.{◌++◌ as text_append}
use mcp_k8s.Base.Result.{Result, ◌>>=◌, ok, err}
use mcp_k8s.Event.{NormalizedEvent}
use mcp_k8s.Planner.{
  Method, list_events, get_events_for_object, get_namespace_summary, resolve_owner_chain,
  get_object_snapshot, get_container_logs, get_pod_metrics, other, Step, Plan,
}
use mcp_k8s.Proto.{Timestamps, PbOwnerRef, PbGroup, from_proto_events, to_timestamp_pb}
use mcp_k8s.Messages.{
  PbObjectSnapshot, PbPodMetrics, ListEventsRequest, NamespaceSummaryRequest, ObjectRequest,
  ContainerLogsRequest, AgentClient,
}

pub record ContainerLogEntry : Type 0 where
  pub pod : String
  pub container : String
  pub logs : String

abbrev pub method_name : Method → String
method_name list_events = "ListEvents"
method_name get_events_for_object = "GetEventsForObject"
method_name get_namespace_summary = "GetNamespaceSummary"
method_name resolve_owner_chain = "ResolveOwnerChain"
method_name get_object_snapshot = "GetObjectSnapshot"
method_name get_container_logs = "GetContainerLogs"
method_name get_pod_metrics = "GetPodMetrics"
method_name (other name) = name

abbrev pub object_request : Step → ObjectRequest
object_request s = record { namespace = s.namespace; kind = s.kind; name = s.name }

module _ (T : Timestamps) where
  pub record ExecutionResult : Type 0 where
    pub events : List NormalizedEvent
    pub snapshots : List PbObjectSnapshot
    pub chains : List (List PbOwnerRef)
    pub namespace_summaries : List (PbGroup T)
    pub container_logs : List ContainerLogEntry
    pub pod_metrics : List (PbPodMetrics T)
    pub step_errors : List String

  abbrev pub empty_result : ExecutionResult
  empty_result = record {
    events = [];
    snapshots = [];
    chains = [];
    namespace_summaries = [];
    container_logs = [];
    pod_metrics = [];
    step_errors = [];
  }

  abbrev pub list_request : Step → ListEventsRequest T
  list_request s = record {
    namespace = s.namespace;
    reason = s.reason;
    since = to_timestamp_pb T s.since;
    limit = to_int32 s.limit;
  }

  abbrev pub summary_request : Step → NamespaceSummaryRequest T
  summary_request s = record { namespace = s.namespace; since = to_timestamp_pb T s.since }

  abbrev pub logs_request : Step → ContainerLogsRequest
  logs_request s = record {
    namespace = s.namespace;
    pod = s.name;
    container = s.container;
    tail_lines = s.tail_lines;
  }

  -- The switch of `runStep` over the method.
  unfoldable pub run_method :
      AgentClient T → Method → Step → ExecutionResult → Result ExecutionResult
  run_method client list_events s r = do
    evs ← client.list_events (list_request s)
    ok (record r { events = r.events ++ from_proto_events T evs })
  run_method client get_events_for_object s r = do
    evs ← client.get_events_for_object (object_request s)
    ok (record r { events = r.events ++ from_proto_events T evs })
  run_method client get_namespace_summary s r = do
    groups ← client.get_namespace_summary (summary_request s)
    ok (record r { namespace_summaries = r.namespace_summaries ++ groups })
  run_method client resolve_owner_chain s r = do
    chain ← client.resolve_owner_chain (object_request s)
    ok (record r { chains = r.chains ++ chain ∷ [] })
  run_method client get_object_snapshot s r = do
    snapshot ← client.get_object_snapshot (object_request s)
    ok (elim snapshot [ none ↦ r | some snap ↦ record r { snapshots = r.snapshots ++ snap ∷ [] } ])
  run_method client get_container_logs s r = do
    resp ← client.get_container_logs (logs_request s)
    ok (record r {
      container_logs =
          r.container_logs
          ++ record { pod = resp.pod; container = resp.container; logs = resp.logs } ∷ [];
    })
  run_method client get_pod_metrics s r = do
    pods ← client.get_pod_metrics (record { namespace = s.namespace; pod = s.name })
    ok (record r { pod_metrics = r.pod_metrics ++ pods })
  run_method client (other name) s r = err (text_append "unknown method: " name)

  -- `runStep`
  unfoldable pub run_step : AgentClient T → Step → ExecutionResult → Result ExecutionResult
  unfolding run_method
  run_step client s r = run_method client s.method s r

  abbrev pub step_failure : Step → String → String
  step_failure s why =
      text_append "step " (text_append (method_name s.method) (text_append " failed: " why))

  abbrev pub collect : Step → ExecutionResult → Result ExecutionResult → ExecutionResult
  collect s r (ok r') = r'
  collect s r (err why) = record r { step_errors = r.step_errors ++ step_failure s why ∷ [] }

  -- The loop of `Execute`.
  unfoldable pub run_steps : AgentClient T → List Step → ExecutionResult → ExecutionResult
  run_steps client [] r = r
  run_steps client (s ∷ steps) r = run_steps client steps (collect s r (run_step client s r))

  -- `Execute`, with what the registry answers for the cluster; `quote` is the verb `%q`.
  unfoldable pub execute :
      (String → String) → Result (AgentClient T) → Plan → Result ExecutionResult
  execute quote found p = elim found [
    | err why ↦
        err (
          text_append "get client for " (text_append (quote p.cluster_name) (text_append ": " why)))
    | ok client ↦ ok (run_steps client p.steps empty_result)
  ]

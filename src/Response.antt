-- ===== src/Response.antt =====
-- internal/app/coordinator/response.go: the timeline and the collected data as the lines of a
-- response. A slice that the source leaves nil is the empty list.
pub mod Objects
use mcp_k8s.Base.{
  Bytes, ℕ, ◌-◌, String, Bool, List, [], ◌∷◌, map, if◌then◌else◌, num_keys, text_keys, length,
  contains, add_key, Ranging,
}
use Prim.Native.String.{◌++◌ as text_append}
use mcp_k8s.Event.{Time}
use mcp_k8s.Correlation.{CorrelatedEvent, Timeline}
use mcp_k8s.Proto.{Timestamps, PbGroup, time_or_zero}
use mcp_k8s.Messages.{
  PbContainerStatus, PbWorkloadCondition, PbObjectSnapshot, PbContainerMetrics, PbPodMetrics,
}
use mcp_k8s.Executor.{ContainerLogEntry, ExecutionResult}

pub data ResponseMode : Type 0 where
  technical concise incident_summary : ResponseMode

pub record NamespaceSummaryLine : Type 0 where
  pub reason : String
  pub total_count : ℕ
  pub objects : List String
  pub last_seen : Time

pub record ContainerStatusLine : Type 0 where
  pub name : String
  pub ready : Bool
  pub restart_count : ℕ
  pub state : String
  pub reason : String
  pub last_termination_exit_code : ℕ
  pub last_termination_reason : String
  pub last_termination_message : Bytes

pub record WorkloadConditionLine : Type 0 where
  pub type : String
  pub status : String
  pub reason : String
  pub message : String

pub record SnapshotLine : Type 0 where
  pub kind : String
  pub name : String
  pub namespace : String
  pub phase : String
  pub container_statuses : List ContainerStatusLine
  pub workload_conditions : List WorkloadConditionLine

pub record ContainerLogLine : Type 0 where
  pub pod : String
  pub container : String
  pub logs : String

pub record ContainerMetricsLine : Type 0 where
  pub name : String
  pub cpu_millicores : ℕ
  pub memory_bytes : ℕ

pub record PodMetricsLine : Type 0 where
  pub namespace : String
  pub pod : String
  pub containers : List ContainerMetricsLine
  pub timestamp : Time

pub record EventLine : Type 0 where
  pub time : Time
  pub namespace : String
  pub object : String
  pub reason : String
  pub message : String
  pub count : ℕ
  pub is_root_cause : Bool
  pub caused_by : String
  pub group_id : String

pub record Response : Type 0 where
  pub cluster_name : String
  pub mode : ResponseMode
  pub namespace_summary : List NamespaceSummaryLine
  pub timeline : List EventLine
  pub root_causes : List EventLine
  pub affected_objects : List String
  pub snapshots : List SnapshotLine
  pub container_logs : List ContainerLogLine
  pub pod_metrics : List PodMetricsLine
  pub summary : String
  pub warnings : List String

-- `ce.InvolvedObjectKind + "/" + ce.InvolvedObjectName`
abbrev pub object_of : CorrelatedEvent → String
object_of ce =
    text_append ce.event.involved_object_kind (text_append "/" ce.event.involved_object_name)

abbrev pub to_event_line : CorrelatedEvent → EventLine
to_event_line ce = record {
  time = ce.event.last_seen;
  namespace = ce.event.namespace;
  object = object_of ce;
  reason = ce.event.reason;
  message = ce.event.message;
  count = ce.event.count;
  is_root_cause = ce.is_root_cause;
  caused_by = ce.caused_by;
  group_id = ce.group_id;
}

-- `toEventLines`
unfoldable pub to_event_lines : List CorrelatedEvent → List EventLine
to_event_lines ces = map to_event_line ces

-- The set that `affectedObjects` collects.
unfoldable pub seen_objects : List String → List CorrelatedEvent → List String
seen_objects seen [] = seen
seen_objects seen (ce ∷ ces) = seen_objects (add_key (object_of ce) seen) ces

-- `affectedObjects`; the set is ranged over in an order that Go leaves open.
unfoldable pub affected_objects : Ranging String → Timeline → List String
affected_objects r tl = r.order (seen_objects [] tl.events)

abbrev pub to_container_status_line : PbContainerStatus → ContainerStatusLine
to_container_status_line cs = record {
  name = cs.name;
  ready = cs.ready;
  restart_count = cs.restart_count;
  state = cs.state;
  reason = cs.reason;
  last_termination_exit_code = cs.last_termination_exit_code;
  last_termination_reason = cs.last_termination_reason;
  last_termination_message = cs.last_termination_message;
}

abbrev pub to_workload_condition_line : PbWorkloadCondition → WorkloadConditionLine
to_workload_condition_line wc = record {
  type = wc.type;
  status = wc.status;
  reason = wc.reason;
  message = wc.message;
}

abbrev pub to_snapshot_line : PbObjectSnapshot → SnapshotLine
to_snapshot_line s = record {
  kind = s.kind;
  name = s.name;
  namespace = s.namespace;
  phase = s.phase;
  container_statuses = map to_container_status_line s.container_statuses;
  workload_conditions = map to_workload_condition_line s.workload_conditions;
}

-- `toSnapshotLines`
unfoldable pub to_snapshot_lines : List PbObjectSnapshot → List SnapshotLine
to_snapshot_lines snaps = map to_snapshot_line snaps

-- `toContainerLogLines`
unfoldable pub to_container_log_lines : List ContainerLogEntry → List ContainerLogLine
to_container_log_lines logs =
    map (λ l. record { pod = l.pod; container = l.container; logs = l.logs }) logs

abbrev pub to_container_metrics_line : PbContainerMetrics → ContainerMetricsLine
to_container_metrics_line c = record {
  name = c.name;
  cpu_millicores = c.cpu_millicores;
  memory_bytes = c.memory_bytes;
}

-- The distinct reasons of the root causes, in order of appearance.
unfoldable pub root_reasons : List String → List CorrelatedEvent → List String
root_reasons seen [] = []
root_reasons seen (rc ∷ rcs) =
    let rest = root_reasons seen rcs in
    let more = root_reasons (rc.event.reason ∷ seen) rcs in
    if contains rc.event.reason seen then rest else rc.event.reason ∷ more

-- `strings.Join(parts, ", ")`
abbrev pub join_more : String → List String → String
join_more text [] = text
join_more text (part ∷ parts) = join_more (text_append text (text_append ", " part)) parts

abbrev pub join : List String → String
join [] = ""
join (part ∷ parts) = join_more part parts

abbrev pub text : List String → String
text [] = ""
text (part ∷ parts) = text_append part (text parts)

-- `show` is the verb `%d`; the number of further events is an int that may be negative only when
-- there are more root causes than events. The set of objects is ranged over twice, once for the
-- list and once for the summary.
module _ (show : ℕ → String) (r for_summary : Ranging String) where
  abbrev pub summary_of : List CorrelatedEvent → List CorrelatedEvent → List String → String
  summary_of [] root_causes objects = "No events found for the given query."
  summary_of (e ∷ events) [] objects =
      text ("Found " ∷ show (length (e ∷ events)) ∷ " events; no clear root cause identified." ∷ [])
  summary_of (e ∷ events) (rc ∷ root_causes) objects = text (
      "Detected "
      ∷ show (length (e ∷ events))
      ∷ " events across "
      ∷ show (length objects)
      ∷ " object(s). Probable root cause(s): "
      ∷ join (root_reasons [] (rc ∷ root_causes))
      ∷ ". Downstream effects: "
      ∷ show (length (e ∷ events) - length (rc ∷ root_causes))
      ∷ " additional event(s) observed. Affected: "
      ∷ join objects
      ∷ "."
      ∷ [])

  -- `summarise`
  unfoldable pub summarise : Timeline → String
  summarise tl = summary_of tl.events tl.root_causes (affected_objects for_summary tl)

  module _ (T : Timestamps) where
    -- `toNamespaceSummaryLines`
    unfoldable pub to_namespace_summary_lines : List (PbGroup T) → List NamespaceSummaryLine
    to_namespace_summary_lines groups =
        map
          (λ g. record {
            reason = g.reason;
            total_count = g.total_count;
            objects = g.objects;
            last_seen = time_or_zero T g.last_seen;
          })
          groups

    -- `toPodMetricsLines`
    unfoldable pub to_pod_metrics_lines : List (PbPodMetrics T) → List PodMetricsLine
    to_pod_metrics_lines pods =
        map
          (λ p. record {
            namespace = p.namespace;
            pod = p.pod;
            containers = map to_container_metrics_line p.containers;
            timestamp = time_or_zero T p.timestamp;
          })
          pods

    -- The response before the switch of `Build` over the mode.
    abbrev pub base_response : String → ResponseMode → ExecutionResult T → Response
    base_response cluster_name mode result = record {
      cluster_name = cluster_name;
      mode = mode;
      namespace_summary = to_namespace_summary_lines result.namespace_summaries;
      timeline = [];
      root_causes = [];
      affected_objects = [];
      snapshots = to_snapshot_lines result.snapshots;
      container_logs = to_container_log_lines result.container_logs;
      pod_metrics = to_pod_metrics_lines result.pod_metrics;
      summary = "";
      warnings = result.step_errors;
    }

    -- `Build`
    unfoldable pub build : String → ResponseMode → Timeline → ExecutionResult T → Response
    build cluster_name concise tl result = record (base_response cluster_name concise result) {
      root_causes = to_event_lines tl.root_causes;
      summary = summarise tl;
    }
    build cluster_name incident_summary tl result =
        record (base_response cluster_name incident_summary result) {
          timeline = to_event_lines tl.events;
          root_causes = to_event_lines tl.root_causes;
          affected_objects = affected_objects r tl;
          summary = summarise tl;
        }
    build cluster_name technical tl result = record (base_response cluster_name technical result) {
      timeline = to_event_lines tl.events;
      root_causes = to_event_lines tl.root_causes;
      affected_objects = affected_objects r tl;
    }

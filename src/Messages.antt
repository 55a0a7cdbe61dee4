-- ===== src/Messages.antt =====
-- The requests and the other messages of proto/clusteragent.proto, and the client interface
-- that the coordinator calls. `map<string, string>` is a list of pairs.
use mcp_k8s.Base.{Bytes, ℕ, String, Bool, Option, List, num_keys, text_keys}
use mcp_k8s.Base.Result.{Result}
use mcp_k8s.Proto.{Timestamps, PbOwnerRef, PbEvent, PbGroup}

pub record ObjectRequest : Type 0 where
  pub namespace : String
  pub kind : String
  pub name : String

pub record ContainerLogsRequest : Type 0 where
  pub namespace : String
  pub pod : String
  pub container : String
  pub tail_lines : ℕ

pub record ContainerLogsResponse : Type 0 where
  pub pod : String
  pub container : String
  pub logs : String

pub record PodMetricsRequest : Type 0 where
  pub namespace : String
  pub pod : String

pub record PbContainerStatus : Type 0 where
  pub name : String
  pub ready : Bool
  pub restart_count : ℕ
  pub state : String
  pub reason : String
  pub last_termination_exit_code : ℕ
  pub last_termination_reason : String
  pub last_termination_message : Bytes

pub record PbWorkloadCondition : Type 0 where
  pub type : String
  pub status : String
  pub reason : String
  pub message : String

pub record PbObjectSnapshot : Type 0 where
  pub namespace : String
  pub kind : String
  pub name : String
  pub uid : String
  pub phase : String
  pub labels : List (String × String)
  pub annotations : List (String × String)
  pub owner_chain : List PbOwnerRef
  pub raw_status_json : String
  pub container_statuses : List PbContainerStatus
  pub workload_conditions : List PbWorkloadCondition

pub record PbContainerMetrics : Type 0 where
  pub name : String
  pub cpu_millicores : ℕ
  pub memory_bytes : ℕ

module _ (T : Timestamps) where
  open T use {Timestamp}

  pub record ListEventsRequest : Type 0 where
    pub namespace : String
    pub reason : String
    pub since : Option Timestamp
    pub limit : ℕ

  pub record NamespaceSummaryRequest : Type 0 where
    pub namespace : String
    pub since : Option Timestamp

  pub record PbPodMetrics : Type 0 where
    pub namespace : String
    pub pod : String
    pub containers : List PbContainerMetrics
    pub timestamp : Option Timestamp

  -- `pb.ClusterAgentServiceClient`
  pub record AgentClient : Type 0 where
    pub list_events : ListEventsRequest → Result (List (PbEvent T))
    pub get_events_for_object : ObjectRequest → Result (List (PbEvent T))
    pub get_namespace_summary : NamespaceSummaryRequest → Result (List (PbGroup T))
    pub resolve_owner_chain : ObjectRequest → Result (List PbOwnerRef)
    pub get_object_snapshot : ObjectRequest → Result (Option PbObjectSnapshot)
    pub get_container_logs : ContainerLogsRequest → Result ContainerLogsResponse
    pub get_pod_metrics : PodMetricsRequest → Result (List PbPodMetrics)

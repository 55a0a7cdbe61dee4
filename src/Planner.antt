-- ===== src/Planner.antt =====
-- pkg/planner: a query becomes an ordered plan of calls of the cluster agent.
pub mod Steps
use mcp_k8s.Base.{
  ℕ, String, not, ◌&&◌, ◌||◌, List, [], ◌∷◌, if◌then◌else◌, ◌==◌, num_keys, text_keys,
}
use mcp_k8s.Base.Result.{Result, ◌>>=◌, ok, err}
use mcp_k8s.Event.{Time}

pub data Intent : Type 0 where
  unknown namespace_overview explain_object_issue explain_restarts build_timeline : Intent

pub record Query : Type 0 where
  pub cluster_name : String
  pub namespace : String
  pub object_kind : String
  pub object_name : String
  pub reason : String
  pub since : Time
  pub limit : ℕ
  pub intent : Intent

-- A method is a string in the source; `other` stands for any that is none of the constants.
pub data Method : Type 0 where
  list_events get_events_for_object get_namespace_summary resolve_owner_chain : Method
  get_object_snapshot get_container_logs get_pod_metrics : Method
  other : String → Method

pub record Step : Type 0 where
  pub method : Method
  pub namespace : String
  pub kind : String
  pub name : String
  pub container : String
  pub tail_lines : ℕ
  pub reason : String
  pub since : Time
  pub limit : ℕ

pub record Plan : Type 0 where
  pub cluster_name : String
  pub steps : List Step

-- A step with every field but the method at its zero value.
abbrev pub step_of : Method → Step
step_of m = record {
  method = m;
  namespace = "";
  kind = "";
  name = "";
  container = "";
  tail_lines = 0;
  reason = "";
  since = 0;
  limit = 0;
}

unfoldable pub namespace_overview_steps : Query → List Step
namespace_overview_steps q =
    record (step_of get_namespace_summary) { namespace = q.namespace; since = q.since }
    ∷ record (step_of list_events) { namespace = q.namespace; since = q.since; limit = q.limit }
    ∷ []

abbrev pub object_step : Query → Method → Step
object_step q m = record (step_of m) {
  namespace = q.namespace;
  kind = q.object_kind;
  name = q.object_name;
}

unfoldable pub explain_object_issue_steps : Query → Result (List Step)
explain_object_issue_steps q =
    if q.object_kind == "" || q.object_name == ""
    then err "IntentExplainObjectIssue requires ObjectKind and ObjectName"
    else ok (
        object_step q get_events_for_object
        ∷ object_step q resolve_owner_chain
        ∷ object_step q get_object_snapshot
        ∷ [])

abbrev pub restart_reasons : List String
restart_reasons = "BackOff" ∷ "OOMKilling" ∷ "Failed" ∷ "Unhealthy" ∷ "FailedMount" ∷ []

unfoldable pub restart_steps : Query → List String → List Step
restart_steps q [] = []
restart_steps q (reason ∷ reasons) =
    record (step_of list_events) { namespace = q.namespace; reason = reason; since = q.since }
    ∷ restart_steps q reasons

unfoldable pub explain_restarts_steps : Query → List Step
unfolding restart_steps
explain_restarts_steps q =
    record (step_of get_namespace_summary) { namespace = q.namespace; since = q.since }
    ∷ restart_steps q restart_reasons

unfoldable pub build_timeline_steps : Query → List Step
build_timeline_steps q =
    record (step_of list_events) {
      namespace = q.namespace;
      reason = q.reason;
      since = q.since;
      limit = q.limit;
    }
    ∷ []

unfoldable pub heuristic : Query → Result (List Step)
unfolding explain_object_issue_steps namespace_overview_steps
heuristic q =
    if not (q.object_kind == "") && not (q.object_name == "")
    then explain_object_issue_steps q
    else if not (q.namespace == "")
    then ok (namespace_overview_steps q)
    else err "cannot build plan: provide at least a Namespace or ObjectKind+ObjectName"

-- The switch of `Plan` over the intent.
unfoldable pub steps_for : Query → Intent → Result (List Step)
unfolding namespace_overview_steps explain_object_issue_steps explain_restarts_steps
    build_timeline_steps heuristic
steps_for q namespace_overview = ok (namespace_overview_steps q)
steps_for q explain_object_issue = explain_object_issue_steps q
steps_for q explain_restarts = ok (explain_restarts_steps q)
steps_for q build_timeline = ok (build_timeline_steps q)
steps_for q unknown = heuristic q

-- `Plan`
unfoldable pub plan : Query → Result Plan
plan q = if q.cluster_name == "" then err "ClusterName is required" else do
  steps ← steps_for q q.intent
  ok (record { cluster_name = q.cluster_name; steps = steps })

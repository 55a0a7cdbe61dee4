-- ===== src/Gateway/Planned.antt =====
-- `handleQuery` of internal/app/coordinator/gateway.go for a request that has a plan.
use Prim.Native.String.{String}
use mathlib.Core.Bool.{false}
use mathlib.Core.List.{List}
use mathlib.Core.Path.{◌≡◌, ap}
use mcp_k8s.Base.{◌==◌, text_keys}
use mcp_k8s.Base.Result.{Result, ok}
use mcp_k8s.Event.{NormalizedEvent, Time}
use mcp_k8s.Planner.{Plan, plan}
use mcp_k8s.Correlation.{Timeline}
use mcp_k8s.Proto.{Timestamps}
use mcp_k8s.Messages.{AgentClient}
use mcp_k8s.Executor.{ExecutionResult, empty_result, run_steps, execute}
use mcp_k8s.Response.{ResponseMode, Response}
use mcp_k8s.Gateway.{
  QueryRequest, Reply, response_body, parse_mode, to_query, answer_status, answer, handle_query,
}

module _ (T : Timestamps) (quote : String → String) (clients : String → Result (AgentClient T))
    (timeline_of : List NormalizedEvent → Timeline)
    (build_with : String → ResponseMode → Timeline → ExecutionResult T → Response) where
  -- The reply to a request with this result.
  abbrev pub reply_of : QueryRequest → ExecutionResult T → Reply
  reply_of req r = record {
    status = answer_status r;
    body =
        response_body (build_with req.cluster_name (parse_mode req.mode) (timeline_of r.events) r);
  }

  -- A request whose cluster is named and has a client, and which has a plan, is answered from the
  -- result of the steps of the plan.
  pub handle_query-run_steps :
      (now : Time) (req : QueryRequest) (p : Plan) (client : AgentClient T) (r : ExecutionResult T)
      → (req.cluster_name == "") ≡ false
      → plan (to_query now req) ≡ ok p
      → clients p.cluster_name ≡ ok client
      → run_steps T client p.steps (empty_result T) ≡ r
      → handle_query T quote clients timeline_of build_with now (ok req) ≡ reply_of req r
  unfolding handle_query answer execute
  handle_query-run_steps now req p client r named planned found ran =
      rw (handle_query, named, answer, planned, execute, found) (ap (reply_of req) ran)

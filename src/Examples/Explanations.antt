-- ===== src/Examples/Explanations.antt =====
-- Examples of queries about an object, about restarts, and about a namespace.
use Prim.Native.String.{String}
use mathlib.Core.Bool.{not, ◌&&◌}
use mathlib.Core.List.{List, [], Perm, map}
use mathlib.Core.Path.{◌≡◌, refl}
use mcp_k8s.Base.{arith, num_keys, take, keep, in_order, text_keys, if◌then◌else◌}
use mcp_k8s.Base.Result.{Result, ok}
use mcp_k8s.Event.{NormalizedEvent, OldestFirst}
use mcp_k8s.Correlation.{Timeline}
use mcp_k8s.Correlation.Complete.{event_of}
use mcp_k8s.Messages.{AgentClient}
use mcp_k8s.Executor.{ExecutionResult}
use mcp_k8s.Agent.Answers.{client_of}
use mcp_k8s.Planner.{explain_object_issue, explain_restarts, restart_reasons}
use mcp_k8s.Gateway.{
  QueryRequest, since_of, is_nil, response_body, parse_intent, parse_mode, handle_query,
}
use mcp_k8s.Coordinator.Explanations.{
  stored_about, state_of, arrives, handle_query-explain_object_issue,
}
use mcp_k8s.Examples.{
  nanoseconds, causes, timeline_of, build_with, pod_request, full_store, full_store-IsValid,
}
use mcp_k8s.Store.Answers.{stored, matches}
use mcp_k8s.Store.Sorting.{IsNewestFirst}
use mathlib.Core.Logic.{inr}
use mcp_k8s.Coordinator.Overviews.{IsOverview, overview_filter, handle_query-namespace_overview}
use mcp_k8s.Store.Reasons.{is_one_of}
use mcp_k8s.Coordinator.PodRestarts.{groups_of, handle_query-explain_restarts}
use mcp_k8s.Examples.Orders.{insertion}
use mcp_k8s.Examples.Agents.{server, perfect}

abbrev connected : String → Result (AgentClient nanoseconds)
connected name = ok (client_of nanoseconds perfect server)

pod_request-intent : parse_intent "ExplainObjectIssue" ≡ explain_object_issue
unfolding parse_intent
pod_request-intent = refl

handle_query-explain_object_issue_example :
    (tl : Timeline) × (result : ExecutionResult nanoseconds) × Perm
      (map event_of tl.events)
      (stored_about nanoseconds perfect server pod_request)
    × OldestFirst (λ ce. ce.event.last_seen) tl.events
    × (handle_query nanoseconds (λ s. s) connected timeline_of build_with 0 (ok pod_request)
        ≡ record {
          status =
              if is_nil (stored_about nanoseconds perfect server pod_request)
                && not (
                    arrives nanoseconds perfect server
                      (state_of nanoseconds perfect server pod_request))
              then 207
              else 200;
          body = response_body (build_with "prod" (parse_mode "concise") tl result);
        })
handle_query-explain_object_issue_example =
    handle_query-explain_object_issue nanoseconds perfect (λ s. s) connected build_with causes
      (insertion λ e. e.last_seen) (insertion λ ce. ce.event.last_seen) in_order server 0
      pod_request full_store-IsValid refl refl refl refl pod_request-intent

abbrev restarts_request : QueryRequest
restarts_request = record pod_request { intent = "ExplainRestarts"; since_minutes = 30 }

restarts_request-intent : parse_intent "ExplainRestarts" ≡ explain_restarts
unfolding parse_intent
restarts_request-intent = refl

handle_query-explain_restarts_example :
    let since = since_of 1_801_000_000_000 30 in
    (tl : Timeline) × (result : ExecutionResult nanoseconds) × Perm
      (map event_of tl.events)
      (keep (is_one_of "shop" since restart_reasons) (stored full_store.by_id))
    × OldestFirst (λ ce. ce.event.last_seen) tl.events
    × (result.namespace_summaries
        ≡ groups_of nanoseconds perfect server 1_801_000_000_000 restarts_request)
    × (result.step_errors ≡ [])
    × (handle_query nanoseconds
          (λ s. s)
          connected
          timeline_of
          build_with
          1_801_000_000_000
          (ok restarts_request)
        ≡ record {
          status = 200;
          body = response_body (build_with "prod" (parse_mode "concise") tl result);
        })
handle_query-explain_restarts_example =
    handle_query-explain_restarts nanoseconds perfect (λ s. s) connected build_with causes
      (insertion λ e. e.last_seen) (insertion λ ce. ce.event.last_seen) in_order server
      1_801_000_000_000 restarts_request full_store-IsValid refl refl restarts_request-intent

-- A request with a namespace, no intent and no object.
abbrev overview_request : QueryRequest
overview_request = record pod_request { intent = ""; object_kind = ""; object_name = ""; limit = 1 }

overview_request-IsOverview : IsOverview overview_request
unfolding parse_intent
overview_request-IsOverview = inr (refl, refl, refl)

handle_query-namespace_overview_example :
    (all : List NormalizedEvent) × (tl : Timeline) × (result : ExecutionResult nanoseconds) × Perm
      all
      (keep (matches (overview_filter 0 overview_request)) (stored full_store.by_id))
    × IsNewestFirst all
    × Perm (map event_of tl.events) (take 1 all)
    × OldestFirst (λ ce. ce.event.last_seen) tl.events
    × (result.namespace_summaries ≡ groups_of nanoseconds perfect server 0 overview_request)
    × (result.step_errors ≡ [])
    × (handle_query nanoseconds (λ s. s) connected timeline_of build_with 0 (ok overview_request)
        ≡ record {
          status = 200;
          body = response_body (build_with "prod" (parse_mode "concise") tl result);
        })
handle_query-namespace_overview_example =
    handle_query-namespace_overview nanoseconds perfect (λ s. s) connected build_with causes
      (insertion λ e. e.last_seen) (insertion λ ce. ce.event.last_seen) in_order server 0
      overview_request full_store-IsValid refl refl overview_request-IsOverview (omega arith)

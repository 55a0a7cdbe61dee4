-- ===== src/Examples/Queries.antt =====
-- Examples of a plan, its execution, and the correlation and summary of what it finds.
use mcp_k8s.Examples.Orders.{insertion}
use mcp_k8s.Correlation.{annotate_group, Timeline, correlate}
use mcp_k8s.Correlation.Explained.{AreExplained, annotate_group-AreExplained}
use mcp_k8s.Correlation.Complete.{event_of, correlate_lem}
use mcp_k8s.Event.{OldestFirst}
use mcp_k8s.Response.{affected_objects}
use mcp_k8s.Response.Objects.{objects_of, affected_objects_lem}
use mcp_k8s.Base.{
  contains, NoRepeat, map, String, ◌≤◌, ◌≡◌, refl, ◌≢◌, true, List, [], ◌∷◌, Perm, num_keys,
  text_keys, length, keep, All, in_order,
}
use mcp_k8s.Base.Result.{ok, is_ok}
use mcp_k8s.Event.{NormalizedEvent, dedup_keys}
use mcp_k8s.Planner.{
  Method, unknown, Query, Plan, plan, steps_for, heuristic, step_of, object_step, list_events,
  explain_object_issue_steps,
}
use mcp_k8s.Planner.Steps.{IsStepOf, plan-is_ok, plan-steps}
use mcp_k8s.Enrichment.{resolve_owner_chain, max_chain_depth}
use mcp_k8s.Enrichment.Chain.{IsChain, resolve_owner_chain-IsChain}
use mcp_k8s.Executor.{empty_result, run_steps}
use mcp_k8s.Executor.Partial.{joined, joined_all, run_steps-joined_all}
use mcp_k8s.Examples.{back_off, api, nanoseconds, agent, causes}

abbrev pod_query : Query
pod_query = record {
  cluster_name = "prod";
  namespace = "shop";
  object_kind = "Pod";
  object_name = "cart-1";
  reason = "";
  since = 0;
  limit = 0;
  intent = unknown;
}

abbrev pod_plan : Plan
pod_plan = record {
  cluster_name = "prod";
  steps =
      object_step pod_query Method.get_events_for_object
      ∷ object_step pod_query Method.resolve_owner_chain
      ∷ object_step pod_query Method.get_object_snapshot
      ∷ [];
}

pod_query_planned : plan pod_query ≡ ok pod_plan
unfolding plan steps_for heuristic explain_object_issue_steps
pod_query_planned = refl

plan-is_ok_example : is_ok (plan pod_query) ≡ true
plan-is_ok_example = plan-is_ok pod_query

plan-steps_example :
    (pod_plan.cluster_name ≡ pod_query.cluster_name)
    × All (IsStepOf pod_query) pod_plan.steps
    × (pod_plan.steps ≢ [])
plan-steps_example = plan-steps pod_query pod_plan pod_query_planned

resolve_owner_chain-IsChain_example :
    IsChain api "shop" max_chain_depth "Pod" "cart-1"
      (resolve_owner_chain api "shop" "Pod" "cart-1").0
      (resolve_owner_chain api "shop" "Pod" "cart-1").1
    × (length (resolve_owner_chain api "shop" "Pod" "cart-1").0 ≤ max_chain_depth)
resolve_owner_chain-IsChain_example = resolve_owner_chain-IsChain api "shop" "Pod" "cart-1"

run_steps-joined_all_example :
    run_steps nanoseconds agent (step_of list_events ∷ pod_plan.steps) (empty_result nanoseconds)
    ≡ joined nanoseconds
        (empty_result nanoseconds)
        (joined_all nanoseconds agent (step_of list_events ∷ pod_plan.steps))
run_steps-joined_all_example =
    run_steps-joined_all nanoseconds agent (step_of list_events ∷ pod_plan.steps)
      (empty_result nanoseconds)

-- The image error of the pod comes before its back-off.
abbrev image_error : NormalizedEvent
image_error = record back_off { reason = "ErrImagePull"; last_seen = 1_500_000_000 }

abbrev pod_events : List NormalizedEvent
pod_events = back_off ∷ image_error ∷ []

abbrev pub pod_timeline : Timeline
pod_timeline =
    correlate causes (insertion λ e. e.last_seen) (insertion λ ce. ce.event.last_seen) in_order
      pod_events

correlate_lem_example :
    Perm (map event_of pod_timeline.events) pod_events
    × OldestFirst (λ ce. ce.event.last_seen) pod_timeline.events
    × (pod_timeline.root_causes ≡ keep (λ ce. ce.is_root_cause) pod_timeline.events)
correlate_lem_example =
    correlate_lem causes (insertion λ e. e.last_seen) (insertion λ ce. ce.event.last_seen) in_order
      pod_events

annotate_group-AreExplained_example :
    AreExplained causes [] (annotate_group causes "u1" (image_error ∷ back_off ∷ []))
annotate_group-AreExplained_example =
    annotate_group-AreExplained in_order "u1" (image_error ∷ back_off ∷ [])

affected_objects_lem_example :
    (objects : List String) × Perm (affected_objects in_order pod_timeline) objects
    × NoRepeat objects
    × ((k : String) → contains k objects ≡ contains k (objects_of pod_timeline.events))
affected_objects_lem_example = affected_objects_lem in_order pod_timeline

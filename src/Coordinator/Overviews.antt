-- ===== src/Coordinator/Overviews.antt =====
-- A query for the overview of a namespace from the gateway of internal/app/coordinator to the store of
-- internal/app/clusteragent.
use Prim.Native.Nat.{◌^◌, ◌<◌}
use Prim.Native.String.{String}
use mathlib.Core.Bool.{false, not, ◌&&◌}
use mathlib.Core.List.{List, [], ◌++◌, Perm, map}
use mathlib.Core.Logic.{inl, inr, ◌⊎◌}
use mathlib.Core.Path.{◌≡◌, refl, ap, subst, ◌∙◌}
use mcp_k8s.Base.{◌==◌, text_keys, num_keys, if◌then◌else◌, Ranging, keep, is_pos, take}
use mcp_k8s.Base.Result.{Result, ok}
use mcp_k8s.Event.{NormalizedEvent, Time, Sorting, OldestFirst}
use mcp_k8s.Store.Query.{Filter, query}
use mcp_k8s.Store.Invariant.{IsValid}
use mcp_k8s.Store.Answers.{matches, stored}
use mcp_k8s.Store.Selection.{query_lem}
use mcp_k8s.Store.Sorting.{IsNewestFirst}
use mcp_k8s.Store.Summary.{summarize_namespace}
use mcp_k8s.Planner.{
  Step, Method, step_of, plan, steps_for, heuristic, unknown, namespace_overview,
  namespace_overview_steps,
}
use mcp_k8s.Proto.{Timestamps, time_or_zero-to_timestamp_pb}
use mcp_k8s.Executor.{ExecutionResult, empty_result, collect, run_step, run_method, run_steps}
use mcp_k8s.Agent.{GrpcServer, to_proto_groups, get_namespace_summary}
use mcp_k8s.Agent.Answers.{Wire, client_of, run_step-list_events}
use mcp_k8s.Correlation.{CorrelatedEvent, Timeline, CauseIndex, correlate}
use mcp_k8s.Correlation.Complete.{event_of, correlate_lem}
use mcp_k8s.Messages.{AgentClient}
use mcp_k8s.Response.{ResponseMode, Response}
use mcp_k8s.Gateway.Planned.{handle_query-run_steps}
use mcp_k8s.Gateway.{
  QueryRequest, response_body, parse_intent, parse_mode, to_query, answer_status, since_of,
  handle_query,
}
use mcp_k8s.Coordinator.PodRestarts.{groups_of}

-- An overview is asked for by its intent, or by a namespace with no known intent and no object.
abbrev pub IsOverview : QueryRequest → Type 0
IsOverview req =
    (parse_intent req.intent ≡ namespace_overview)
    ⊎ ((parse_intent req.intent ≡ unknown)
        × ((not (req.object_kind == "") && not (req.object_name == "")) ≡ false)
        × ((req.namespace == "") ≡ false))

overview_planned :
    (now : Time) (req : QueryRequest)
    → (req.cluster_name == "") ≡ false
    → IsOverview req
    → plan (to_query now req)
      ≡ ok (record {
        cluster_name = req.cluster_name;
        steps = namespace_overview_steps (to_query now req);
      })
unfolding plan steps_for heuristic to_query
overview_planned now req named (inl intent) = rw (named, intent) refl
overview_planned now req named (inr (intent, no_object, given)) =
    rw (named, intent, no_object, given) refl

-- What a request for an overview asks the store for.
abbrev pub overview_filter : Time → QueryRequest → Filter
overview_filter now req = record {
  namespace = req.namespace;
  object_uid = "";
  reason = "";
  since = since_of now req.since_minutes;
  limit = req.limit;
}

module _ (T : Timestamps) (wire : Wire) (s : GrpcServer T) where
  abbrev overviewed : Time → QueryRequest → ExecutionResult T
  overviewed now req = record (empty_result T) {
    namespace_summaries = [] ++ groups_of T wire s now req;
    events = [] ++ query s.ids s.store (overview_filter now req);
  }

  run_steps-namespace_overview_steps :
      (now : Time) (req : QueryRequest)
      → req.limit < 2 ^ 31
      → run_steps T
          (client_of T wire s)
          (namespace_overview_steps (to_query now req))
          (empty_result T)
        ≡ overviewed now req
  unfolding run_steps run_step run_method namespace_overview_steps to_query get_namespace_summary
  run_steps-namespace_overview_steps now req small =
      let st : Step = record (step_of Method.list_events) {
        namespace = req.namespace;
        since = since_of now req.since_minutes;
        limit = req.limit;
      } in
      let behind : Time → ExecutionResult T = λ since. record (empty_result T) {
        namespace_summaries =
            []
            ++ to_proto_groups T
                (summarize_namespace s.ids s.reasons s.names s.store req.namespace since);
      } in
      ap (λ since. collect T st (behind since) (run_step T (client_of T wire s) st (behind since)))
        (time_or_zero-to_timestamp_pb T (since_of now req.since_minutes))
      ∙ ap (collect T st (behind (since_of now req.since_minutes)))
          (run_step-list_events T wire s st (behind (since_of now req.since_minutes)) refl small)

module _ (T : Timestamps) (wire : Wire) (quote : String → String)
    (clients : String → Result (AgentClient T))
    (build_with : String → ResponseMode → Timeline → ExecutionResult T → Response)
    (idx : CauseIndex) (by_time : Sorting NormalizedEvent (λ e. e.last_seen))
    (by_event_time : Sorting CorrelatedEvent (λ ce. ce.event.last_seen))
    (range : Ranging (String × List CorrelatedEvent)) (s : GrpcServer T) where
  -- If the cluster is named and has this agent, its store is valid, the request has a limit below
  -- 2 ^ 31, and asks for an overview, or has no known intent and names a namespace and no object, then
  -- the reply is 200 with the response that is built from one timeline and a result with no failed
  -- step and with the store's summary of the namespace. There is a list of exactly the stored events
  -- of the namespace that are not older than the request's time bound, newest first; the timeline
  -- holds, oldest first, its first `limit` events if the limit is positive, and all of it otherwise.
  pub handle_query-namespace_overview :
      (now : Time) (req : QueryRequest)
      → IsValid s.store
      → clients req.cluster_name ≡ ok (client_of T wire s)
      → (req.cluster_name == "") ≡ false
      → IsOverview req
      → req.limit < 2 ^ 31
      → (all : List NormalizedEvent) × (tl : Timeline) × (result : ExecutionResult T) × Perm all
          (keep (matches (overview_filter now req)) (stored s.store.by_id))
        × IsNewestFirst all
        × Perm (map event_of tl.events) (if is_pos req.limit then take req.limit all else all)
        × OldestFirst (λ ce. ce.event.last_seen) tl.events
        × (result.namespace_summaries ≡ groups_of T wire s now req)
        × (result.step_errors ≡ [])
        × (handle_query T quote clients
              (correlate idx by_time by_event_time range)
              build_with
              now
              (ok req)
            ≡ record {
              status = 200;
              body = response_body (build_with req.cluster_name (parse_mode req.mode) tl result);
            })
  unfolding answer_status to_query
  handle_query-namespace_overview now req valid found named intent small =
      let f = overview_filter now req in
      let r = overviewed T wire s now req in
      let timeline_of = correlate idx by_time by_event_time range in
      let (all, perm, newest, limited) = query_lem s.ids s.store f valid in
      let (same, oldest, roots) = correlate_lem idx by_time by_event_time range r.events in
      (
        all,
        timeline_of r.events,
        r,
        perm,
        newest,
        subst (Perm (map event_of (timeline_of r.events).events)) limited same,
        oldest,
        refl,
        refl,
        handle_query-run_steps T quote clients timeline_of build_with now req _ (client_of T wire s)
            r named (overview_planned now req named intent) found
            (run_steps-namespace_overview_steps T wire s now req small),
      )

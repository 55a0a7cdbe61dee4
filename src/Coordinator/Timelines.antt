-- ===== src/Coordinator/Timelines.antt =====
-- A query from end to end: the gateway, the planner and the executor of internal/app/coordinator, the
-- wire, the server and the store of internal/app/clusteragent, and the correlator.
use Prim.Native.Nat.{◌^◌, ◌<◌}
use Prim.Native.String.{String}
use mathlib.Core.Bool.{false}
use mathlib.Core.List.{List, [], ◌++◌, Perm, map}
use mathlib.Core.Path.{◌≡◌, refl, ap, subst}
use mcp_k8s.Base.{◌==◌, text_keys, num_keys, if◌then◌else◌, Ranging, is_pos, take, keep}
use mcp_k8s.Base.Result.{Result, ok}
use mcp_k8s.Event.{NormalizedEvent, Time, Sorting, OldestFirst}
use mcp_k8s.Store.Query.{Filter, query}
use mcp_k8s.Store.Invariant.{IsValid}
use mcp_k8s.Store.Sorting.{IsNewestFirst}
use mcp_k8s.Store.Answers.{matches, stored}
use mcp_k8s.Store.Selection.{query_lem}
use mcp_k8s.Planner.{
  Query, step_of, list_events, build_timeline, build_timeline_steps, steps_for, plan,
}
use mcp_k8s.Correlation.{CorrelatedEvent, Timeline, CauseIndex, correlate}
use mcp_k8s.Correlation.Complete.{event_of, correlate_lem}
use mcp_k8s.Proto.{Timestamps}
use mcp_k8s.Messages.{AgentClient}
use mcp_k8s.Executor.{ExecutionResult, empty_result, collect, run_steps}
use mcp_k8s.Agent.{GrpcServer}
use mcp_k8s.Agent.Answers.{Wire, client_of, run_step-list_events}
use mcp_k8s.Response.{ResponseMode, Response}
use mcp_k8s.Gateway.Planned.{handle_query-run_steps}
use mcp_k8s.Gateway.{
  QueryRequest, response_body, parse_intent, parse_mode, since_of, to_query, answer_status,
  handle_query,
}

-- What a request for a timeline asks the store for.
abbrev pub request_filter : Time → QueryRequest → Filter
request_filter now req = record {
  namespace = req.namespace;
  object_uid = "";
  reason = req.reason;
  since = since_of now req.since_minutes;
  limit = req.limit;
}

timeline_planned :
    (q : Query)
    → (q.cluster_name == "") ≡ false
    → q.intent ≡ build_timeline
    → plan q ≡ ok (record { cluster_name = q.cluster_name; steps = build_timeline_steps q })
unfolding plan steps_for
timeline_planned q named intent = rw (named, intent) refl

module _ (T : Timestamps) (wire : Wire) (quote : String → String)
    (clients : String → Result (AgentClient T))
    (build_with : String → ResponseMode → Timeline → ExecutionResult T → Response)
    (idx : CauseIndex) (by_time : Sorting NormalizedEvent (λ e. e.last_seen))
    (by_event_time : Sorting CorrelatedEvent (λ ce. ce.event.last_seen))
    (range : Ranging (String × List CorrelatedEvent)) (s : GrpcServer T) where
  abbrev pub timeline_of : List NormalizedEvent → Timeline
  timeline_of = correlate idx by_time by_event_time range

  -- The result of the only step of a plan for a timeline.
  abbrev pub listed : Filter → ExecutionResult T
  listed f = record (empty_result T) { events = [] ++ query s.ids s.store f }

  run_steps-build_timeline_steps :
      (now : Time) (req : QueryRequest)
      → req.limit < 2 ^ 31
      → run_steps T (client_of T wire s) (build_timeline_steps (to_query now req)) (empty_result T)
        ≡ listed (request_filter now req)
  unfolding run_steps build_timeline_steps to_query
  run_steps-build_timeline_steps now req small =
      let st = record (step_of list_events) {
        namespace = req.namespace;
        reason = req.reason;
        since = since_of now req.since_minutes;
        limit = req.limit;
      } in
      ap (collect T st (empty_result T))
        (run_step-list_events T wire s st (empty_result T) refl small)

  -- If the cluster is named and has this agent, its store is valid, the request asks for a timeline
  -- and its limit is below 2 ^ 31, then the reply is 200 with the response that is built from one
  -- timeline and no failed step. There is a list of exactly the stored events that the request's
  -- filter matches, newest first; the timeline holds, oldest first, its first `limit` events if the
  -- limit is positive, and all of it otherwise.
  pub handle_query-build_timeline :
      (now : Time) (req : QueryRequest)
      → IsValid s.store
      → clients req.cluster_name ≡ ok (client_of T wire s)
      → (req.cluster_name == "") ≡ false
      → parse_intent req.intent ≡ build_timeline
      → req.limit < 2 ^ 31
      → (all : List NormalizedEvent) × (tl : Timeline) × (result : ExecutionResult T) × Perm all
          (keep (matches (request_filter now req)) (stored s.store.by_id))
        × IsNewestFirst all
        × Perm (map event_of tl.events) (if is_pos req.limit then take req.limit all else all)
        × OldestFirst (λ ce. ce.event.last_seen) tl.events
        × (result.step_errors ≡ [])
        × (handle_query T quote clients timeline_of build_with now (ok req) ≡ record {
          status = 200;
          body = response_body (build_with req.cluster_name (parse_mode req.mode) tl result);
        })
  unfolding answer_status to_query
  handle_query-build_timeline now req valid found named intent small =
      let f = request_filter now req in
      let (all, perm, newest, limited) = query_lem s.ids s.store f valid in
      let (same, oldest, roots) =
        correlate_lem idx by_time by_event_time range (query s.ids s.store f) in
      (
        all,
        timeline_of (query s.ids s.store f),
        listed f,
        perm,
        newest,
        subst (Perm (map event_of (timeline_of (query s.ids s.store f)).events)) limited same,
        oldest,
        refl,
        handle_query-run_steps T quote clients timeline_of build_with now req _ (client_of T wire s)
            (listed f) named (timeline_planned (to_query now req) named intent) found
            (run_steps-build_timeline_steps now req small),
      )

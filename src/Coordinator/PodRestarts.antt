-- ===== src/Coordinator/PodRestarts.antt =====
-- A query about restarts from the gateway of internal/app/coordinator to the store of
-- internal/app/clusteragent.
use Prim.Native.String.{String}
use mathlib.Core.Bool.{false}
use mathlib.Core.List.{List, [], ◌∷◌, ◌++◌, Perm, map, append_assoc, append-nil}
use mathlib.Core.List.Perm
use mathlib.Core.Path.{◌≡◌, refl, sym, ap, subst, ◌∙◌}
use mcp_k8s.Base.{◌==◌, text_keys, num_keys, arith, Ranging, keep}
use mcp_k8s.Base.Result.{Result, ok}
use mcp_k8s.Event.{NormalizedEvent, Time, Sorting, OldestFirst}
use mcp_k8s.Store.Query.{query}
use mcp_k8s.Store.Invariant.{IsValid}
use mcp_k8s.Store.Answers.{matches, stored}
use mcp_k8s.Store.Selection.{query_lem}
use mcp_k8s.Planner.{Query, Step, Method, step_of, restart_steps, restart_reasons}
use mcp_k8s.Proto.{Timestamps}
use mcp_k8s.Executor.{ExecutionResult, empty_result, collect, run_step, run_steps}
use mcp_k8s.Agent.{GrpcServer, to_proto_groups, get_namespace_summary}
use mcp_k8s.Store.Summary.{summarize_namespace}
use mcp_k8s.Proto.{PbGroup, time_or_zero-to_timestamp_pb}
use mcp_k8s.Planner.{plan, steps_for, explain_restarts, explain_restarts_steps}
use mcp_k8s.Executor.{run_method}
use mcp_k8s.Correlation.{CorrelatedEvent, Timeline, CauseIndex, correlate}
use mcp_k8s.Correlation.Complete.{event_of, correlate_lem}
use mcp_k8s.Messages.{AgentClient}
use mcp_k8s.Response.{ResponseMode, Response}
use mcp_k8s.Gateway.Planned.{handle_query-run_steps}
use mcp_k8s.Gateway.{
  QueryRequest, response_body, parse_intent, parse_mode, to_query, answer_status, since_of,
  handle_query,
}
use mcp_k8s.Agent.Answers.{Wire, client_of, run_step-list_events}
use mcp_k8s.Store.Reasons.{
  keep_split, keep_same, none_kept, reason_filter, is_one_of, AreReasons, one_more, other_reason,
}

module _ (T : Timestamps) (wire : Wire) (s : GrpcServer T) where
  -- The answers of the store for these reasons, one after the other.
  abbrev answers_of : Query → List String → List NormalizedEvent
  answers_of q [] = []
  answers_of q (reason ∷ reasons) =
      query s.ids s.store (reason_filter q.namespace q.since reason) ++ answers_of q reasons

  pub run_steps-restart_steps :
      (q : Query) (reasons : List String) (r : ExecutionResult T)
      → run_steps T (client_of T wire s) (restart_steps q reasons) r
        ≡ record r { events = r.events ++ answers_of q reasons }
  unfolding run_steps restart_steps
  run_steps-restart_steps q [] r = ap (λ l. record r { events = l }) (sym (append-nil r.events))
  run_steps-restart_steps q (reason ∷ reasons) r =
      let st : Step = record (step_of Method.list_events) {
        namespace = q.namespace;
        reason = reason;
        since = q.since;
      } in
      let evs = query s.ids s.store (reason_filter q.namespace q.since reason) in
      ap (λ t. run_steps T (client_of T wire s) (restart_steps q reasons) t)
        (ap (collect T st r) (run_step-list_events T wire s st r refl (omega arith)))
      ∙ run_steps-restart_steps q reasons (record r { events = r.events ++ evs })
      ∙ ap (λ l. record r { events = l }) (append_assoc r.events evs (answers_of q reasons))

  answers_of-perm :
      (q : Query) (reasons : List String)
      → IsValid s.store
      → AreReasons reasons
      → Perm
          (answers_of q reasons)
          (keep (is_one_of q.namespace q.since reasons) (stored s.store.by_id))
  answers_of-perm q [] valid h = subst (Perm []) (sym (none_kept (stored s.store.by_id))) Perm.nil
  answers_of-perm q (reason ∷ reasons) valid ((fresh, distinct), (given, rest)) =
      let events = stored s.store.by_id in
      let f = reason_filter q.namespace q.since reason in
      let later = is_one_of q.namespace q.since reasons in
      let (all, perm, newest, limited) = query_lem s.ids s.store f valid in
      let here : Perm (query s.ids s.store f) (keep (matches f) events) =
        subst (λ l. Perm l (keep (matches f) events)) (sym limited) perm in
      let there = answers_of-perm q reasons valid (distinct, rest) in
      subst (Perm (query s.ids s.store f ++ answers_of q reasons))
        (keep_same _ _ events (one_more q.namespace q.since reason reasons given))
        (Perm.trans (Perm.append here there) (
          keep_split (matches f) later events
            (other_reason q.namespace q.since reason reasons fresh given)))

  -- What the agent's store answers to the summary of the request's namespace.
  abbrev pub groups_of : Time → QueryRequest → List (PbGroup T)
  groups_of now req = to_proto_groups T (
      summarize_namespace s.ids s.reasons s.names s.store req.namespace
        (since_of now req.since_minutes))

  abbrev restarted : Time → QueryRequest → ExecutionResult T
  restarted now req = record (empty_result T) {
    namespace_summaries = [] ++ groups_of now req;
    events = [] ++ answers_of (to_query now req) restart_reasons;
  }

  pub run_steps-explain_restarts_steps :
      (now : Time) (req : QueryRequest)
      → run_steps T
          (client_of T wire s)
          (explain_restarts_steps (to_query now req))
          (empty_result T)
        ≡ restarted now req
  unfolding run_steps run_step run_method explain_restarts_steps to_query get_namespace_summary
  run_steps-explain_restarts_steps now req =
      let q = to_query now req in
      ap
        (λ since.
          run_steps T (client_of T wire s) (restart_steps q restart_reasons)
            (record (empty_result T) {
              namespace_summaries =
                  []
                  ++ to_proto_groups T
                      (summarize_namespace s.ids s.reasons s.names s.store req.namespace since);
            }))
        (time_or_zero-to_timestamp_pb T (since_of now req.since_minutes))
      ∙ run_steps-restart_steps q restart_reasons
          (record (empty_result T) { namespace_summaries = [] ++ groups_of now req })

restarts_planned :
    (q : Query)
    → (q.cluster_name == "") ≡ false
    → q.intent ≡ explain_restarts
    → plan q ≡ ok (record { cluster_name = q.cluster_name; steps = explain_restarts_steps q })
unfolding plan steps_for
restarts_planned q named intent = rw (named, intent) refl

restart_reasons-AreReasons : AreReasons restart_reasons
restart_reasons-AreReasons =
    ((refl, (refl, (refl, (refl, (refl, tt))))), (refl, (refl, (refl, (refl, (refl, tt))))))

module _ (T : Timestamps) (wire : Wire) (quote : String → String)
    (clients : String → Result (AgentClient T))
    (build_with : String → ResponseMode → Timeline → ExecutionResult T → Response)
    (idx : CauseIndex) (by_time : Sorting NormalizedEvent (λ e. e.last_seen))
    (by_event_time : Sorting CorrelatedEvent (λ ce. ce.event.last_seen))
    (range : Ranging (String × List CorrelatedEvent)) (s : GrpcServer T) where
  -- If the cluster is named and has this agent, its store is valid, and the request asks to explain
  -- restarts, then the reply is 200 with the response that is built from one timeline and a result
  -- with no failed step and with the store's summary of the namespace. The timeline holds, oldest
  -- first, exactly the stored events of the request's namespace that are not older than its time bound
  -- and have one of the five reasons of a restart, each as often as it is stored.
  pub handle_query-explain_restarts :
      (now : Time) (req : QueryRequest)
      → IsValid s.store
      → clients req.cluster_name ≡ ok (client_of T wire s)
      → (req.cluster_name == "") ≡ false
      → parse_intent req.intent ≡ explain_restarts
      → (tl : Timeline) × (result : ExecutionResult T) × Perm (map event_of tl.events) (
          keep
            (is_one_of req.namespace (since_of now req.since_minutes) restart_reasons)
            (stored s.store.by_id))
        × OldestFirst (λ ce. ce.event.last_seen) tl.events
        × (result.namespace_summaries ≡ groups_of T wire s now req)
        × (result.step_errors ≡ [])
        × (handle_query T quote clients
              (correlate idx by_time by_event_time range)
              build_with
              now
              (ok req)
            ≡ record {
              status = 200;
              body = response_body (build_with req.cluster_name (parse_mode req.mode) tl result);
            })
  unfolding answer_status to_query
  handle_query-explain_restarts now req valid found named intent =
      let r = restarted T wire s now req in
      let timeline_of = correlate idx by_time by_event_time range in
      let (same, oldest, roots) = correlate_lem idx by_time by_event_time range r.events in
      let brought =
        answers_of-perm T wire s (to_query now req) restart_reasons valid
          restart_reasons-AreReasons in
      (
        timeline_of r.events,
        r,
        Perm.trans same brought,
        oldest,
        refl,
        refl,
        handle_query-run_steps T quote clients timeline_of build_with now req _ (client_of T wire s)
            r named (restarts_planned (to_query now req) named intent) found
            (run_steps-explain_restarts_steps T wire s now req),
      )

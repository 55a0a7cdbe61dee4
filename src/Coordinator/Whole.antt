-- ===== src/Coordinator/Whole.antt =====
-- The whole program, from the events that come in at a cluster agent, internal/app/clusteragent, to the
-- answer of the coordinator, internal/app/coordinator.
use Prim.Native.Nat.{◌^◌, ◌<◌}
use Prim.Native.String.{String}
use mathlib.Core.Bool.{false}
use mathlib.Core.List.{List, [], ◌++◌, Perm, map}
use mathlib.Core.List.Perm
use mathlib.Core.Option.{some}
use mathlib.Core.Path.{◌≡◌, sym, ap, subst, ◌∙◌}
use mcp_k8s.Base.{◌==◌, text_keys, length, keep, take, is_pos, if◌then◌else◌, Ranging}
use mcp_k8s.Base.Result.{Result, ok}
use mcp_k8s.Event.{NormalizedEvent, Time, Sorting, OldestFirst}
use mcp_k8s.Enrichment.{Client}
use mcp_k8s.Store.Invariant.{IsValid}
use mcp_k8s.Store.Runs.{add_episodes}
use mcp_k8s.Store.View.{view}
use mcp_k8s.Store.Sorting.{IsNewestFirst}
use mcp_k8s.Store.Answers.{matches}
use mcp_k8s.Store.Episodes.{view-perm, keep-perm}
use mcp_k8s.Watcher.{Watcher, Action, run}
use mcp_k8s.Watcher.Order.{pending, accepted, enrich_all}
use mcp_k8s.Config.{AgentConfig, from_env}
use mcp_k8s.Planner.{build_timeline}
use mcp_k8s.Correlation.{CorrelatedEvent, Timeline, CauseIndex, correlate}
use mcp_k8s.Correlation.Complete.{event_of}
use mcp_k8s.Proto.{Timestamps}
use mcp_k8s.Messages.{AgentClient}
use mcp_k8s.Executor.{ExecutionResult}
use mcp_k8s.Agent.{GrpcServer}
use mcp_k8s.Agent.Answers.{Wire, client_of}
use mcp_k8s.Agent.Memory.{agent_watcher, run-IsCapped}
use mcp_k8s.Agent.Ingestion.{view-run}
use mcp_k8s.Response.{ResponseMode, Response}
use mcp_k8s.Gateway.{QueryRequest, response_body, parse_intent, parse_mode, handle_query}
use mcp_k8s.Coordinator.Timelines.{request_filter, handle_query-build_timeline}

-- An agent that started on an accepted configuration and has made some actions.
pub record IsRun (getenv : String → String) (cfg : AgentConfig) (c : Client) (actions : List Action)
    (v : Watcher) : Type 0 where
  pub made : from_env getenv ≡ ok cfg
  pub few : length actions < 2 ^ 64
  pub ran : run c actions (agent_watcher cfg) ≡ some v

module _ (T : Timestamps) (wire : Wire) (quote : String → String)
    (clients : String → Result (AgentClient T))
    (build_with : String → ResponseMode → Timeline → ExecutionResult T → Response)
    (idx : CauseIndex) (by_time : Sorting NormalizedEvent (λ e. e.last_seen))
    (by_event_time : Sorting CorrelatedEvent (λ ce. ce.event.last_seen))
    (range : Ranging (String × List CorrelatedEvent)) (s : GrpcServer T) where
  -- If a cluster's agent has made any run of fewer than 2 ^ 64 actions since it started on an accepted
  -- configuration, and a request names the cluster, asks for a timeline, and has a limit below 2 ^ 31,
  -- then the coordinator replies 200 with the response that is built from one timeline and no failed
  -- step. There is a list of exactly the episodes that match the request's filter, newest first,
  -- among those that the accepted events make, each enriched, without the events that are still
  -- pending; the timeline holds, oldest first, its first `limit` events if the limit is positive,
  -- and all of it otherwise.
  pub handle_query-run :
      (getenv : String → String) (cfg : AgentConfig) (c : Client) (actions : List Action)
      (v : Watcher) (now : Time) (req : QueryRequest)
      → IsRun getenv cfg c actions v
      → s.store ≡ v.store
      → clients req.cluster_name ≡ ok (client_of T wire s)
      → (req.cluster_name == "") ≡ false
      → parse_intent req.intent ≡ build_timeline
      → req.limit < 2 ^ 31
      → (evs : List NormalizedEvent) × (all : List NormalizedEvent) × (tl : Timeline)
        × (result : ExecutionResult T) × (evs ++ pending v ≡ accepted c actions (agent_watcher cfg))
        × Perm all (
            keep
              (matches (request_filter now req))
              (add_episodes cfg.store_max_size (enrich_all c evs) []))
        × IsNewestFirst all
        × Perm (map event_of tl.events) (if is_pos req.limit then take req.limit all else all)
        × OldestFirst (λ ce. ce.event.last_seen) tl.events
        × (result.step_errors ≡ [])
        × (handle_query T quote clients
              (correlate idx by_time by_event_time range)
              build_with
              now
              (ok req)
            ≡ record {
              status = 200;
              body = response_body (build_with req.cluster_name (parse_mode req.mode) tl result);
            })
  handle_query-run getenv cfg c actions v now req agent shared found named intent small =
      let (evs, split, spec) = view-run getenv cfg c actions v agent.made agent.few agent.ran in
      let capped = run-IsCapped getenv cfg c actions v agent.made agent.few agent.ran in
      let valid : IsValid s.store = subst IsValid (sym shared) capped.0 in
      let (all, tl, result, perm, newest, limited, oldest, clean, replied) =
        handle_query-build_timeline T wire quote clients build_with idx by_time by_event_time range
          s now req valid found named intent small in
      let f = request_filter now req in
      let seen : view s.store ≡ add_episodes cfg.store_max_size (enrich_all c evs) [] =
        ap view shared ∙ spec in
      let same = Perm.trans perm (Perm.symm (keep-perm (matches f) (view-perm s.store valid))) in
      (
        evs,
        all,
        tl,
        result,
        split,
        subst (λ l. Perm all (keep (matches f) l)) seen same,
        newest,
        limited,
        oldest,
        clean,
        replied,
      )

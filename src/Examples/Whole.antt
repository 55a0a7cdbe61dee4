-- ===== src/Examples/Whole.antt =====
-- An example of the whole program: an event that comes in at an agent, and a query to the coordinator.
use Prim.Native.String.{String}
use mathlib.Core.List.{List, [], ◌∷◌, ◌++◌, Perm, map}
use mathlib.Core.Bool.{true}
use mathlib.Core.Option.{none, some}
use mathlib.Core.Path.{◌≡◌, refl}
use mcp_k8s.Base.{◌==◌, text_keys, arith, if◌then◌else◌, keep, take, is_pos, in_order}
use mcp_k8s.Base.Result.{Result, ok}
use mcp_k8s.Event.{NormalizedEvent, OldestFirst}
use mcp_k8s.Event.Normalize.{normalize}
use mcp_k8s.Store.{new}
use mcp_k8s.Store.Invariant.{IsValid}
use mcp_k8s.Store.Adds.{new-IsValid}
use mcp_k8s.Store.Runs.{add_episodes}
use mcp_k8s.Store.Query.{query}
use mcp_k8s.Store.Sorting.{IsNewestFirst}
use mcp_k8s.Store.Answers.{matches}
use mcp_k8s.Watcher.{
  Watcher, Action, delivered, launched, new_watcher, run, step, handle, offer, launch,
}
use mcp_k8s.Watcher.Order.{pending, accepted, enrich_all}
use mcp_k8s.Watcher.Draining.{rounds, run-rounds}
use mcp_k8s.Config.{AgentConfig, read_agent, from_env}
use mcp_k8s.Planner.{build_timeline}
use mcp_k8s.Correlation.{Timeline}
use mcp_k8s.Correlation.Complete.{event_of}
use mcp_k8s.Messages.{AgentClient}
use mcp_k8s.Executor.{ExecutionResult}
use mcp_k8s.Agent.{GrpcServer}
use mcp_k8s.Agent.Answers.{client_of}
use mcp_k8s.Agent.Memory.{agent_watcher}
use mcp_k8s.Agent.Ingestion.{query-run}
use mcp_k8s.Gateway.{QueryRequest, response_body, parse_intent, parse_mode, handle_query}
use mcp_k8s.Coordinator.Timelines.{request_filter}
use mcp_k8s.Coordinator.Whole.{IsRun, handle_query-run}
use mcp_k8s.Examples.{api, nanoseconds, causes, timeline_of, build_with, pod_request}
use mcp_k8s.Examples.Orders.{insertion}
use mcp_k8s.Examples.Agents.{server, perfect}
use mcp_k8s.Examples.Pipeline.{raw}

abbrev environment : String → String
environment key =
    if key == "MCP_CLUSTER_NAME" then "prod" else if key == "MCP_STORE_MAX_SIZE" then "2" else ""

abbrev small : AgentConfig
small = read_agent environment

-- The agent with one event in the channel, and the goroutine launched.
abbrev going : Watcher
going = record (agent_watcher small) { running = true; pipeline = normalize "prod" raw ∷ [] }

abbrev lived : List Action
lived = delivered (some raw) ∷ launched ∷ rounds 1

stored_one :
    (v : Watcher) × (run api (rounds 1) going ≡ some v)
    × (v.pipeline ≡ [])
    × (v.in_flight ≡ none)
    × IsValid v.store
unfolding agent_watcher new_watcher new
stored_one = run-rounds api going refl refl (new-IsValid small.store_max_size) (omega arith)

lived-IsRun : IsRun environment small api lived stored_one.0
unfolding from_env run step handle offer launch agent_watcher new_watcher
lived-IsRun = record { made = refl; few = omega arith; ran = stored_one.1 }

query-run_example :
    let f = request_filter 0 pod_request in
    (evs : List NormalizedEvent) × (all : List NormalizedEvent) × (evs ++ pending stored_one.0
      ≡ accepted api lived (agent_watcher small))
    × Perm all (keep (matches f) (add_episodes small.store_max_size (enrich_all api evs) []))
    × IsNewestFirst all
    × (query in_order stored_one.0.store f ≡ (if is_pos f.limit then take f.limit all else all))
query-run_example =
    query-run environment small api lived stored_one.0 lived-IsRun.made lived-IsRun.few
      lived-IsRun.ran in_order (request_filter 0 pod_request)

abbrev timeline_request : QueryRequest
timeline_request = record pod_request { intent = "BuildTimeline"; limit = 1 }

abbrev serving : GrpcServer nanoseconds
serving = record server { store = stored_one.0.store }

abbrev connected : String → Result (AgentClient nanoseconds)
connected name = ok (client_of nanoseconds perfect serving)

timeline_request-intent : parse_intent "BuildTimeline" ≡ build_timeline
unfolding parse_intent
timeline_request-intent = refl

handle_query-run_example :
    let f = request_filter 0 timeline_request in
    (evs : List NormalizedEvent) × (all : List NormalizedEvent) × (tl : Timeline)
    × (result : ExecutionResult nanoseconds) × (evs ++ pending stored_one.0
        ≡ accepted api lived (agent_watcher small))
    × Perm all (keep (matches f) (add_episodes small.store_max_size (enrich_all api evs) []))
    × IsNewestFirst all
    × Perm (map event_of tl.events) (take 1 all)
    × OldestFirst (λ ce. ce.event.last_seen) tl.events
    × (result.step_errors ≡ [])
    × (handle_query nanoseconds (λ s. s) connected timeline_of build_with 0 (ok timeline_request)
        ≡ record {
          status = 200;
          body = response_body (build_with "prod" (parse_mode "concise") tl result);
        })
handle_query-run_example =
    handle_query-run nanoseconds perfect (λ s. s) connected build_with causes
      (insertion λ e. e.last_seen) (insertion λ ce. ce.event.last_seen) in_order serving environment
      small api lived stored_one.0 0 timeline_request lived-IsRun refl refl refl
      timeline_request-intent (omega arith)

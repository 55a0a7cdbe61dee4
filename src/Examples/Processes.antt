-- ===== src/Examples/Processes.antt =====
-- Examples of the two processes: what they put together, a save that is interrupted, and a plan.
use Prim.Native.String.{String}
use mcp_k8s.Base.{
  arith, Bool-cases, eq_of_test, sym, ap, ◌∙◌, inl, inr, ◌==◌, ◌≡◌, refl, true, false, none, some,
  [], ◌∷◌, text_keys, num_keys, All, in_order, if◌then◌else◌, lookup,
}
use mcp_k8s.Base.Result.{ok, err}
use mcp_k8s.Planner.{Plan, plan, step_of, list_events, steps_for, build_timeline_steps}
use mcp_k8s.Executor.{ExecutionResult, execute, run_steps, empty_result}
use mcp_k8s.Executor.Planned.{execute-plan}
use mcp_k8s.Registry.{Registry, ClusterEntry}
use mcp_k8s.Registry.Restart.{IsNamed}
use mcp_k8s.Registry.Saving.{
  Directory, Calls, at_end, save_calls, disk_of, Recovers, save_calls-write_file,
  save_calls-Recovers,
}
use mcp_k8s.Registry.{write_file}
use mcp_k8s.Gateway.{QueryRequest, to_query, parse_intent}
use mcp_k8s.Process.{goes, background, exit_code, exited}
use mcp_k8s.Agent.Memory.{agent_watcher}
use mcp_k8s.Agent.Startup.{
  AgentHost, Agent, Clientset, watch_all, watch, watcher_now, server_now, set_up, agent_main,
  kube_config, start, new_grpc_server,
}
use mcp_k8s.Watcher.{
  Watcher, new_watcher, handle, offer, receive, received, finished, launched, enrich, finish, step,
  run,
}
use mcp_k8s.Event.Normalize.{normalize}
use mcp_k8s.Store.{Store, new, add}
use mcp_k8s.Store.Invariant.{IsValid}
use mcp_k8s.Store.Adds.{new-IsValid, add-IsValid}
use Prim.Native.Nat.{◌≤◌, ◌+◌}
use mathlib.Core.List.{◌++◌}
use mathlib.Core.Logic.{◌≢◌}
use mcp_k8s.Agent.Serving.{deliveries_of, set_up_goes, exit_code-agent_main}
use mcp_k8s.Config.{AgentConfig}
use mcp_k8s.Examples.{api, nanoseconds, agent, prod, pod_request}
use mcp_k8s.Examples.Agents.{objects}
use mcp_k8s.Examples.Pipeline.{raw}
use mcp_k8s.Examples.Service.{working}

-- A cluster with one kind of configuration, in which the gRPC server fails after a while.
abbrev host : AgentHost String
host = record {
  in_cluster_config = err "not in a cluster";
  recommended_home_file = "/root/.kube/config";
  config_from_file = λ path. ok path;
  new_clientset = λ rest. ok (record {
    owners = api;
    objects = objects;
    logs = λ ns pod container lines. err "not found";
  });
  new_metrics = λ rest. err "no route";
  adds_handler = ok tt;
  syncs = some true;
  initial = none ∷ some raw ∷ [];
  listen = λ addr. ok tt;
  served = some (7, "closed");
  first = true;
  strike = none;
  ids = in_order;
  reasons = in_order;
  names = in_order;
}

abbrev small : AgentConfig
small = record {
  cluster_name = "prod";
  grpc_addr = ":50051";
  watch_namespace = "";
  store_max_size = 2;
  kubeconfig_path = "";
}

abbrev cluster : Clientset
cluster = record {
  owners = api;
  objects = objects;
  logs = λ ns pod container lines. err "not found";
}

abbrev began : Agent nanoseconds
began = record {
  stores = new 2 ∷ [];
  enricher = api;
  watched = 0;
  watcher = record (handle (some raw) (new_watcher "prod" (new 2))) { running = true };
  answered_from = 0;
  server = new_grpc_server nanoseconds host (new 2) cluster (err "no route");
}

host-set_up : set_up nanoseconds host background small ≡ goes began
unfolding set_up kube_config start handle
host-set_up = refl

-- The event that came in before the sync, with its owners, is stored.
stored_first :
    (s : Store) × (add (new 2) (enrich api (normalize "prod" raw)) ≡ some s)
    × IsValid s
    × (s.next_id ≤ (new 2).next_id + 1)
unfolding new
stored_first = add-IsValid (new 2) (enrich api (normalize "prod" raw)) (new-IsValid 2) (omega arith)

abbrev behind : Agent nanoseconds
behind = record began {
  stores = stored_first.0 ∷ [];
  watcher = record began.watcher { pipeline = []; in_flight = none; store = stored_first.0 };
}

began-watch_all : watch_all (received ∷ finished ∷ []) began ≡ some behind
unfolding watch_all watch watcher_now step receive finish handle offer new_watcher
began-watch_all = rw (stored_first.1, watch_all, watch, watcher_now, step, finish) refl

set_up_goes_example :
    (rest : String) × (k8s : Clientset) × (v : Watcher) × (host.syncs ≡ some true)
    × (kube_config host small ≡ ok rest)
    × (host.new_clientset rest ≡ ok k8s)
    × (run k8s.owners
          (deliveries_of host.initial ++ launched ∷ received ∷ finished ∷ [])
          (agent_watcher small)
        ≡ some v)
    × (server_now behind
        ≡ some (new_grpc_server nanoseconds host v.store k8s (host.new_metrics rest)))
set_up_goes_example =
    set_up_goes nanoseconds host background small began behind (received ∷ finished ∷ [])
      (λ given_up. absurd cc) host-set_up began-watch_all

abbrev environment : String → String
environment key = if key == "MCP_CLUSTER_NAME" then "prod" else ""

exit_code-agent_main_example :
    exit_code none (agent_main nanoseconds host environment) ≢ some (exited 0)
exit_code-agent_main_example = exit_code-agent_main nanoseconds host environment

-- A write that stops half-way.
abbrev half : Calls
half = record {
  creates = true;
  writes = false;
  partial = "[pr";
  closes = true;
  renames = true;
  removes = true;
}

abbrev before : Directory
before = record { file = some "[]"; temp = none }

save_calls-write_file_example :
    at_end before (save_calls half "[prod]" before)
    ≡ record { file = write_file (disk_of half) "[prod]" (some "[]"); temp = none }
save_calls-write_file_example = save_calls-write_file half "[prod]" before refl refl

abbrev with_prod : Registry
with_prod = record {
  entries = ("prod", prod) ∷ [];
  conns = [];
  file_path = "registry.json";
  file = some "[]";
  closed = [];
}

with_prod-IsNamed : IsNamed with_prod.entries
unfolding lookup
with_prod-IsNamed k e found = elim (Bool-cases (k == "prod")) [
  | inl here ↦
      let same : some prod ≡ some e = rw here at found in
      let equal : prod ≡ e = cc in
      ap (λ (e : ClusterEntry). e.cluster_name) (sym equal) ∙ sym (eq_of_test k "prod" here)
  | inr there ↦ let no : none ≡ some e = rw there at found in absurd cc
]

save_calls-Recovers_example :
    All
      (Recovers working.codec "registry.json" with_prod.entries (some "[]"))
      (save_calls (record half { writes = true }) "[prod]" before)
unfolding lookup
save_calls-Recovers_example =
    save_calls-Recovers working with_prod "[prod]" (record half { writes = true }) before (refl, tt)
      with_prod-IsNamed refl refl

abbrev timeline_request : QueryRequest
timeline_request = record pod_request { intent = "BuildTimeline"; limit = 1 }

abbrev timeline_plan : Plan
timeline_plan = record {
  cluster_name = "prod";
  steps = record (step_of list_events) { namespace = "shop"; limit = 1 } ∷ [];
}

timeline_planned : plan (to_query 0 timeline_request) ≡ ok timeline_plan
unfolding plan steps_for build_timeline_steps to_query parse_intent
timeline_planned = refl

abbrev brought : ExecutionResult nanoseconds
brought = run_steps nanoseconds agent timeline_plan.steps (empty_result nanoseconds)

timeline_executed : execute nanoseconds (λ s. s) (ok agent) timeline_plan ≡ ok brought
unfolding execute
timeline_executed = refl

execute-plan_example : (brought.container_logs ≡ []) × (brought.pod_metrics ≡ [])
execute-plan_example =
    execute-plan nanoseconds (λ s. s) (to_query 0 timeline_request) timeline_plan (ok agent) brought
      timeline_planned timeline_executed

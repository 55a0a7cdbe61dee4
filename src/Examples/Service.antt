-- ===== src/Examples/Service.antt =====
-- Examples of sequences of requests to the coordinator, and of its restart.
use Prim.Native.Nat.{ℕ}
use Prim.Native.String.{String}
use mcp_k8s.Base.{
  ◌≡◌, refl, true, false, none, List, [], ◌∷◌, text_keys, ◌==◌, All, lookup, insert, in_order,
  arith,
}
use mcp_k8s.Base.Result.{Result, ok, err}
use mcp_k8s.Registry.{
  ClusterEntry, ClientConn, Registry, World, new_registry, load, save, values, register, drop_conn,
  write_file, client,
}
use mcp_k8s.Registry.Safety.{IsConsistent, Reaches}
use mcp_k8s.Registry.Reaching.{answered}
use mcp_k8s.Registry.Connections.{AreOwned}
use mcp_k8s.Registry.Handing.{Hands}
use mcp_k8s.Coordinator.Connections.{serve_all-AreOwned}
use mcp_k8s.Registry.Restart.{read_back}
use mcp_k8s.Config.{CoordinatorConfig}
use mcp_k8s.Gateway.Auth.{require_token, trim_prefix, strip}
use mcp_k8s.Gateway.Admin.{admit_register, handle_register}
use mcp_k8s.Coordinator.{
  started, Request, query, register_cluster, unregister_cluster, list_registry, Gateway, serve,
  serve_all,
}
use mcp_k8s.Coordinator.Requests.{IsRefused, serve_all-IsConsistent, serve_all-entries}
use mcp_k8s.Coordinator.Restart.{load-serve_all}
use mcp_k8s.Examples.{nanoseconds, agent, prod, timeline_of, build_with, pod_request}

-- A disk that works, and an encoding that knows the one cluster of the example.
abbrev pub working : World
working = record {
  range = in_order;
  codec = record { indented = λ es. ok "[prod]"; parsed = λ text. ok (prod ∷ []) };
  disk = record { creates = true; writes = true; closes = true; renames = true };
  new_client = λ endpoint. ok (record { endpoint = endpoint; number = 1 });
}

-- The same, where a new connection has the number of the request.
abbrev network : ℕ → World
network n = record working {
  new_client = λ endpoint. ok (record { endpoint = endpoint; number = n });
}

abbrev pub gateway : Gateway nanoseconds
gateway = record {
  world = network;
  quote = λ s. s;
  connect = λ conn. agent;
  timeline_of = timeline_of;
  build_with = build_with;
  range = in_order;
  token = "s3cret";
  llm = none;
}

dials :
    (n : ℕ) (endpoint : String) (conn : ClientConn)
    → (network n).new_client endpoint ≡ ok conn
    → conn.endpoint ≡ endpoint
dials n endpoint conn same = ground (arith, same)

abbrev pub config : CoordinatorConfig
config = record {
  http_addr = ":8080";
  registry_token = "s3cret";
  registry_file = "registry.json";
  ollama_base_url = "";
  ollama_model = "llama3";
}

abbrev with_prod : Request
with_prod =
    register_cluster "Bearer s3cret"
      (ok (record { cluster_name = "prod"; grpc_endpoint = "agent:9090"; labels = [] }))

abbrev busy : List Request
busy = with_prod ∷ query 0 (ok pod_request) ∷ list_registry ∷ []

-- The coordinator behind these requests.
abbrev used : Registry
used = serve_all gateway 0 busy (started working.codec none none config)

serve_all-IsConsistent_example :
    IsConsistent used
    × Reaches
        (lookup "prod" used.entries)
        (answered (client (network 3) gateway.quote "prod" used).1)
serve_all-IsConsistent_example =
    serve_all-IsConsistent gateway dials working.codec none none config busy "prod"

numbers :
    (n : ℕ) (endpoint : String) (conn : ClientConn)
    → (network n).new_client endpoint ≡ ok conn
    → conn.number ≡ n
numbers n endpoint conn same = ground (arith, same)

serve_all-AreOwned_example :
    AreOwned 3 used × Hands 4 "prod" (client (network 3) gateway.quote "prod" used)
serve_all-AreOwned_example =
    serve_all-AreOwned gateway numbers working.codec none none config busy "prod"

-- The coordinator behind the registration.
abbrev registered : Registry
registered = serve_all gateway 0 (with_prod ∷ []) (started working.codec none none config)

registered-IsConsistent : IsConsistent registered
registered-IsConsistent =
    (serve_all-IsConsistent gateway dials working.codec none none config (with_prod ∷ []) "prod").0

abbrev intruding : List Request
intruding =
    unregister_cluster "Bearer guess" "prod"
    ∷ query 0 (ok pod_request)
    ∷ register_cluster "" (err "EOF")
    ∷ []

intruding-All : All (IsRefused "s3cret") intruding
unfolding require_token trim_prefix strip
intruding-All = (refl, (tt, (refl, tt)))

serve_all-entries_example : (serve_all gateway 0 intruding registered).entries ≡ registered.entries
serve_all-entries_example =
    serve_all-entries gateway dials 0 intruding registered registered-IsConsistent intruding-All

registered-file_path : (registered.file_path == "") ≡ false
unfolding serve_all serve handle_register admit_register register drop_conn save write_file insert
    lookup started load new_registry require_token trim_prefix strip
registered-file_path = refl

registered-parsed :
    ◌≡◌ {A = Result (List ClusterEntry)} (ok (prod ∷ [])) (ok (values registered.entries))
unfolding serve_all serve handle_register admit_register register drop_conn save write_file insert
    lookup started load new_registry require_token trim_prefix strip
registered-parsed = refl

load-serve_all_example :
    (t : Registry) × (load working.codec
        (read_back (save working registered).file)
        (new_registry registered.file_path (save working registered).file)
      ≡ ok t)
    × ((k : String) → lookup k t.entries ≡ lookup k registered.entries)
load-serve_all_example =
    load-serve_all gateway dials working working.codec none none config (with_prod ∷ []) registered
      "[prod]" refl registered-file_path (refl, refl, refl, refl) refl registered-parsed

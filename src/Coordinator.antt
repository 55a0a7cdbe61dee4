-- ===== src/Coordinator.antt =====
-- internal/app/coordinator/coordinator.go with the routes of gateway.go: the state that the process
-- starts with, and what each request does to it. A request is what its handler reads of it.
pub mod Requests
pub mod Restart
pub mod Timelines
pub mod Connections
pub mod Whole
pub mod PodRestarts
pub mod Overviews
pub mod Explanations
pub mod Startup
use Prim.Native.Nat.{ℕ, ◌+◌}
use Prim.Native.String.{String}
use mathlib.Core.List.{List, [], ◌∷◌}
use mathlib.Core.Option.{Option, none, some}
use mcp_k8s.Base.{◌==◌, text_keys, if◌then◌else◌, Ranging}
use mcp_k8s.Base.Result.{Result, ok, err}
use mcp_k8s.Event.{NormalizedEvent, Time}
use mcp_k8s.Planner.{Query, Plan, plan}
use mcp_k8s.Correlation.{Timeline}
use mcp_k8s.Proto.{Timestamps}
use mcp_k8s.Messages.{AgentClient}
use mcp_k8s.Executor.{ExecutionResult}
use mcp_k8s.Response.{ResponseMode, Response}
use mcp_k8s.Registry.{
  ClusterEntry, ClientConn, Registry, World, Codec, Read, new_registry, load, client,
}
use mcp_k8s.Config.{CoordinatorConfig}
use mcp_k8s.Llm.{Client, Printing, OllamaClient}
use mcp_k8s.Gateway.{
  QueryRequest, AskRequest, IntentPayload, Model, Reply, to_query, ask_query, handle_query,
  handle_ask,
}
use mcp_k8s.Gateway.Admin.{
  RegisterRequest, handle_health, handle_register, handle_unregister, handle_list_registry,
}
use mcp_k8s.Gateway.Fences.{model_of}

-- The result of `Load` in `Run`, which goes on without it on an error.
abbrev pub or_fresh : Result Registry → Registry → Registry
or_fresh (ok r) fresh = r
or_fresh (err why) fresh = fresh

-- The registry that `Run` begins with: a file that cannot be loaded is passed over. `file` is what
-- the file holds, and `read` what reading it answers.
unfoldable pub started : Codec → Option String → Read → CoordinatorConfig → Registry
started codec file read cfg =
    let fresh = new_registry cfg.registry_file file in or_fresh (load codec read fresh) fresh

-- The model of `Run`: none without a base URL.
unfoldable pub llm_of :
    Printing
    → (String → Result IntentPayload)
    → (OllamaClient → Client)
    → CoordinatorConfig
    → Option Model
llm_of p unmarshal new_ollama cfg =
    if cfg.ollama_base_url == ""
    then none
    else some (
        model_of p unmarshal
          (new_ollama (record { base_url = cfg.ollama_base_url; model = cfg.ollama_model })))

-- A request by its route. `now` is the time at which it is handled, `auth` the header
-- Authorization; a body is what decoding it gives.
pub data Request : Type 0 where
  health : Request
  query : Time → Result QueryRequest → Request
  ask : Time → Result AskRequest → Request
  register_cluster : String → Result RegisterRequest → Request
  unregister_cluster : String → String → Request
  list_registry : Request

-- `gateway`: the token, the model and the collaborators of the handlers. `connect` makes the
-- agent's client of a connection; `world` is what registry and network answer during each request.
pub record Gateway (T : Timestamps) : Type 1 where
  pub world : ℕ → World
  pub quote : String → String
  pub connect : ClientConn → AgentClient T
  pub timeline_of : List NormalizedEvent → Timeline
  pub build_with : String → ResponseMode → Timeline → ExecutionResult T → Response
  pub range : Ranging ClusterEntry
  pub token : String
  pub llm : Option Model

module _ {T : Timestamps} (g : Gateway T) where
  abbrev pub connected_with : Result ClientConn → Result (AgentClient T)
  connected_with (ok conn) = ok (g.connect conn)
  connected_with (err why) = err why

  -- What the registry answers the executor for a cluster.
  abbrev pub clients_of : ℕ → Registry → String → Result (AgentClient T)
  clients_of n r name = connected_with (client (g.world n) g.quote name r).1

  -- The registry behind the call of `Client` that the execution of a plan begins with, if there is
  -- one.
  abbrev pub touched : ℕ → Result Plan → Registry → Registry
  touched n (err why) r = r
  touched n (ok p) r = (client (g.world n) g.quote p.cluster_name r).0

  unfoldable pub touch : ℕ → Query → Registry → Registry
  touch n q r = touched n (plan q) r

  -- The registry behind `handleQuery`.
  unfoldable pub after_query : ℕ → Time → Result QueryRequest → Registry → Registry
  after_query n now (err why) r = r
  after_query n now (ok req) r = if req.cluster_name == "" then r else touch n (to_query now req) r

  -- The registry behind the reply of the model.
  abbrev pub after_reply : ℕ → Model → Time → AskRequest → Result String → Registry → Registry
  after_reply n llm now req (err why) r = r
  after_reply n llm now req (ok raw) r = touch n (ask_query now (llm.parsed raw) req) r

  -- The registry behind `handleAsk`.
  unfoldable pub after_ask : ℕ → Option Model → Time → Result AskRequest → Registry → Registry
  after_ask n none now decoded r = r
  after_ask n (some llm) now (err why) r = r
  after_ask n (some llm) now (ok req) r =
      if req.cluster_name == ""
      then r
      else if req.question == ""
      then r
      else after_reply n llm now req (llm.chat req.question) r

  -- The handler of a route.
  unfoldable pub serve : ℕ → Request → Registry → Registry × Reply
  serve n health r = (r, handle_health)
  serve n (query now decoded) r = (
    after_query n now decoded r,
    handle_query T g.quote (clients_of n r) g.timeline_of g.build_with now decoded,
  )
  serve n (ask now decoded) r = (
    after_ask n g.llm now decoded r,
    handle_ask T g.quote (clients_of n r) g.timeline_of g.build_with g.llm now decoded,
  )
  serve n (register_cluster auth decoded) r = handle_register (g.world n) g.token auth decoded r
  serve n (unregister_cluster auth cluster) r = handle_unregister (g.world n) g.token auth cluster r
  serve n list_registry r = (r, handle_list_registry g.range r)

  -- Requests one after the other, from the one with this number on.
  unfoldable pub serve_all : ℕ → List Request → Registry → Registry
  serve_all n [] r = r
  serve_all n (req ∷ reqs) r = serve_all (n + 1) reqs (serve n req r).0

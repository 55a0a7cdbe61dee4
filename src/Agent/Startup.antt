-- ===== src/Agent/Startup.antt =====
-- cmd/cluster-agent/main.go, internal/app/clusteragent/clusteragent.go, `KubeConfig` of config.go and
-- `Start` of watcher.go: what the agent does before it serves, and how it ends.
use Prim.Native.Nat.{ℕ, zero, suc}
use Prim.Native.String.{String, ◌++◌ as text_append}
use mathlib.Core.Bool.{Bool, true}
use mathlib.Core.Option.{Option, none, some}
use mathlib.Core.List.{List, [], ◌∷◌, ◌++◌}
use mcp_k8s.Base.{length, ◌==◌, text_keys, if◌then◌else◌, Ranging}
use mcp_k8s.Base.Result.{Result, ok, err}
use mcp_k8s.Enrichment.{Client}
use mcp_k8s.Enrichment.Snapshot.{ObjectClient}
use mcp_k8s.Event.Normalize.{RawEvent}
use mcp_k8s.Store.{Store, new}
use mcp_k8s.Watcher.{Watcher, Action, handle, step, new_watcher}
use mcp_k8s.Proto.{Timestamps}
use mcp_k8s.Agent.{LogStream, Metrics, GrpcServer}
use mcp_k8s.Agent.Wiring.{metrics_interface}
use mcp_k8s.Config.{AgentConfig, from_env}
use mcp_k8s.Process.{
  Course, Done, goes, fails, waits, ◌>>=◌, wrapped, in_context, Context, background, Case, stopped,
  ended, select, Strike,
}

-- A Kubernetes clientset, by the calls that the agent makes of it.
pub record Clientset : Type 0 where
  pub owners : Client
  pub objects : ObjectClient
  pub logs : LogStream

-- What the calls of `Run` into the libraries answer. `adds_handler` is the result of
-- `AddEventHandler`, `syncs` that of `WaitForCacheSync`, `none` if it waits for ever; `initial` is what
-- the callbacks deliver meanwhile; `served` is the end of `srv.Serve`; `first` settles a `select` with
-- both channels ready; `strike` is what ends the process before `main` does, if anything.
pub record AgentHost (Rest : Type 0) : Type 0 where
  pub in_cluster_config : Result Rest
  pub recommended_home_file : String
  pub config_from_file : String → Result Rest
  pub new_clientset : Rest → Result Clientset
  pub new_metrics : Rest → Result Metrics
  pub adds_handler : Result Done
  pub syncs : Option Bool
  pub initial : List (Option RawEvent)
  pub listen : String → Result Done
  pub served : Option (ℕ × String)
  pub first : Bool
  pub strike : Option Strike
  pub ids : Ranging ℕ
  pub reasons : Ranging String
  pub names : Ranging String

-- The stores that are made, each at its address, the number of those before it.
abbrev pub Stores : Type 0
Stores = List Store

abbrev pub store_at : ℕ → Stores → Option Store
store_at address [] = none
store_at zero (s ∷ stores) = some s
store_at (suc address) (s ∷ stores) = store_at address stores

abbrev pub put_store : ℕ → Store → Stores → Stores
put_store address s [] = []
put_store zero s (old ∷ stores) = s ∷ stores
put_store (suc address) s (other ∷ stores) = other ∷ put_store address s stores

-- `store.New`: the address of the new store, and the stores with it.
abbrev pub allocate : ℕ → Stores → ℕ × Stores
allocate max_size stores = (length stores, stores ++ new max_size ∷ [])

-- What `Run` has put together when it begins to serve. The watcher's pointer to its store is
-- `watched`, and the server's is `answered_from`; what their fields `store` hold is not read.
pub record Agent (T : Timestamps) : Type 0 where
  pub stores : Stores
  pub enricher : Client
  pub watched : ℕ
  pub watcher : Watcher
  pub answered_from : ℕ
  pub server : GrpcServer T

-- The watcher, with the store that its pointer leads to.
unfoldable pub watcher_now : {T : Timestamps} → Agent T → Option Watcher
watcher_now agent = elim (store_at agent.watched agent.stores) [
  | none ↦ none
  | some s ↦ some (record agent.watcher { store = s })
]

-- The server that a request meets.
unfoldable pub server_now : {T : Timestamps} → Agent T → Option (GrpcServer T)
server_now agent = elim (store_at agent.answered_from agent.stores) [
  | none ↦ none
  | some s ↦ some (record agent.server { store = s })
]

-- An action of the watcher that came out as `v`: its store is the one that the pointer leads to.
abbrev pub watched_to : {T : Timestamps} → Agent T → Watcher → Agent T
watched_to agent v = record agent {
  watcher = v;
  stores = put_store agent.watched v.store agent.stores;
}

unfoldable pub watch : {T : Timestamps} → Action → Agent T → Option (Agent T)
watch a agent = elim (watcher_now agent) [
  | none ↦ none
  | some w ↦ elim (step agent.enricher a w) [ none ↦ none | some v ↦ some (watched_to agent v) ]
]

-- Actions of the watcher while the agent serves.
unfoldable pub watch_all : {T : Timestamps} → List Action → Agent T → Option (Agent T)
watch_all [] agent = some agent
watch_all (a ∷ actions) agent = elim (watch a agent) [
  | none ↦ none
  | some later ↦ watch_all actions later
]

-- The callbacks, one after the other.
abbrev pub handle_all : List (Option RawEvent) → Watcher → Watcher
handle_all [] w = w
handle_all (obj ∷ objs) w = handle_all objs (handle obj w)

-- `New`
abbrev pub new_agent : (String → String) → Course AgentConfig
new_agent getenv = wrapped "config: " (from_env getenv)

-- The two cases at the end of `Run`.
abbrev pub agent_end : Case → Course Done
agent_end stopped = goes tt
agent_end (ended why) = fails (text_append "grpc serve: " why)

module _ {Rest : Type 0} (h : AgentHost Rest) where
  -- `KubeConfig`
  unfoldable pub kube_config : AgentConfig → Result Rest
  kube_config cfg = elim h.in_cluster_config [
    | ok rest ↦ ok rest
    | err why ↦
        h.config_from_file
          (if cfg.kubeconfig_path == "" then h.recommended_home_file else cfg.kubeconfig_path)
  ]

  -- `return ctx.Err()`
  abbrev pub given_up : Context → Watcher → Course Watcher
  given_up ctx w = elim ctx.error [ none ↦ goes w | some why ↦ fails why ]

  -- `Start`, with the callbacks that come in while it waits for the cache.
  unfoldable pub start : Context → Watcher → Course Watcher
  start ctx w = elim h.adds_handler [
    | err why ↦ fails why
    | ok done ↦
        let filled = handle_all h.initial w in
        elim h.syncs [
          | none ↦ waits
          | some synced ↦
              if synced then goes (record filled { running = true }) else given_up ctx filled
        ]
  ]

module _ (T : Timestamps) {Rest : Type 0} (h : AgentHost Rest) where
  -- `newGRPCServer`
  unfoldable pub new_grpc_server : Store → Clientset → Result Metrics → GrpcServer T
  new_grpc_server s k8s metrics = record {
    store = s;
    enricher = k8s.owners;
    objects = k8s.objects;
    logs = k8s.logs;
    metrics = metrics_interface metrics;
    ids = h.ids;
    reasons = h.reasons;
    names = h.names;
  }

  -- `Run` up to `srv.Serve`: one store is made, and its address is handed to the watcher and to the
  -- server.
  unfoldable pub set_up : Context → AgentConfig → Course (Agent T)
  set_up ctx cfg = do
    rest ← wrapped "kubeconfig: " (kube_config h cfg)
    k8s ← wrapped "k8s client: " (h.new_clientset rest)
    (event_store, stores) ← goes (allocate cfg.store_max_size [])
    w ←
        in_context "watcher start: "
          (start h ctx (new_watcher cfg.cluster_name (new cfg.store_max_size)))
    listener ←
        wrapped (text_append "listen " (text_append cfg.grpc_addr ": ")) (h.listen cfg.grpc_addr)
    goes (record {
      stores = stores;
      enricher = k8s.owners;
      watched = event_store;
      watcher = w;
      answered_from = event_store;
      server = new_grpc_server (new cfg.store_max_size) k8s (h.new_metrics rest);
    })

  -- `Run`
  unfoldable pub agent_run : Context → AgentConfig → Course Done
  agent_run ctx cfg = do
    agent ← set_up ctx cfg
    taken ← select h.first ctx.done h.served
    agent_end taken

  -- `New` and the rest of `main`.
  unfoldable pub agent_main : (String → String) → Course Done
  agent_main getenv = do cfg ← new_agent getenv; agent_run background cfg

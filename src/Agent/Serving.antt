-- ===== src/Agent/Serving.antt =====
-- When the agent of internal/app/clusteragent/clusteragent.go serves, and how cmd/cluster-agent/main.go
-- ends.
use Prim.Native.String.{String}
use mathlib.Core.Bool.{Bool, true, false}
use mathlib.Core.List.{List, [], ◌∷◌, ◌++◌}
use mathlib.Core.Option.{Option, none, some}
use mathlib.Core.Logic.{◌≢◌}
use mathlib.Core.Path.{◌≡◌, refl, sym, ap, subst, ◌∙◌}
use mcp_k8s.Base.Result.{Result, ok, err}
use mcp_k8s.Event.Normalize.{RawEvent}
use mcp_k8s.Enrichment.{Client}
use mcp_k8s.Store.{Store, new}
use mcp_k8s.Base.{Option-cases, zero, suc, ℕ, inl, inr}
use mcp_k8s.Watcher.{Watcher, Action, delivered, launched, handle, launch, step, run, new_watcher}
use mcp_k8s.Proto.{Timestamps}
use mcp_k8s.Agent.{Metrics, GrpcServer}
use mcp_k8s.Agent.Memory.{agent_watcher}
use mcp_k8s.Agent.Startup.{
  AgentHost, Agent, Clientset, Stores, store_at, put_store, server_now, watcher_now, watched_to,
  watch, watch_all, handle_all, new_agent, kube_config, start, new_grpc_server, set_up, agent_end,
  agent_run, agent_main,
}
use mcp_k8s.Config.{AgentConfig}
use mcp_k8s.Process.{
  Course, Done, goes, fails, waits, ◌>>=◌, wrapped, in_context, Context, background, exit_code,
  exited, bind-IsUnfinished, select-IsUnfinished, exit_code-IsUnfinished,
}

bind_goes {ℓ κ} :
    {A : Type ℓ} {B : Type κ} (m : Course A) (f : A → Course B) (b : B)
    → (m >>= f) ≡ goes b
    → (a : A) × (m ≡ goes a) × (f a ≡ goes b)
bind_goes (goes a) f b done = (a, refl, done)
bind_goes (fails why) f b done = absurd cc
bind_goes waits f b done = absurd cc

in_context_goes {ℓ} :
    {A : Type ℓ} (prefix : String) (m : Course A) (a : A)
    → in_context prefix m ≡ goes a
    → m ≡ goes a
in_context_goes prefix (goes a) b done = done
in_context_goes prefix (fails why) b done = absurd cc
in_context_goes prefix waits b done = absurd cc

wrapped_goes {ℓ} :
    {A : Type ℓ} (prefix : String) (m : Result A) (a : A) → wrapped prefix m ≡ goes a → m ≡ ok a
wrapped_goes prefix (ok a) b done = let same : a ≡ b = cc in ap ok same
wrapped_goes prefix (err why) b done = absurd cc

store_at-put_store :
    (address : ℕ) (s t : Store) (stores : Stores)
    → store_at address stores ≡ some s
    → store_at address (put_store address t stores) ≡ some t
store_at-put_store address s t [] found = absurd cc
store_at-put_store zero s t (old ∷ stores) found = refl
store_at-put_store (suc address) s t (other ∷ stores) found =
    store_at-put_store address s t stores found

-- The callbacks of the events that came in before an action.
abbrev pub deliveries_of : List (Option RawEvent) → List Action
deliveries_of [] = []
deliveries_of (obj ∷ objs) = delivered obj ∷ deliveries_of objs

run-deliveries_of :
    (c : Client) (objs : List (Option RawEvent)) (actions : List Action) (w : Watcher)
    → run c (deliveries_of objs ++ actions) w ≡ run c actions (handle_all objs w)
unfolding run step
run-deliveries_of c [] actions w = refl
run-deliveries_of c (obj ∷ objs) actions w = run-deliveries_of c objs actions (handle obj w)

-- The callbacks change nothing but the channel.
handle_all-pipeline :
    (objs : List (Option RawEvent)) (w : Watcher)
    → handle_all objs w ≡ record w { pipeline = (handle_all objs w).pipeline }
unfolding handle
handle_all-pipeline [] w = refl
handle_all-pipeline (none ∷ objs) w = handle_all-pipeline objs w
handle_all-pipeline (some raw ∷ objs) w = handle_all-pipeline objs (handle (some raw) w)

-- What the watcher's actions do to the agent: they are a run of its watcher on the store that its
-- pointer leads to, what this run leaves in the store is there, and the server stays.
watch_all_lem :
    {T : Timestamps} (actions : List Action) (agent after : Agent T) (s : Store)
    → store_at agent.watched agent.stores ≡ some s
    → watch_all actions agent ≡ some after
    → (v : Watcher) × (run agent.enricher actions (record agent.watcher { store = s }) ≡ some v)
      × (store_at agent.watched after.stores ≡ some v.store)
      × (after.answered_from ≡ agent.answered_from)
      × (after.server ≡ agent.server)
unfolding run watch_all watch watcher_now
watch_all_lem [] agent after s here done =
    let same : agent ≡ after = cc in
    (
      record agent.watcher { store = s },
      refl,
      subst (λ (x : Agent _). store_at agent.watched x.stores ≡ some s) same here,
      ap (λ (x : Agent _). x.answered_from) (sym same),
      ap (λ (x : Agent _). x.server) (sym same),
    )
watch_all_lem (a ∷ actions) agent after s here done =
    let w : Watcher = record agent.watcher { store = s } in
    elim (Option-cases (step agent.enricher a w)) [
      | inl stuck ↦
          let no : none ≡ some after = rw (here, stuck, watch_all, watch, watcher_now) at done in
          absurd cc
      | inr (v, moved) ↦
          let later : watch_all actions (watched_to agent v) ≡ some after =
            rw (here, moved, watch_all, watch, watcher_now) at done in
          let (u, ran, there, from, server) =
            watch_all_lem actions (watched_to agent v) after v.store
              (store_at-put_store agent.watched s v.store agent.stores here) later in
          (u, rw (moved, run) ran, there, from, server)
    ]

server_now_lem :
    {T : Timestamps} (agent after : Agent T) (s : Store)
    → after.answered_from ≡ agent.answered_from
    → after.server ≡ agent.server
    → store_at agent.answered_from after.stores ≡ some s
    → server_now after ≡ some (record agent.server { store = s })
unfolding server_now
server_now_lem {T = T} agent after s from server there =
    rw (from, there, server_now) (ap (λ (x : GrpcServer T). some (record x { store = s })) server)

module _ (T : Timestamps) {Rest : Type 0} (h : AgentHost Rest) where
  start_goes :
      (ctx : Context) (w v : Watcher)
      → (h.syncs ≡ some false → (why : String) × (ctx.error ≡ some why))
      → start h ctx w ≡ goes v
      → (h.syncs ≡ some true) × (v ≡ record (handle_all h.initial w) { running = true })
  unfolding start
  start_goes ctx w v sound done = go h.adds_handler h.syncs refl refl
    where
      go :
          (added : Result Done) (synced : Option Bool)
          → h.adds_handler ≡ added
          → h.syncs ≡ synced
          → (h.syncs ≡ some true) × (v ≡ record (handle_all h.initial w) { running = true })
      go (err why) synced added answer =
          let no : fails why ≡ goes v = rw (added, start) at done in absurd cc
      go (ok tt) none added answer =
          let no : waits ≡ goes v = rw (added, answer, start) at done in absurd cc
      go (ok tt) (some true) added answer =
          let same : goes (record (handle_all h.initial w) { running = true }) ≡ goes v =
            rw (added, answer, start) at done in
          (answer, cc)
      go (ok tt) (some false) added answer =
          let (why, given) = sound answer in
          let no : fails why ≡ goes v = rw (added, answer, given, start) at done in absurd cc

  -- The callbacks and the launch as a run of the new watcher.
  run-start :
      (c : Client) (cfg : AgentConfig) (actions : List Action)
      → run c (deliveries_of h.initial ++ launched ∷ actions) (agent_watcher cfg)
        ≡ run c actions (record (handle_all h.initial (agent_watcher cfg)) { running = true })
  unfolding run step launch agent_watcher new_watcher
  run-start c cfg actions =
      run-deliveries_of c h.initial (launched ∷ actions) (agent_watcher cfg)
      ∙ rw (handle_all-pipeline h.initial (agent_watcher cfg), run, step, launch) refl

  -- The launched watcher still has the new store.
  begun-store :
      (cfg : AgentConfig) (w : Watcher)
      → w ≡ record (handle_all h.initial (agent_watcher cfg)) { running = true }
      → record w { store = new cfg.store_max_size }
        ≡ record (handle_all h.initial (agent_watcher cfg)) { running = true }
  unfolding agent_watcher new_watcher
  begun-store cfg w begun =
      let filled = handle_all h.initial (agent_watcher cfg) in
      ap (λ (x : Watcher). record x { store = new cfg.store_max_size }) begun
      ∙ ap (λ (s : Store). record filled { running = true; store = s })
          (sym (ap (λ (x : Watcher). x.store) (handle_all-pipeline h.initial (agent_watcher cfg))))

  -- What `Run` has put together, from what was made on the way.
  abbrev made_of : AgentConfig → Clientset → Result Metrics → Watcher → Agent T
  made_of cfg k8s metrics w = record {
    stores = new cfg.store_max_size ∷ [];
    enricher = k8s.owners;
    watched = 0;
    watcher = w;
    answered_from = 0;
    server = new_grpc_server T h (new cfg.store_max_size) k8s metrics;
  }

  set_up-made_of :
      (ctx : Context) (cfg : AgentConfig) (agent : Agent T)
      → (h.syncs ≡ some false → (why : String) × (ctx.error ≡ some why))
      → set_up T h ctx cfg ≡ goes agent
      → (rest : Rest) × (k8s : Clientset) × (w : Watcher) × (kube_config h cfg ≡ ok rest)
        × (h.new_clientset rest ≡ ok k8s)
        × (h.syncs ≡ some true)
        × (w ≡ record (handle_all h.initial (agent_watcher cfg)) { running = true })
        × (made_of cfg k8s (h.new_metrics rest) w ≡ agent)
  unfolding set_up agent_watcher
  set_up-made_of ctx cfg agent sound done =
      let (rest, configured, a) =
        bind_goes (wrapped "kubeconfig: " (kube_config h cfg)) _ agent done in
      let (k8s, made, b) = bind_goes (wrapped "k8s client: " (h.new_clientset rest)) _ agent a in
      let (w, began, c) =
        bind_goes (in_context "watcher start: " (start h ctx (agent_watcher cfg))) _ agent b in
      let (listener, listens, d) = bind_goes (wrapped _ (h.listen cfg.grpc_addr)) _ agent c in
      let (synced, begun) =
        start_goes ctx (agent_watcher cfg) w sound
          (in_context_goes "watcher start: " (start h ctx (agent_watcher cfg)) w began) in
      let same : made_of cfg k8s (h.new_metrics rest) w ≡ agent = cc in
      (
        rest,
        k8s,
        w,
        wrapped_goes "kubeconfig: " (kube_config h cfg) rest configured,
        wrapped_goes "k8s client: " (h.new_clientset rest) k8s made,
        synced,
        begun,
        same,
      )

  -- The watcher and the server of an agent that was put together around a launched watcher.
  made_of-watch_all :
      (cfg : AgentConfig) (k8s : Clientset) (metrics : Result Metrics) (w : Watcher)
      (actions : List Action) (after : Agent T)
      → w ≡ record (handle_all h.initial (agent_watcher cfg)) { running = true }
      → watch_all actions (made_of cfg k8s metrics w) ≡ some after
      → (v : Watcher) × (run k8s.owners
            (deliveries_of h.initial ++ launched ∷ actions)
            (agent_watcher cfg)
          ≡ some v)
        × (server_now after ≡ some (new_grpc_server T h v.store k8s metrics))
  unfolding server_now new_grpc_server
  made_of-watch_all cfg k8s metrics w actions after begun served =
      let (v, ran, there, from, server) =
        watch_all_lem actions (made_of cfg k8s metrics w) after (new cfg.store_max_size) refl
          served in
      let same : record w { store = new cfg.store_max_size }
          ≡ record (handle_all h.initial (agent_watcher cfg)) { running = true } =
        begun-store cfg w begun in
      (
        v,
        run-start k8s.owners cfg actions
            ∙ subst (λ (x : Watcher). run k8s.owners actions x ≡ some v) same ran,
        server_now_lem (made_of cfg k8s metrics w) after v.store from server there,
      )

  -- If `WaitForCacheSync` gives up only on a context that is cancelled, then `Run` comes to serve only
  -- after the cache is synced, with the clientset of its configuration. Whatever the watcher does
  -- afterwards is one run from the new watcher of the configuration: the events that came in before
  -- the sync, the launch, and these actions. The server answers from the store that this run leaves,
  -- and is the one that `newGRPCServer` makes on it.
  pub set_up_goes :
      (ctx : Context) (cfg : AgentConfig) (agent after : Agent T) (actions : List Action)
      → (h.syncs ≡ some false → (why : String) × (ctx.error ≡ some why))
      → set_up T h ctx cfg ≡ goes agent
      → watch_all actions agent ≡ some after
      → (rest : Rest) × (k8s : Clientset) × (v : Watcher) × (h.syncs ≡ some true)
        × (kube_config h cfg ≡ ok rest)
        × (h.new_clientset rest ≡ ok k8s)
        × (run k8s.owners (deliveries_of h.initial ++ launched ∷ actions) (agent_watcher cfg)
            ≡ some v)
        × (server_now after ≡ some (new_grpc_server T h v.store k8s (h.new_metrics rest)))
  set_up_goes ctx cfg agent after actions sound done served =
      let (rest, k8s, w, configured, made, synced, begun, same) =
        set_up-made_of ctx cfg agent sound done in
      let (v, ran, answers) =
        made_of-watch_all cfg k8s (h.new_metrics rest) w actions after begun
          (subst (λ (x : Agent T). watch_all actions x ≡ some after) (sym same) served) in
      (rest, k8s, v, synced, configured, made, ran, answers)

  -- With the context of `main`, which is never cancelled, the process of the agent never ends with
  -- the exit code 0, whether `main` comes to its end or a panic or a signal ends the process first.
  pub exit_code-agent_main :
      (getenv : String → String) → exit_code h.strike (agent_main T h getenv) ≢ some (exited 0)
  unfolding agent_main agent_run
  exit_code-agent_main getenv = exit_code-IsUnfinished h.strike (agent_main T h getenv) (
      bind-IsUnfinished (new_agent getenv) (agent_run T h background) λ cfg.
        bind-IsUnfinished (set_up T h background cfg) _
          λ agent. select-IsUnfinished h.first h.served agent_end λ why. tt)

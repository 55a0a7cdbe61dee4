-- ===== src/Agent/Ingestion.antt =====
-- The cluster agent of internal/app/clusteragent from the events that come in to the answers that go
-- out.
use Prim.Native.Nat.{ℕ, ◌^◌, ◌<◌}
use Prim.Native.String.{String}
use mathlib.Core.List.{List, [], ◌++◌, Perm}
use mathlib.Core.Option.{some}
use mathlib.Core.Path.{◌≡◌, sym, ap, subst, ◌∙◌}
use mcp_k8s.Base.{arith, length, length-append, keep, take, is_pos, if◌then◌else◌, Ranging}
use mcp_k8s.Base.Result.{ok}
use mcp_k8s.Event.{NormalizedEvent}
use mcp_k8s.Enrichment.{Client}
use mcp_k8s.Store.View.{view}
use mcp_k8s.Store.Runs.{add_episodes, view-add_all}
use mcp_k8s.Store.Query.{Filter, query}
use mcp_k8s.Store.Sorting.{IsNewestFirst}
use mcp_k8s.Store.Answers.{matches}
use mcp_k8s.Store.Episodes.{query-view}
use mcp_k8s.Watcher.{Watcher, Action, new_watcher, run}
use mcp_k8s.Watcher.Order.{pending, accepted, enrich_all, run-Conserves}
use mcp_k8s.Agent.Memory.{agent_watcher, length-accepted, length-enrich_all, run-IsCapped}
use mcp_k8s.Config.{AgentConfig, from_env}
use mcp_k8s.Config.Usable.{from_env-IsUsable}

module _ (getenv : String → String) (cfg : AgentConfig) (c : Client) (actions : List Action)
    (v : Watcher) (made : from_env getenv ≡ ok cfg) (few : length actions < 2 ^ 64)
    (ran : run c actions (agent_watcher cfg) ≡ some v) where
  -- What the agent has stored: the accepted events but those that are pending.
  pub view-run :
      (evs : List NormalizedEvent) × (evs ++ pending v ≡ accepted c actions (agent_watcher cfg))
      × (view v.store ≡ add_episodes cfg.store_max_size (enrich_all c evs) [])
  unfolding agent_watcher new_watcher
  view-run =
      let (evs, added, split) = run-Conserves c actions (agent_watcher cfg) v ran in
      let fits : length (enrich_all c evs) < 2 ^ 64 = omega (
        arith,
        few,
        length-enrich_all c evs,
        ap length split,
        length-append evs (pending v),
        length-accepted c actions (agent_watcher cfg),
      ) in
      let (t, done, spec) = view-add_all cfg.store_max_size (enrich_all c evs) fits in
      let same : t ≡ v.store = cc in
      (
        evs,
        sym split,
        sym (ap view same)
            ∙ spec
            ∙ ap (λ m. add_episodes m (enrich_all c evs) []) (from_env-IsUsable getenv cfg made).4,
      )

  -- An agent that starts on an accepted configuration answers, after any run of fewer than 2 ^ 64
  -- actions, from the episodes that the accepted events make, each enriched and in the order of their
  -- arrival, without those that are still pending: there is a list of exactly the episodes that match
  -- the filter, newest first, such that `Query` returns its first `limit` events if the limit is
  -- positive, and all of it otherwise.
  pub query-run :
      (ids : Ranging ℕ) (f : Filter)
      → (evs : List NormalizedEvent) × (all : List NormalizedEvent) × (evs ++ pending v
          ≡ accepted c actions (agent_watcher cfg))
        × Perm all (keep (matches f) (add_episodes cfg.store_max_size (enrich_all c evs) []))
        × IsNewestFirst all
        × (query ids v.store f ≡ (if is_pos f.limit then take f.limit all else all))
  query-run ids f =
      let (evs, split, spec) = view-run in
      let (valid, capped, bounded) = run-IsCapped getenv cfg c actions v made few ran in
      let (all, perm, newest, limited) = query-view ids v.store f valid in
      (evs, all, split, subst (λ l. Perm all (keep (matches f) l)) spec perm, newest, limited)

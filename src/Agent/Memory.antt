-- ===== src/Agent/Memory.antt =====
-- The parts that `Run` of internal/app/clusteragent/clusteragent.go puts together, the configuration,
-- the store and the watcher: what the agent keeps in memory.
use Prim.Native.Nat.{ℕ, ◌+◌, ◌^◌, ◌≤◌, ◌<◌}
use Prim.Native.String.{String}
use mathlib.Core.List.{List, [], ◌∷◌, ◌++◌}
use mathlib.Core.Option.{Option, none, some}
use mathlib.Core.Logic.{inl, inr}
use mathlib.Core.Path.{◌≡◌, refl, sym, ap, subst, ◌∙◌}
use mcp_k8s.Base.{arith, length, length-append, Bool-cases, ltb}
use mcp_k8s.Base.Result.{ok}
use mcp_k8s.Event.{NormalizedEvent}
use mcp_k8s.Enrichment.{Client}
use mcp_k8s.Store.{Store, new, len}
use mcp_k8s.Store.Invariant.{IsValid}
use mcp_k8s.Store.Adds.{new-IsValid, add-IsValid, add_all, add_all-IsValid}
use mcp_k8s.Store.Runs.{add-max_size}
use mcp_k8s.Watcher.{
  Watcher, Action, delivered, launched, received, finished, left, pipeline_buffer, new_watcher,
  step, run,
}
use mcp_k8s.Watcher.Order.{pending, entered, accepted, enrich_all, Conserves, run-Conserves}
use mcp_k8s.Watcher.Startup.{run-IsBounded}
use mcp_k8s.Config.{AgentConfig, from_env}
use mcp_k8s.Config.Usable.{from_env-IsUsable}

-- The watcher of `Run`, with its store.
unfoldable pub agent_watcher : AgentConfig → Watcher
agent_watcher cfg = new_watcher cfg.cluster_name (new cfg.store_max_size)

add_all-max_size :
    (s t : Store) (evs : List NormalizedEvent)
    → IsValid s
    → s.next_id + length evs < 2 ^ 64
    → add_all s evs ≡ some t
    → t.max_size ≡ s.max_size
unfolding add_all
add_all-max_size s t [] v bound done =
    let same : s ≡ t = cc in ap (λ (u : Store). u.max_size) (sym same)
add_all-max_size s t (e ∷ evs) v bound done =
    let (u, added, valid, next) = add-IsValid s e v (omega arith) in
    add_all-max_size u t evs valid (omega arith) (rw (added, add_all) at done)
    ∙ add-max_size s u e v added

pub length-enrich_all :
    (c : Client) (evs : List NormalizedEvent) → length (enrich_all c evs) ≡ length evs
length-enrich_all c [] = refl
length-enrich_all c (e ∷ evs) = omega (arith, length-enrich_all c evs)

length-entered : (w : Watcher) (a : Action) → length (entered w a) ≤ 1
length-entered w (delivered none) = omega arith
length-entered w (delivered (some raw)) =
    elim (Bool-cases (ltb (length w.pipeline) pipeline_buffer)) [
      | inl room ↦ rw room (omega arith)
      | inr full ↦ rw full (omega arith)
    ]
length-entered w launched = omega arith
length-entered w received = omega arith
length-entered w finished = omega arith
length-entered w left = omega arith

pub length-accepted :
    (c : Client) (actions : List Action) (w : Watcher)
    → length (accepted c actions w) ≤ length actions
unfolding accepted
length-accepted c [] w = omega arith
length-accepted c (a ∷ actions) w = go (λ v. length-accepted c actions v) (step c a w) refl
  where
    go :
        ((v : Watcher) → length (accepted c actions v) ≤ length actions)
        → (o : Option Watcher) → step c a w ≡ o
        → length (accepted c (a ∷ actions) w) ≤ length (a ∷ actions)
    go rest none stuck =
        let split : accepted c (a ∷ actions) w ≡ entered w a ++ [] = rw (stuck, accepted) refl in
        omega (arith, ap length split, length-append (entered w a) [], length-entered w a)
    go rest (some v) moved =
        let split : accepted c (a ∷ actions) w ≡ entered w a ++ accepted c actions v =
          rw (moved, accepted) refl in
        omega (
          arith,
          ap length split,
          length-append (entered w a) (accepted c actions v),
          length-entered w a,
          rest v,
        )

-- A valid store whose events fit this capacity, and a channel within its bound.
abbrev pub IsCapped : ℕ → Watcher → Type 0
IsCapped size v = IsValid v.store × (len v.store ≤ size) × (length v.pipeline ≤ pipeline_buffer)

conserved-IsCapped :
    (c : Client) (w v : Watcher) (new_events : List NormalizedEvent)
    → IsValid w.store
    → pending w ≡ []
    → w.store.next_id + length new_events < 2 ^ 64
    → Conserves c w new_events v
    → IsValid v.store × (len v.store ≤ w.store.max_size)
unfolding len
conserved-IsCapped c w v new_events valid empty bound (stored, added, split) =
    let evs = enrich_all c stored in
    let from_empty : new_events ≡ stored ++ pending v =
      subst (λ front. front ++ new_events ≡ stored ++ pending v) empty split in
    let fits : w.store.next_id + length evs < 2 ^ 64 = omega (
      arith,
      bound,
      length-enrich_all c stored,
      ap length from_empty,
      length-append stored (pending v),
    ) in
    let (t, done, valid_t) = add_all-IsValid w.store evs valid fits in
    let same : t ≡ v.store = cc in
    let valid_v = subst IsValid same valid_t in
    (
      valid_v,
      omega (arith, valid_v.ring.size, add_all-max_size w.store v.store evs valid fits added),
    )

-- An agent that starts on an accepted configuration keeps a valid store of at most the configured
-- number of events, and at most 512 events in its channel, whatever events arrive and however the
-- goroutine is scheduled, as long as fewer than 2^64 actions happen.
pub run-IsCapped :
    (getenv : String → String) (cfg : AgentConfig) (c : Client) (actions : List Action)
    (v : Watcher)
    → from_env getenv ≡ ok cfg
    → length actions < 2 ^ 64
    → run c actions (agent_watcher cfg) ≡ some v
    → IsCapped cfg.store_max_size v
unfolding agent_watcher new_watcher new
run-IsCapped getenv cfg c actions v made few ran =
    let w = agent_watcher cfg in
    let usable = from_env-IsUsable getenv cfg made in
    let (valid, capped) =
      conserved-IsCapped c w v (accepted c actions w) (new-IsValid cfg.store_max_size) refl
        (omega (arith, length-accepted c actions w)) (run-Conserves c actions w v ran) in
    (valid, omega (arith, capped, usable.4), run-IsBounded c actions w v (omega arith) ran)

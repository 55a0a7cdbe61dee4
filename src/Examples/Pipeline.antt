-- ===== src/Examples/Pipeline.antt =====
-- Examples of the path of an event into the store: its normalization, the watcher, and the store.
use mcp_k8s.Base.{
  contains, String, ◌≡◌, refl, true, none, some, List, [], ◌∷◌, arith, if◌then◌else◌, text_keys,
  ◌==◌, take, All, in_order,
}
use mcp_k8s.Base.Result.{ok}
use mcp_k8s.Event.{NormalizedEvent}
use mcp_k8s.Event.Normalize.{RawEvent, fields, normalize_message, normalize}
use mcp_k8s.Event.Normalize.Words.{fields-normalize_message}
use mcp_k8s.Store.{new}
use mcp_k8s.Store.Query.{query}
use mcp_k8s.Store.Summary.{summarize_namespace}
use mcp_k8s.Store.Invariant.{IsValid}
use mcp_k8s.Store.Adds.{new-IsValid}
use mcp_k8s.Store.Groups.{reasons_of, group_reasons}
use mcp_k8s.Store.Totals.{of_reason, IsTotalOf, summarize_namespace_lem}
use mcp_k8s.Watcher.{
  pipeline_buffer, Watcher, new_watcher, Action, delivered, received, run, step, handle, offer,
  receive,
}
use mcp_k8s.Watcher.Order.{accepted, Conserves, run-Conserves}
use mcp_k8s.Watcher.Startup.{deliveries, normalize_all, run-new_watcher}
use mcp_k8s.Watcher.Draining.{rounds, run-rounds}
use mcp_k8s.Config.{read_agent, from_env}
use mcp_k8s.Agent.Memory.{agent_watcher, IsCapped, run-IsCapped}
use mcp_k8s.Examples.{back_off, pulled, full_store, api}

abbrev pub noisy : String
noisy = "  Back-off\trestarting  container\n"

fields-normalize_message_example : fields (normalize_message noisy) ≡ fields noisy
fields-normalize_message_example = fields-normalize_message noisy

abbrev pub raw : RawEvent
raw = record {
  namespace = "shop";
  involved_object_kind = "Pod";
  involved_object_name = "cart-1";
  involved_object_uid = "u1";
  reason = "BackOff";
  message = noisy;
  count = 0;
  first_timestamp = 0;
  last_timestamp = 0;
  event_time = 7;
}

abbrev fresh : Watcher
fresh = new_watcher "prod" (new 2)

-- One event on its way, and an object that is no event.
abbrev busy : Watcher
busy = record fresh { running = true; pipeline = back_off ∷ pulled ∷ [] }

abbrev actions : List Action
actions = delivered (some raw) ∷ received ∷ delivered none ∷ []

abbrev after : Watcher
after = record busy { pipeline = pulled ∷ normalize "prod" raw ∷ []; in_flight = some back_off }

reached : run api actions busy ≡ some after
unfolding run step handle offer receive new_watcher
reached = refl

-- The run that stores both events.
drained :
    (v : Watcher) × (run api (rounds 2) busy ≡ some v)
    × (v.pipeline ≡ [])
    × (v.in_flight ≡ none)
    × IsValid v.store
unfolding new_watcher new
drained = run-rounds api busy refl refl (new-IsValid 2) (omega arith)

run-Conserves_example : Conserves api busy (accepted api (rounds 2) busy) drained.0
run-Conserves_example = run-Conserves api (rounds 2) busy drained.0 drained.1

run-new_watcher_example :
    run api (deliveries (raw ∷ raw ∷ [])) fresh
    ≡ some
        (record fresh { pipeline = take pipeline_buffer (normalize_all "prod" (raw ∷ raw ∷ [])) })
run-new_watcher_example = run-new_watcher api "prod" (new 2) (raw ∷ raw ∷ [])

run-rounds_example :
    (v : Watcher) × (run api (rounds 2) busy ≡ some v)
    × (v.pipeline ≡ [])
    × (v.in_flight ≡ none)
    × IsValid v.store
unfolding new_watcher new
run-rounds_example = run-rounds api busy refl refl (new-IsValid 2) (omega arith)

abbrev shop_events : List NormalizedEvent
shop_events =
    query in_order full_store (record {
      namespace = "shop";
      object_uid = "";
      reason = "";
      since = 1_000_000_000;
      limit = 0;
    })

summarize_namespace_lem_example :
    All
      (λ g. IsTotalOf (of_reason g.reason shop_events) g)
      (summarize_namespace in_order in_order in_order full_store "shop" 1_000_000_000)
    × ((k : String)
        → contains k (
            group_reasons
              (summarize_namespace in_order in_order in_order full_store "shop" 1_000_000_000))
          ≡ contains k (reasons_of shop_events))
summarize_namespace_lem_example =
    summarize_namespace_lem in_order in_order in_order full_store "shop" 1_000_000_000

-- An environment with a name, and a size that is no positive number.
abbrev getenv : String → String
getenv key =
    if key == "MCP_CLUSTER_NAME" then "prod" else if key == "MCP_STORE_MAX_SIZE" then "-5" else ""

accepted_env : from_env getenv ≡ ok (read_agent getenv)
unfolding from_env
accepted_env = refl

-- The agent of this environment, after one event has come in.
abbrev one_in : Watcher
one_in = record (agent_watcher (read_agent getenv)) { pipeline = normalize "prod" raw ∷ [] }

one_in-run :
    run api (delivered (some raw) ∷ delivered none ∷ []) (agent_watcher (read_agent getenv))
    ≡ some one_in
unfolding run step handle offer agent_watcher new_watcher
one_in-run = refl

run-IsCapped_example : IsCapped (read_agent getenv).store_max_size one_in
run-IsCapped_example =
    run-IsCapped getenv (read_agent getenv) api (delivered (some raw) ∷ delivered none ∷ []) one_in
      accepted_env (omega arith) one_in-run

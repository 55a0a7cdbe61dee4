-- ===== src/Watcher.antt =====
-- internal/app/clusteragent/watcher.go: the informer's callbacks feed a bounded channel, and one
-- goroutine takes the events out, resolves their owners and stores them. The two run side by side,
-- so a run is a sequence of actions of either.
pub mod Order
pub mod Startup
pub mod Draining
use mcp_k8s.Base.{
  ℕ, String, Bool, true, false, not, ◌||◌, Option, none, some, List, [], ◌∷◌, ◌++◌, if◌then◌else◌,
  ltb, num_keys, text_keys, length,
}
use mcp_k8s.Event.{NormalizedEvent}
use mcp_k8s.Event.Normalize.{RawEvent, normalize}
use mcp_k8s.Store.{Store, add}
use mcp_k8s.Enrichment.{Client, Walk, resolve_owner_chain}

abbrev pub pipeline_buffer : ℕ
pipeline_buffer = 512

-- `pipeline` is the content of the channel, oldest first; `in_flight` is the event that the
-- goroutine has taken and not stored yet. `running` is set while the goroutine runs, `cancelled`
-- once the context is.
pub record Watcher : Type 0 where
  pub cluster_name : String
  pub store : Store
  pub pipeline : List NormalizedEvent
  pub in_flight : Option NormalizedEvent
  pub running : Bool
  pub cancelled : Bool

-- `newWatcher`
unfoldable pub new_watcher : String → Store → Watcher
new_watcher cluster_name store = record {
  cluster_name = cluster_name;
  store = store;
  pipeline = [];
  in_flight = none;
  running = false;
  cancelled = false;
}

-- The send of `handle`: an event that does not fit is dropped.
unfoldable pub offer : NormalizedEvent → List NormalizedEvent → List NormalizedEvent
offer e pipeline = if ltb (length pipeline) pipeline_buffer then pipeline ++ e ∷ [] else pipeline

-- `handle`; an object that is no event is `none`.
unfoldable pub handle : Option RawEvent → Watcher → Watcher
handle none w = w
handle (some raw) w = record w { pipeline = offer (normalize w.cluster_name raw) w.pipeline }

abbrev pub with_chain : NormalizedEvent → Walk → NormalizedEvent
with_chain e (chain, none) = record e { owner_chain = chain }
with_chain e (chain, some why) = e

-- The enrichment of `runPipeline`: an owner chain that ended with an error is not kept.
unfoldable pub enrich : Client → NormalizedEvent → NormalizedEvent
enrich c e =
    with_chain e (resolve_owner_chain c e.namespace e.involved_object_kind e.involved_object_name)

-- The receive of `runPipeline`.
unfoldable pub receive : Watcher → Option Watcher
receive w = if not w.running then none else elim w.in_flight [
  | some busy ↦ none
  | none ↦ elim w.pipeline [
    | [] ↦ none
    | e ∷ rest ↦ some (record w { pipeline = rest; in_flight = some e })
  ]
]

-- The rest of the loop body of `runPipeline`; a panic of the store is `none`.
unfoldable pub finish : Client → Watcher → Option Watcher
finish c w = elim w.in_flight [
  | none ↦ none
  | some e ↦ elim (add w.store (enrich c e)) [
    | none ↦ none
    | some store ↦ some (record w { store = store; in_flight = none })
  ]
]

-- The end of `Start`, behind the wait for the cache: the goroutine is launched.
unfoldable pub launch : Watcher → Option Watcher
launch w = if w.running || w.cancelled then none else some (record w { running = true })

-- The context is cancelled, and the goroutine sees it between two events.
unfoldable pub leave : Watcher → Option Watcher
leave w = elim w.in_flight [
  | some busy ↦ none
  | none ↦ some (record w { running = false; cancelled = true })
]

pub data Action : Type 0 where
  delivered : Option RawEvent → Action
  launched received finished left : Action

-- One action, if it can happen.
unfoldable pub step : Client → Action → Watcher → Option Watcher
unfolding handle
step c (delivered obj) w = some (handle obj w)
step c launched w = launch w
step c received w = receive w
step c finished w = finish c w
step c left w = leave w

unfoldable pub run : Client → List Action → Watcher → Option Watcher
run c [] w = some w
run c (a ∷ actions) w = elim (step c a w) [ none ↦ none | some v ↦ run c actions v ]

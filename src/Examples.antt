-- ===== src/Examples.antt =====
-- Tests of the definitions at concrete inputs, and the theorems applied at concrete inputs: the
-- data that the tests share.
pub mod Orders
pub mod Pipeline
pub mod Agents
pub mod Front
pub mod Service
pub mod Stores
pub mod Queries
pub mod Clusters
pub mod Processes
pub mod Explanations
pub mod Whole
use mcp_k8s.Examples.Orders.{insertion}
use mcp_k8s.Correlation.{Timeline, CauseIndex, caused_by_index, correlate}
use mcp_k8s.Response.{Response, ResponseMode, build}
use mcp_k8s.Registry.{ClusterEntry, Registry, World}
use mcp_k8s.Registry.Safety.{IsConsistent}
use mcp_k8s.Gateway.{QueryRequest}
use mcp_k8s.Base.{
  String, false, ◌==◌, ◌≡◌, refl, sym, ap, subst, true, none, some, List, [], ◌∷◌, arith,
  if◌then◌else◌, num_keys, text_keys, add_key, or_else, lookup, insert, in_order,
}
use mcp_k8s.Base.Result.{Result, ok, err}
use mcp_k8s.Event.{NormalizedEvent, Time, dedup_keys}
use mcp_k8s.Store.{
  Store, new, add_to_index, add, find_burst, insert_event, enter, place, track, index_event,
  is_same_burst, update_burst,
}
use mcp_k8s.Store.Adds.{new-IsValid, add_all, add_all-IsValid}
use mcp_k8s.Store.Invariant.{IsValid}
use mcp_k8s.Planner.{list_events}
use mcp_k8s.Enrichment.{Client, resolve_owner_chain}
use mcp_k8s.Proto.{Timestamps, to_proto_events}
use mcp_k8s.Messages.{AgentClient}
use mcp_k8s.Executor.{ExecutionResult}

abbrev pub back_off : NormalizedEvent
back_off = record {
  cluster_name = "prod";
  namespace = "shop";
  involved_object_kind = "Pod";
  involved_object_name = "cart-1";
  involved_object_uid = "u1";
  owner_chain = record { kind = "Pod"; name = "cart-1"; uid = "u1" } ∷ [];
  reason = "BackOff";
  message = "restarting";
  count = 3;
  first_seen = 1_000_000_000;
  last_seen = 2_000_000_000;
}

abbrev pub back_off_again : NormalizedEvent
back_off_again = record back_off { count = 4; last_seen = 5_000_000_000; message = "again" }

abbrev pub pulled : NormalizedEvent
pulled = record back_off { reason = "Pulled"; count = 1; last_seen = 3_000_000_000 }

abbrev pub scheduled : NormalizedEvent
scheduled = record back_off { reason = "Scheduled"; count = 1; last_seen = 4_000_000_000 }

-- A store of two entries that is full, with a burst that was updated in place.
abbrev pub full_store : Store
full_store = or_else (add_all (new 2) (back_off ∷ pulled ∷ back_off_again ∷ [])) (new 2)

pub full_store-next_id : full_store.next_id ≡ 2
unfolding add_all add new find_burst insert_event enter place track index_event add_to_index
    is_same_burst update_burst lookup insert add_key
full_store-next_id = refl

pub full_store-IsValid : IsValid full_store
full_store-IsValid =
    let (t, done, v) =
      add_all-IsValid (new 2) (back_off ∷ pulled ∷ back_off_again ∷ []) (new-IsValid 2)
        (unfold new in omega arith) in
    subst IsValid (sym (ap (λ o. or_else o (new 2)) done)) v

-- A pod with two owners, of which the second controls it, and its replica set.
abbrev pub api : Client
api = record {
  pods = λ ns n. ok (record {
    owner_references =
        record { kind = "Node"; name = "n1"; controller = none }
        ∷ record { kind = "ReplicaSet"; name = "cart"; controller = some true }
        ∷ [];
    uid = "u1";
  });
  replica_sets = λ ns n. ok (record { owner_references = []; uid = "u2" });
  deployments = λ ns n. err "not found";
  stateful_sets = λ ns n. err "not found";
  daemon_sets = λ ns n. err "not found";
  jobs = λ ns n. err "not found";
  cron_jobs = λ ns n. err "not found";
  persistent_volume_claims = λ ns n. err "not found";
}

abbrev pub nanoseconds : Timestamps
nanoseconds = record { Timestamp = Time; new = λ t. t; as_time = λ t. t; as_time-new = λ t. refl }

-- An agent that lists events and fails every other call.
abbrev pub agent : AgentClient nanoseconds
agent = record {
  list_events = λ r. ok (to_proto_events nanoseconds (back_off ∷ []));
  get_events_for_object = λ r. err "unavailable";
  get_namespace_summary = λ r. err "unavailable";
  resolve_owner_chain = λ r. err "unavailable";
  get_object_snapshot = λ r. err "unavailable";
  get_container_logs = λ r. err "unavailable";
  get_pod_metrics = λ r. err "unavailable";
}

abbrev pub causes : CauseIndex
causes = caused_by_index in_order

-- A disk on which the rename fails, an encoding by names, and a dialler.
abbrev pub world : World
world = record {
  range = in_order;
  codec = record {
    indented = λ es. elim es [ [] ↦ ok "" | e ∷ rest ↦ ok e.cluster_name ];
    parsed = λ text. err "not json";
  };
  disk = record { creates = true; writes = true; closes = true; renames = false };
  new_client = λ endpoint. ok (record { endpoint = endpoint; number = 1 });
}

abbrev pub prod : ClusterEntry
prod = record { cluster_name = "prod"; grpc_endpoint = "agent:9090"; labels = [] }

abbrev pub empty_registry : Registry
empty_registry = record {
  entries = [];
  conns = [];
  file_path = "registry.json";
  file = none;
  closed = [];
}

pub empty_registry-IsConsistent : IsConsistent empty_registry
unfolding lookup
empty_registry-IsConsistent = λ k. tt

abbrev pub clients : String → Result (AgentClient nanoseconds)
clients name = if name == "prod" then ok agent else err "not registered"

abbrev pub timeline_of : List NormalizedEvent → Timeline
timeline_of =
    correlate causes (insertion λ e. e.last_seen) (insertion λ ce. ce.event.last_seen) in_order

abbrev pub build_with : String → ResponseMode → Timeline → ExecutionResult nanoseconds → Response
build_with = build (λ n. "some") in_order in_order nanoseconds

abbrev pub pod_request : QueryRequest
pod_request = record {
  cluster_name = "prod";
  namespace = "shop";
  object_kind = "Pod";
  object_name = "cart-1";
  reason = "";
  since_minutes = 0;
  limit = 0;
  intent = "ExplainObjectIssue";
  mode = "concise";
}

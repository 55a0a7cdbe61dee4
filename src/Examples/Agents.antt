-- ===== src/Examples/Agents.antt =====
-- Examples of a cluster agent: its snapshots, and its answers to the steps of a plan.
use mcp_k8s.Base.{
  ◌≤◌, ◌≡◌, refl, true, false, List, [], ◌∷◌, text_keys, length, or_else, lookup, in_order,
}
use mcp_k8s.Base.Result.{Result, ok, err, is_ok}
use mcp_k8s.Enrichment.{max_chain_depth}
use mcp_k8s.Enrichment.Snapshot.{
  ApiObject, ApiCondition, ObjectClient, ObjectSnapshot, get_object_snapshot,
}
use mcp_k8s.Enrichment.Snapshot.Laws.{
  availability, IsOf, get_object_snapshot-is_ok, get_object_snapshot_lem,
}
use mcp_k8s.Agent.Answers.{Wire}
use mcp_k8s.Agent.{GrpcServer, Metrics, get_pod_metrics, nil_interface}
use mcp_k8s.Agent.Wiring.{metrics_interface, answers, get_pod_metrics-metrics_interface}
use mcp_k8s.Examples.{api, full_store, nanoseconds}

abbrev cart : ApiObject
cart = record { uid = "u3"; labels = []; annotations = []; status_json = "{}" }

abbrev not_available : List ApiCondition
not_available =
    record { type = "Progressing"; status = "True"; reason = "NewReplicaSet"; message = "" }
    ∷ record { type = "Available"; status = "False"; reason = "MinimumReplicas"; message = "" }
    ∷ []

-- An API that has one deployment.
abbrev pub objects : ObjectClient
objects = record {
  pods = λ ns n. err "not found";
  deployments = λ ns n. ok (cart, not_available);
  stateful_sets = λ ns n. err "not found";
  daemon_sets = λ ns n. err "not found";
  replica_sets = λ ns n. err "not found";
  jobs = λ ns n. err "not found";
  cron_jobs = λ ns n. err "not found";
  persistent_volume_claims = λ ns n. err "not found";
}

get_object_snapshot-is_ok_example :
    is_ok (get_object_snapshot objects api "shop" "Deployment" "cart")
    ≡ or_else (lookup "Deployment" (availability objects "shop" "cart")) false
get_object_snapshot-is_ok_example = get_object_snapshot-is_ok objects api "shop" "Deployment" "cart"

taken : (r : Result ObjectSnapshot) → is_ok r ≡ true → (s : ObjectSnapshot) × (r ≡ ok s)
taken (ok s) h = (s, refl)
taken (err why) h = absurd cc

found : (s : ObjectSnapshot) × (get_object_snapshot objects api "shop" "Deployment" "cart" ≡ ok s)
unfolding lookup
found =
    taken (get_object_snapshot objects api "shop" "Deployment" "cart")
      (get_object_snapshot-is_ok objects api "shop" "Deployment" "cart")

get_object_snapshot_lem_example :
    IsOf "shop" "Deployment" "cart" found.0 × (length found.0.owner_chain ≤ max_chain_depth)
get_object_snapshot_lem_example =
    get_object_snapshot_lem objects api "shop" "Deployment" "cart" found.0 found.1

-- A wire on which everything arrives.
abbrev pub perfect : Wire
perfect = record { told = λ s. s; lost = "lost"; refused = "refused"; is_utf8 = λ bytes. true }

abbrev pub server : GrpcServer nanoseconds
server = record {
  store = full_store;
  enricher = api;
  objects = objects;
  logs = λ ns pod container lines. err "not found";
  metrics = nil_interface;
  ids = in_order;
  reasons = in_order;
  names = in_order;
}

-- `NewForConfig` failed.
abbrev no_metrics : Result Metrics
no_metrics = err "no route"

get_pod_metrics-metrics_interface_example :
    answers (
      get_pod_metrics nanoseconds
        (record server { metrics = metrics_interface no_metrics })
        (record { namespace = "shop"; pod = "" }))
    ≡ is_ok no_metrics
get_pod_metrics-metrics_interface_example =
    get_pod_metrics-metrics_interface nanoseconds server no_metrics
      (record { namespace = "shop"; pod = "" })

-- ===== src/Enrichment.antt =====
-- pkg/enrichment: owner chains, read from the Kubernetes API. The API is a parameter: for each
-- kind a call that returns an object or an error.
pub mod Chain
pub mod Snapshot
use mcp_k8s.Base.{
  ℕ, zero, suc, String, Bool, false, Option, none, some, List, [], ◌∷◌, ◌++◌, if◌then◌else◌, ◌==◌,
  num_keys, text_keys, or_else,
}
use mcp_k8s.Base.Result.{Result, ok, err}
use mcp_k8s.Event.{OwnerRef}
use Prim.Native.String.{◌++◌ as text_append}

-- `metav1.OwnerReference`, the fields that are read; `controller` is a pointer to a bool.
pub record OwnerReference : Type 0 where
  pub kind : String
  pub name : String
  pub controller : Option Bool

-- What the enricher reads of the metadata of an object.
pub record Metadata : Type 0 where
  pub owner_references : List OwnerReference
  pub uid : String

-- `kubernetes.Interface`, one `Get` by namespace and name for each kind in use.
pub record Client : Type 0 where
  pub pods : String → String → Result Metadata
  pub replica_sets : String → String → Result Metadata
  pub deployments : String → String → Result Metadata
  pub stateful_sets : String → String → Result Metadata
  pub daemon_sets : String → String → Result Metadata
  pub jobs : String → String → Result Metadata
  pub cron_jobs : String → String → Result Metadata
  pub persistent_volume_claims : String → String → Result Metadata

abbrev pub max_chain_depth : ℕ
max_chain_depth = 10

-- `getOwnerRefs`; an unknown kind has no owners, no uid and no error.
unfoldable pub get_owner_refs : Client → String → String → String → Result Metadata
get_owner_refs c namespace kind name =
    if kind == "Pod"
    then c.pods namespace name
    else if kind == "ReplicaSet"
    then c.replica_sets namespace name
    else if kind == "Deployment"
    then c.deployments namespace name
    else if kind == "StatefulSet"
    then c.stateful_sets namespace name
    else if kind == "DaemonSet"
    then c.daemon_sets namespace name
    else if kind == "Job"
    then c.jobs namespace name
    else if kind == "CronJob"
    then c.cron_jobs namespace name
    else if kind == "PersistentVolumeClaim"
    then c.persistent_volume_claims namespace name
    else ok (record { owner_references = []; uid = "" })

abbrev pub is_controller : OwnerReference → Bool
is_controller o = or_else o.controller false

-- The loop that prefers the controlling owner, with the first owner to start from.
unfoldable pub find_controller : OwnerReference → List OwnerReference → OwnerReference
find_controller next [] = next
find_controller next (o ∷ owners) = if is_controller o then o else find_controller next owners

unfoldable pub next_owner : List OwnerReference → Option OwnerReference
next_owner [] = none
next_owner (o ∷ owners) = some (find_controller o (o ∷ owners))

-- The chain so far, and the error that stopped the walk, if one did.
abbrev pub Walk : Type 0
Walk = List OwnerRef × Option String

abbrev pub fetch_error : String → String → String → String
fetch_error kind name e =
    text_append "fetch "
      (text_append kind (text_append "/" (text_append name (text_append ": " e))))

-- The loop of `ResolveOwnerChain`, with the rounds that are left.
unfoldable pub resolve_from : Client → String → ℕ → List OwnerRef → String → String → Walk
resolve_from c namespace zero chain kind name = (chain, none)
resolve_from c namespace (suc rounds) chain kind name =
    elim (get_owner_refs c namespace kind name) [
      | err e ↦ (chain, some (fetch_error kind name e))
      | ok m ↦
          let chain' = chain ++ record { kind = kind; name = name; uid = m.uid } ∷ [] in
          elim (next_owner m.owner_references) [
            | none ↦ (chain', none)
            | some next ↦ resolve_from c namespace rounds chain' next.kind next.name
          ]
    ]

-- `ResolveOwnerChain`: the chain from the object to its root.
unfoldable pub resolve_owner_chain : Client → String → String → String → Walk
resolve_owner_chain c namespace kind name = resolve_from c namespace max_chain_depth [] kind name

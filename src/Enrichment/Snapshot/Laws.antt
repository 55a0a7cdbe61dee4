-- ===== src/Enrichment/Snapshot/Laws.antt =====
-- Which objects `GetObjectSnapshot` of pkg/enrichment/snapshot.go answers for, and what a snapshot
-- holds.
use mcp_k8s.Base.{
  ◌≤◌, String, ◌≡◌, refl, sym, ap, subst, ◌∙◌, inl, inr, Bool, true, false, not, ◌&&◌, ◌||◌, Option,
  none, some, List, [], ◌∷◌, arith, if◌then◌else◌, ltb, not-ltb→le, Bool-cases, ◌==◌, num_keys,
  text_keys, length, All, length-take, or_else, lookup, Bytes,
}
use mcp_k8s.Base.Result.{Result, ok, err, ◌>>=◌, is_ok}
use mcp_k8s.Event.{OwnerRef}
use mcp_k8s.Enrichment.{Client, Walk, resolve_owner_chain, max_chain_depth}
use mcp_k8s.Enrichment.Chain.{resolve_owner_chain-IsChain}
use mcp_k8s.Enrichment.Snapshot.{
  ContainerStatus, ObjectSnapshot, ApiContainerStatus, ApiObject, ApiCondition, ObjectClient,
  Terminated, max_termination_message_len, extract_container_status, extract_container_statuses,
  phase_from, wrapped, fetch_snapshot, get_object_snapshot, chain_of, cut_message,
}

-- For each kind that is supported, whether the API has the object.
abbrev pub availability : ObjectClient → String → String → List (String × Bool)
availability c namespace name =
    ("Pod", is_ok (c.pods namespace name))
    ∷ ("Deployment", is_ok (c.deployments namespace name))
    ∷ ("StatefulSet", is_ok (c.stateful_sets namespace name))
    ∷ ("DaemonSet", is_ok (c.daemon_sets namespace name))
    ∷ ("ReplicaSet", is_ok (c.replica_sets namespace name))
    ∷ ("Job", is_ok (c.jobs namespace name))
    ∷ ("CronJob", is_ok (c.cron_jobs namespace name))
    ∷ ("PersistentVolumeClaim", is_ok (c.persistent_volume_claims namespace name))
    ∷ []

abbrev pub IsShort : ContainerStatus → Type 0
IsShort s = length s.last_termination_message ≤ max_termination_message_len

-- A snapshot of this object, with short messages.
abbrev pub IsOf : String → String → String → ObjectSnapshot → Type 0
IsOf namespace kind name s =
    (s.namespace ≡ namespace) × (s.kind ≡ kind) × (s.name ≡ name) × All IsShort s.container_statuses

cut_message-length : (msg : Bytes) → length (cut_message msg) ≤ max_termination_message_len
cut_message-length msg = elim (Bool-cases (ltb max_termination_message_len (length msg))) [
  | inl long ↦ rw long (omega (arith, length-take max_termination_message_len msg))
  | inr short ↦ rw short (not-ltb→le _ _ short)
]

status-IsShort :
    (cs : ApiContainerStatus) (o : Option Terminated)
    → cs.last_terminated ≡ o
    → IsShort (extract_container_status cs)
unfolding extract_container_status
status-IsShort cs none e = rw e (omega arith)
status-IsShort cs (some t) e = rw e (cut_message-length t.message)

extract-IsShort :
    (statuses : List ApiContainerStatus) → All IsShort (extract_container_statuses statuses)
unfolding extract_container_statuses
extract-IsShort [] = tt
extract-IsShort (cs ∷ statuses) =
    (status-IsShort cs cs.last_terminated refl, extract-IsShort statuses)

-- What a read of an object ensures, and when it succeeds.
Reads : Bool → (ObjectSnapshot → Type 0) → Result ObjectSnapshot → Type 0
Reads there P (ok s) = (there ≡ true) × P s
Reads there P (err why) = there ≡ false

bind-Reads :
    {X : Type 0} (P : ObjectSnapshot → Type 0) (what : String) (m : Result X)
    (f : X → ObjectSnapshot)
    → ((x : X) → P (f x))
    → Reads (is_ok m) P (wrapped what m >>= λ x. ok (f x))
unfolding Reads
bind-Reads P what (ok x) f h = (refl, h x)
bind-Reads P what (err why) f h = refl

-- One branch of the switch over the kind, against one row of the table.
branch-Reads :
    (P : ObjectSnapshot → Type 0) (b there : Bool) (rest : Option Bool)
    (m n : Result ObjectSnapshot)
    → Reads there P m
    → Reads (or_else rest false) P n
    → Reads (or_else (if b then some there else rest) false) P (if b then m else n)
branch-Reads P true there rest m n here later = here
branch-Reads P false there rest m n here later = later

fetch_snapshot-Reads :
    (c : ObjectClient) (namespace kind name : String)
    → Reads
        (or_else (lookup kind (availability c namespace name)) false)
        (IsOf namespace kind name)
        (fetch_snapshot c namespace kind name)
unfolding fetch_snapshot lookup Reads
fetch_snapshot-Reads c namespace kind name =
    let P = IsOf namespace kind name in
    branch-Reads P (kind == "Pod") _ _ _ _
      (bind-Reads P "get pod" (c.pods namespace name) _
        λ x. (refl, refl, refl, extract-IsShort x.2))
      (branch-Reads P (kind == "Deployment") _ _ _ _
        (bind-Reads P "get deployment" (c.deployments namespace name) _ λ x. (refl, refl, refl, tt))
        (branch-Reads P (kind == "StatefulSet") _ _ _ _
          (bind-Reads P "get statefulset" (c.stateful_sets namespace name) _
            λ x. (refl, refl, refl, tt))
          (branch-Reads P (kind == "DaemonSet") _ _ _ _
            (bind-Reads P "get daemonset" (c.daemon_sets namespace name) _
              λ x. (refl, refl, refl, tt))
            (branch-Reads P (kind == "ReplicaSet") _ _ _ _
              (bind-Reads P "get replicaset" (c.replica_sets namespace name) _
                λ x. (refl, refl, refl, tt))
              (branch-Reads P (kind == "Job") _ _ _ _
                (bind-Reads P "get job" (c.jobs namespace name) _ λ x. (refl, refl, refl, tt))
                (branch-Reads P (kind == "CronJob") _ _ _ _
                  (bind-Reads P "get cronjob" (c.cron_jobs namespace name) _
                    λ x. (refl, refl, refl, tt))
                  (branch-Reads P (kind == "PersistentVolumeClaim") _ _ _ _
                    (bind-Reads P "get pvc" (c.persistent_volume_claims namespace name) _
                      λ x. (refl, refl, refl, tt))
                    refl)))))))

-- What the rest of `GetObjectSnapshot` makes of a read.
chained :
    (there : Bool) (P Q : ObjectSnapshot → Type 0) (chain : List OwnerRef)
    → ((s : ObjectSnapshot) → P s → Q (record s { owner_chain = chain }))
    → (m : Result ObjectSnapshot) → Reads there P m
    → Reads there Q (m >>= λ snap. ok (record snap { owner_chain = chain }))
unfolding Reads
chained there P Q chain step (ok s) h = (h.0, step s h.1)
chained there P Q chain step (err why) h = h

chain_of-length : (w : Walk) → length w.0 ≤ max_chain_depth → length (chain_of w) ≤ max_chain_depth
chain_of-length (chain, none) h = h
chain_of-length (chain, some e) h = omega arith

get_object_snapshot-Reads :
    (objects : ObjectClient) (c : Client) (namespace kind name : String)
    → Reads
        (or_else (lookup kind (availability objects namespace name)) false)
        (λ s. IsOf namespace kind name s × (length s.owner_chain ≤ max_chain_depth))
        (get_object_snapshot objects c namespace kind name)
unfolding get_object_snapshot
get_object_snapshot-Reads objects c namespace kind name =
    let walk = resolve_owner_chain c namespace kind name in
    chained _ (IsOf namespace kind name) _ (chain_of walk)
      (λ s h. (h, chain_of-length walk (resolve_owner_chain-IsChain c namespace kind name).1))
      (fetch_snapshot objects namespace kind name)
      (fetch_snapshot-Reads objects namespace kind name)

-- `GetObjectSnapshot` succeeds exactly if the kind is one of the eight that are supported and the
-- API has the object; whether the owner chain can be resolved does not matter.
pub get_object_snapshot-is_ok :
    (objects : ObjectClient) (c : Client) (namespace kind name : String)
    → is_ok (get_object_snapshot objects c namespace kind name)
      ≡ or_else (lookup kind (availability objects namespace name)) false
unfolding Reads
get_object_snapshot-is_ok objects c namespace kind name =
    go _ _ (get_object_snapshot objects c namespace kind name)
      (get_object_snapshot-Reads objects c namespace kind name)
  where
    go :
        (P : ObjectSnapshot → Type 0) (there : Bool) (m : Result ObjectSnapshot)
        → Reads there P m
        → is_ok m ≡ there
    go P there (ok s) h = sym h.0
    go P there (err why) h = sym h

-- A snapshot that `GetObjectSnapshot` returns is of the object that was asked for; its owner chain
-- has at most ten entries, and every message of a last termination at most 256 bytes.
pub get_object_snapshot_lem :
    (objects : ObjectClient) (c : Client) (namespace kind name : String) (s : ObjectSnapshot)
    → get_object_snapshot objects c namespace kind name ≡ ok s
    → IsOf namespace kind name s × (length s.owner_chain ≤ max_chain_depth)
unfolding Reads
get_object_snapshot_lem objects c namespace kind name s found =
    (subst
      (Reads (or_else (lookup kind (availability objects namespace name)) false)
        (λ s. IsOf namespace kind name s × (length s.owner_chain ≤ max_chain_depth)))
      found (get_object_snapshot-Reads objects c namespace kind name)).1

abbrev pub phase_of : Result ObjectSnapshot → Option String
phase_of (ok s) = some s.phase
phase_of (err why) = none

-- Whether a condition says that the workload is not available.
abbrev pub is_unavailable : List ApiCondition → Bool
is_unavailable [] = false
is_unavailable (c ∷ conditions) =
    (c.type == "Available" && not (c.status == "True")) || is_unavailable conditions

phase_from_lem :
    (phase : String) (conditions : List ApiCondition)
    → phase_from phase conditions ≡ (if is_unavailable conditions then "Degraded" else phase)
unfolding phase_from
phase_from_lem phase [] = refl
phase_from_lem phase (c ∷ conditions) =
    elim (Bool-cases (c.type == "Available" && not (c.status == "True"))) [
      | inl bad ↦
          rw bad (phase_from_lem "Degraded" conditions ∙ sym (both (is_unavailable conditions)))
      | inr good ↦ rw good (phase_from_lem phase conditions)
    ]
  where
    both : (b : Bool) → ◌≡◌ {A = String} "Degraded" (if b then "Degraded" else "Degraded")
    both true = refl
    both false = refl

-- The snapshot of a deployment that the API has is `Degraded` if some condition of it has the type
-- Available and another status than True, and `Available` otherwise.
pub deployment-phase :
    (objects : ObjectClient) (c : Client) (namespace name : String) (obj : ApiObject)
    (conditions : List ApiCondition)
    → objects.deployments namespace name ≡ ok (obj, conditions)
    → phase_of (get_object_snapshot objects c namespace "Deployment" name)
      ≡ some (if is_unavailable conditions then "Degraded" else "Available")
unfolding get_object_snapshot fetch_snapshot
deployment-phase objects c namespace name obj conditions found =
    rw found (ap some (phase_from_lem "Available" conditions))

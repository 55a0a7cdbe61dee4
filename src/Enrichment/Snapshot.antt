-- ===== src/Enrichment/Snapshot.antt =====
-- pkg/enrichment/snapshot.go: the current state of one object, read from the Kubernetes API. For
-- each kind the API is a call that returns an object or an error.
pub mod Laws
use mcp_k8s.Base.{
  ℕ, String, Bool, not, ◌&&◌, Option, none, some, List, [], ◌∷◌, if◌then◌else◌, ltb, ◌==◌, num_keys,
  text_keys, length, take, Bytes,
}
use Prim.Native.String.{◌++◌ as text_append}
use mcp_k8s.Base.Result.{Result, ◌>>=◌, ok, err}
use mcp_k8s.Event.{OwnerRef}
use mcp_k8s.Enrichment.{Client, Walk, resolve_owner_chain}

abbrev pub max_termination_message_len : ℕ
max_termination_message_len = 256

pub record ContainerStatus : Type 0 where
  pub name : String
  pub ready : Bool
  pub restart_count : ℕ
  pub state : String
  pub reason : String
  pub last_termination_exit_code : ℕ
  pub last_termination_reason : String
  pub last_termination_message : Bytes

pub record WorkloadCondition : Type 0 where
  pub type : String
  pub status : String
  pub reason : String
  pub message : String

pub record ObjectSnapshot : Type 0 where
  pub namespace : String
  pub kind : String
  pub name : String
  pub uid : String
  pub phase : String
  pub labels : List (String × String)
  pub annotations : List (String × String)
  pub owner_chain : List OwnerRef
  pub raw_status_json : String
  pub container_statuses : List ContainerStatus
  pub workload_conditions : List WorkloadCondition

-- `corev1.ContainerStateTerminated`, the fields that are read.
pub record Terminated : Type 0 where
  pub exit_code : ℕ
  pub reason : String
  pub message : Bytes

-- `corev1.ContainerStatus`: the pointers of its state, and of its last termination state.
pub record ApiContainerStatus : Type 0 where
  pub name : String
  pub ready : Bool
  pub restart_count : ℕ
  pub running : Bool
  pub waiting : Option String
  pub terminated : Option Terminated
  pub last_terminated : Option Terminated

-- A condition of a workload; each kind of workload has its own type with these fields.
pub record ApiCondition : Type 0 where
  pub type : String
  pub status : String
  pub reason : String
  pub message : String

-- What every object has; `status_json` is what `json.Marshal` gives of its status, nothing on an
-- error.
pub record ApiObject : Type 0 where
  pub uid : String
  pub labels : List (String × String)
  pub annotations : List (String × String)
  pub status_json : String

-- `kubernetes.Interface`, one `Get` by namespace and name for each kind in use.
pub record ObjectClient : Type 0 where
  pub pods : String → String → Result (ApiObject × String × List ApiContainerStatus)
  pub deployments : String → String → Result (ApiObject × List ApiCondition)
  pub stateful_sets : String → String → Result (ApiObject × List ApiCondition)
  pub daemon_sets : String → String → Result (ApiObject × List ApiCondition)
  pub replica_sets : String → String → Result ApiObject
  pub jobs : String → String → Result (ApiObject × List ApiCondition)
  pub cron_jobs : String → String → Result ApiObject
  pub persistent_volume_claims : String → String → Result (ApiObject × String)

-- The switch of `extractContainerStatuses`: the state and its reason.
unfoldable pub state_of : ApiContainerStatus → String × String
state_of cs = if cs.running then ("running", "") else elim cs.waiting [
  | some reason ↦ ("waiting", reason)
  | none ↦ elim cs.terminated [ some t ↦ ("terminated", t.reason) | none ↦ ("", "") ]
]

-- The cut of the termination message.
abbrev pub cut_message : Bytes → Bytes
cut_message msg =
    if ltb max_termination_message_len (length msg)
    then take max_termination_message_len msg
    else msg

-- A status before the part on the last termination.
abbrev pub current_status : ApiContainerStatus → ContainerStatus
current_status cs = record {
  name = cs.name;
  ready = cs.ready;
  restart_count = cs.restart_count;
  state = (state_of cs).0;
  reason = (state_of cs).1;
  last_termination_exit_code = 0;
  last_termination_reason = "";
  last_termination_message = [];
}

-- The body of the loop of `extractContainerStatuses`.
unfoldable pub extract_container_status : ApiContainerStatus → ContainerStatus
extract_container_status cs = elim cs.last_terminated [
  | none ↦ current_status cs
  | some t ↦ record (current_status cs) {
    last_termination_exit_code = t.exit_code;
    last_termination_reason = t.reason;
    last_termination_message = cut_message t.message;
  }
]

-- `extractContainerStatuses`
unfoldable pub extract_container_statuses : List ApiContainerStatus → List ContainerStatus
extract_container_statuses [] = []
extract_container_statuses (cs ∷ statuses) =
    extract_container_status cs ∷ extract_container_statuses statuses

-- The loops that copy the conditions.
unfoldable pub copy_conditions : List ApiCondition → List WorkloadCondition
copy_conditions [] = []
copy_conditions (c ∷ conditions) =
    record { type = c.type; status = c.status; reason = c.reason; message = c.message }
    ∷ copy_conditions conditions

-- The phase that the loop over the conditions of a deployment leaves.
unfoldable pub phase_from : String → List ApiCondition → String
phase_from phase [] = phase
phase_from phase (c ∷ conditions) =
    phase_from (if c.type == "Available" && not (c.status == "True") then "Degraded" else phase)
      conditions

-- `fmt.Errorf(what + ": %w", err)`
abbrev pub wrapped {ℓ} : {A : Type ℓ} → String → Result A → Result A
wrapped what (ok a) = ok a
wrapped what (err e) = err (text_append what (text_append ": " e))

-- A snapshot with the fields that every kind fills in.
abbrev pub object_snapshot : String → String → String → ApiObject → ObjectSnapshot
object_snapshot namespace kind name obj = record {
  namespace = namespace;
  kind = kind;
  name = name;
  uid = obj.uid;
  phase = "";
  labels = obj.labels;
  annotations = obj.annotations;
  owner_chain = [];
  raw_status_json = obj.status_json;
  container_statuses = [];
  workload_conditions = [];
}

-- The snapshot of a workload with conditions.
abbrev pub workload_snapshot :
    String → String → String → ApiObject × List ApiCondition → ObjectSnapshot
workload_snapshot namespace kind name (obj, conditions) =
    record (object_snapshot namespace kind name obj) {
      workload_conditions = copy_conditions conditions;
    }

-- `fetchSnapshot`
unfoldable pub fetch_snapshot : ObjectClient → String → String → String → Result ObjectSnapshot
fetch_snapshot c namespace kind name =
    if kind == "Pod"
    then (do
      (obj, phase, statuses) ← wrapped "get pod" (c.pods namespace name)
      ok (record (object_snapshot namespace kind name obj) {
        phase = phase;
        container_statuses = extract_container_statuses statuses;
      }))
    else if kind == "Deployment"
    then (do
      (obj, conditions) ← wrapped "get deployment" (c.deployments namespace name)
      ok (record (object_snapshot namespace kind name obj) {
        phase = phase_from "Available" conditions;
        workload_conditions = copy_conditions conditions;
      }))
    else if kind == "StatefulSet"
    then (do
      found ← wrapped "get statefulset" (c.stateful_sets namespace name)
      ok (workload_snapshot namespace kind name found))
    else if kind == "DaemonSet"
    then (do
      found ← wrapped "get daemonset" (c.daemon_sets namespace name)
      ok (workload_snapshot namespace kind name found))
    else if kind == "ReplicaSet"
    then (do
      obj ← wrapped "get replicaset" (c.replica_sets namespace name)
      ok (object_snapshot namespace kind name obj))
    else if kind == "Job"
    then (do
      found ← wrapped "get job" (c.jobs namespace name)
      ok (workload_snapshot namespace kind name found))
    else if kind == "CronJob"
    then (do
      obj ← wrapped "get cronjob" (c.cron_jobs namespace name)
      ok (object_snapshot namespace kind name obj))
    else if kind == "PersistentVolumeClaim"
    then (do
      (obj, phase) ← wrapped "get pvc" (c.persistent_volume_claims namespace name)
      ok (record (object_snapshot namespace kind name obj) { phase = phase }))
    else err (text_append "unsupported kind: " kind)

-- The chain of a snapshot: none if the walk ended with an error.
abbrev pub chain_of : Walk → List OwnerRef
chain_of (chain, none) = chain
chain_of (chain, some e) = []

-- `GetObjectSnapshot`
unfoldable pub get_object_snapshot :
    ObjectClient → Client → String → String → String → Result ObjectSnapshot
get_object_snapshot objects c namespace kind name = do
  snap ← fetch_snapshot objects namespace kind name
  ok (record snap { owner_chain = chain_of (resolve_owner_chain c namespace kind name) })

-- ===== src/Correlation.antt =====
-- pkg/correlation: events are grouped by workload, and each is marked as a root cause or as
-- caused by an earlier event of its group.
pub mod Complete
pub mod Explained
use mcp_k8s.Base.{
  String, Bool, not, none, some, List, [], ◌∷◌, ◌++◌, if◌then◌else◌, ◌==◌, num_keys, text_keys,
  keep, last?, contains, add_key, or_else, lookup, insert, Ranging,
}
use mcp_k8s.Event.{NormalizedEvent, Sorting}
use Prim.Native.String.{◌++◌ as text_append}

pub record CorrelatedEvent : Type 0 where
  pub event : NormalizedEvent
  pub open event use *
  pub group_id : String
  pub is_root_cause : Bool
  pub caused_by : String

pub record Timeline : Type 0 where
  pub events : List CorrelatedEvent
  pub root_causes : List CorrelatedEvent

-- `causalEdges`: what each reason commonly causes.
unfoldable pub causal_edges : List (String × List String)
causal_edges =
    ("FailedScheduling", "Pending" ∷ [])
    ∷ ("ErrImagePull", "ImagePullBackOff" ∷ "BackOff" ∷ [])
    ∷ ("ImagePullBackOff", "BackOff" ∷ [])
    ∷ ("FailedMount", "BackOff" ∷ "Unhealthy" ∷ [])
    ∷ ("FailedAttachVolume", "FailedMount" ∷ [])
    ∷ ("VolumeResizeFailed", "FailedMount" ∷ [])
    ∷ ("Unhealthy", "Killing" ∷ "BackOff" ∷ [])
    ∷ ("Killing", "BackOff" ∷ [])
    ∷ ("Failed", "BackOff" ∷ [])
    ∷ ("OOMKilling", "BackOff" ∷ [])
    ∷ ("BackOff", "CrashLoopBackOff" ∷ [])
    ∷ ("CrashLoopBackOff", "FailedCreate" ∷ [])
    ∷ ("FailedCreate", "ScalingReplicaSet" ∷ [])
    ∷ ("ScalingReplicaSet", [])
    ∷ ("NetworkNotReady", "FailedScheduling" ∷ [])
    ∷ ("NodeNotReady", "FailedScheduling" ∷ [])
    ∷ []

abbrev pub CauseIndex : Type 0
CauseIndex = List (String × List String)

-- The inner loop of `init`, over the effects of one cause.
unfoldable pub add_effects : CauseIndex → String → List String → CauseIndex
add_effects idx cause [] = idx
add_effects idx cause (effect ∷ effects) =
    add_effects (insert effect (or_else (lookup effect idx) [] ++ cause ∷ []) idx) cause effects

-- The loop of `init` that inverts the edges.
unfoldable pub invert : CauseIndex → List (String × List String) → CauseIndex
invert idx [] = idx
invert idx ((cause, effects) ∷ edges) = invert (add_effects idx cause effects) edges

-- `causedByIndex`; the edges are visited in an order that Go leaves open.
unfoldable pub caused_by_index : Ranging (String × List String) → CauseIndex
caused_by_index r = invert [] (r.order causal_edges)

-- The loop of `knownCause`.
unfoldable pub first_seen_of : List String → List String → String
first_seen_of [] seen = ""
first_seen_of (pred ∷ preds) seen =
    let rest = first_seen_of preds seen in if contains pred seen then pred else rest

unfoldable pub known_cause : CauseIndex → String → List String → String
known_cause idx reason seen = first_seen_of (or_else (lookup reason idx) []) seen

-- `groupIDFor`
unfoldable pub group_id_for : NormalizedEvent → String
group_id_for e = elim (last? e.owner_chain) [
  | some root ↦
      if not (root.uid == "") then root.uid else text_append root.kind (text_append "/" root.name)
  | none ↦
      if not (e.involved_object_uid == "")
      then e.involved_object_uid
      else text_append e.involved_object_kind (text_append "/" e.involved_object_name)
]

abbrev pub Groups : Type 0
Groups = List (String × List NormalizedEvent)

-- `groupByWorkload`
unfoldable pub group_from : Groups → List NormalizedEvent → Groups
group_from groups [] = groups
group_from groups (e ∷ evs) =
    group_from
      (insert (group_id_for e) (or_else (lookup (group_id_for e) groups) [] ++ e ∷ []) groups) evs

-- The loop of `annotateGroup`.
unfoldable pub annotate_from :
    CauseIndex → String → List String → List NormalizedEvent → List CorrelatedEvent
annotate_from idx gid seen [] = []
annotate_from idx gid seen (e ∷ evs) =
    let cause = known_cause idx e.reason seen in
    record { event = e; group_id = gid; is_root_cause = cause == ""; caused_by = cause }
    ∷ annotate_from idx gid (add_key e.reason seen) evs

unfoldable pub annotate_group : CauseIndex → String → List NormalizedEvent → List CorrelatedEvent
annotate_group idx gid evs = annotate_from idx gid [] evs

abbrev pub annotate_groups : CauseIndex → Groups → List (String × List CorrelatedEvent)
annotate_groups idx [] = []
annotate_groups idx ((gid, evs) ∷ groups) =
    (gid, annotate_group idx gid evs) ∷ annotate_groups idx groups

abbrev pub flatten_groups : List (String × List CorrelatedEvent) → List CorrelatedEvent
flatten_groups [] = []
flatten_groups ((gid, ces) ∷ groups) = ces ++ flatten_groups groups

-- `Correlate`. The two calls of `sort.Slice`, and the order in which the groups are visited, are
-- parameters.
module _ (idx : CauseIndex) (by_time : Sorting NormalizedEvent (λ e. e.last_seen))
    (by_event_time : Sorting CorrelatedEvent (λ ce. ce.event.last_seen))
    (r : Ranging (String × List CorrelatedEvent)) where
  unfoldable pub annotate_all : List NormalizedEvent → List CorrelatedEvent
  annotate_all evs =
      by_event_time.sort
        (flatten_groups (r.order (annotate_groups idx (group_from [] (by_time.sort evs)))))

  unfoldable pub correlate : List NormalizedEvent → Timeline
  correlate [] = record { events = []; root_causes = [] }
  correlate (e ∷ evs) =
      let all = annotate_all (e ∷ evs) in
      record { events = all; root_causes = keep (λ ce. ce.is_root_cause) all }

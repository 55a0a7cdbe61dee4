-- ===== src/Proto.antt =====
-- The messages of proto/clusteragent.proto that cross the boundary between coordinator and
-- agent, and their conversions: internal/app/clusteragent/server.go writes them,
-- internal/app/coordinator/executor.go reads them. A nil message or slice is `none` or [].
use mcp_k8s.Base.{
  ℕ, String, ◌≡◌, refl, ap, Option, none, some, List, [], ◌∷◌, arith, if◌then◌else◌, num_keys,
  text_keys,
}
use mcp_k8s.Event.{NormalizedEvent, OwnerRef, Time, is_zero}

-- The package timestamppb. `as_time-new` is its documented behaviour for every time that it can
-- represent; times before 1970 included.
pub record Timestamps : Type 1 where
  pub Timestamp : Type 0
  pub new : Time → Timestamp
  pub as_time : Timestamp → Time
  pub as_time-new : (t : Time) → as_time (new t) ≡ t

-- `pb.OwnerRef`
pub record PbOwnerRef : Type 0 where
  pub kind : String
  pub name : String
  pub uid : String

module _ (T : Timestamps) where
  open T use {Timestamp, new, as_time, as_time-new}

  -- `pb.NormalizedEvent`
  pub record PbEvent : Type 0 where
    pub cluster_name : String
    pub namespace : String
    pub involved_object_kind : String
    pub involved_object_name : String
    pub involved_object_uid : String
    pub owner_chain : List PbOwnerRef
    pub reason : String
    pub message : String
    pub count : ℕ
    pub first_seen : Option Timestamp
    pub last_seen : Option Timestamp

  -- `pb.NamespaceEventGroup`
  pub record PbGroup : Type 0 where
    pub reason : String
    pub total_count : ℕ
    pub objects : List String
    pub last_seen : Option Timestamp

-- `toProtoOwnerChain`
unfoldable pub to_proto_owner_chain : List OwnerRef → List PbOwnerRef
to_proto_owner_chain [] = []
to_proto_owner_chain (r ∷ chain) =
    record { kind = r.kind; name = r.name; uid = r.uid } ∷ to_proto_owner_chain chain

-- `fromProtoOwnerChain`
unfoldable pub from_proto_owner_chain : List PbOwnerRef → List OwnerRef
from_proto_owner_chain [] = []
from_proto_owner_chain (r ∷ chain) =
    record { kind = r.kind; name = r.name; uid = r.uid } ∷ from_proto_owner_chain chain

pub from_proto_owner_chain-to_proto_owner_chain :
    (chain : List OwnerRef) → from_proto_owner_chain (to_proto_owner_chain chain) ≡ chain
unfolding from_proto_owner_chain to_proto_owner_chain
from_proto_owner_chain-to_proto_owner_chain [] = refl
from_proto_owner_chain-to_proto_owner_chain (r ∷ chain) =
    ap (◌∷◌ r) (from_proto_owner_chain-to_proto_owner_chain chain)

module _ (T : Timestamps) where
  open T use {Timestamp, new, as_time, as_time-new}

  -- `toProtoEvent`
  unfoldable pub to_proto_event : NormalizedEvent → PbEvent T
  to_proto_event e = record {
    cluster_name = e.cluster_name;
    namespace = e.namespace;
    involved_object_kind = e.involved_object_kind;
    involved_object_name = e.involved_object_name;
    involved_object_uid = e.involved_object_uid;
    owner_chain = to_proto_owner_chain e.owner_chain;
    reason = e.reason;
    message = e.message;
    count = e.count;
    first_seen = some (new e.first_seen);
    last_seen = some (new e.last_seen);
  }

  -- `timeOrZero`
  unfoldable pub time_or_zero : Option Timestamp → Time
  time_or_zero none = 0
  time_or_zero (some t) = as_time t

  -- `toTimestampPB`
  unfoldable pub to_timestamp_pb : Time → Option Timestamp
  to_timestamp_pb t = if is_zero t then none else some (new t)

  -- `fromProtoEvent`
  unfoldable pub from_proto_event : PbEvent T → NormalizedEvent
  unfolding time_or_zero
  from_proto_event e = record {
    cluster_name = e.cluster_name;
    namespace = e.namespace;
    involved_object_kind = e.involved_object_kind;
    involved_object_name = e.involved_object_name;
    involved_object_uid = e.involved_object_uid;
    owner_chain = from_proto_owner_chain e.owner_chain;
    reason = e.reason;
    message = e.message;
    count = e.count;
    first_seen = time_or_zero e.first_seen;
    last_seen = time_or_zero e.last_seen;
  }

  -- An event comes through the boundary as it was.
  pub from_proto_event-to_proto_event :
      (e : NormalizedEvent) → from_proto_event (to_proto_event e) ≡ e
  unfolding from_proto_event to_proto_event time_or_zero
  from_proto_event-to_proto_event e = λ i. record e {
    owner_chain = from_proto_owner_chain-to_proto_owner_chain e.owner_chain i;
    first_seen = as_time-new e.first_seen i;
    last_seen = as_time-new e.last_seen i;
  }

  -- A time bound comes through, the missing one as the zero time.
  pub time_or_zero-to_timestamp_pb : (t : Time) → time_or_zero (to_timestamp_pb t) ≡ t
  unfolding time_or_zero to_timestamp_pb
  time_or_zero-to_timestamp_pb t = ground (arith, as_time-new t)

  -- `fromProtoEvents`
  unfoldable pub from_proto_events : List (PbEvent T) → List NormalizedEvent
  from_proto_events [] = []
  from_proto_events (e ∷ evs) = from_proto_event e ∷ from_proto_events evs

  -- The loop of `ListEvents` that converts its answer.
  unfoldable pub to_proto_events : List NormalizedEvent → List (PbEvent T)
  to_proto_events [] = []
  to_proto_events (e ∷ evs) = to_proto_event e ∷ to_proto_events evs

  -- The events that an agent sends are the events that the coordinator reads.
  pub from_proto_events-to_proto_events :
      (evs : List NormalizedEvent) → from_proto_events (to_proto_events evs) ≡ evs
  unfolding from_proto_events to_proto_events
  from_proto_events-to_proto_events [] = refl
  from_proto_events-to_proto_events (e ∷ evs) =
      λ i. from_proto_event-to_proto_event e i ∷ from_proto_events-to_proto_events evs i

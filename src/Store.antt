-- ===== src/Store.antt =====
-- pkg/store/store.go: the ring buffer of events with its dedup history and inverted indexes,
-- and the operations that change it. The lock makes each operation one step, so an operation is
-- a function on the state.
pub mod Query
pub mod Summary
pub mod Index
pub mod Ring
pub mod History
pub mod Growth
pub mod Invariant
pub mod Adds
pub mod Newest
pub mod View
pub mod Refinement
pub mod Runs
pub mod Totals
pub mod Groups
pub mod Episodes
pub mod Reasons
pub mod Sorting
pub mod Answers
pub mod Selection
use mcp_k8s.Base.{
  ℕ, ◌+◌, ◌%◌, Bool, true, false, not, ◌&&◌, ◌||◌, String, Option, none, some, List, [], ◌∷◌, ◌++◌,
  Eq, ◌==◌, num_keys, text_keys, if◌then◌else◌, ltb, length, get_elem?, set, replicate, last?,
  add_key, remove_key, lookup, insert, delete, or_else, lt32, is_pos, inc64,
}
use mcp_k8s.Event.{NormalizedEvent, DedupKey, key_of, dedup_keys, is_zero, before, after}

abbrev pub default_max_size : ℕ
default_max_size = 10_000

abbrev pub max_bursts_per_key : ℕ
max_bursts_per_key = 5

-- Five minutes in nanoseconds.
abbrev pub burst_gap : ℕ
burst_gap = 300_000_000_000

-- `map[string]map[uint64]struct{}`
abbrev pub Index : Type 0
Index = List (String × List ℕ)

pub record Store : Type 0 where
  pub max_size : ℕ
  pub order : List ℕ
  pub head : ℕ
  pub full : Bool
  pub next_id : ℕ
  pub by_id : List (ℕ × NormalizedEvent)
  pub dedup_idx : List (DedupKey × List ℕ)
  pub evict_idx : List (ℕ × DedupKey)
  pub by_namespace : Index
  pub by_uid : Index
  pub by_reason : Index

-- `New`; the argument is an int, and one that is not positive asks for the default.
unfoldable pub new : ℕ → Store
new max_size =
    let n = if is_pos max_size then max_size else default_max_size in
    record {
      max_size = n;
      order = replicate n 0;
      head = 0;
      full = false;
      next_id = 0;
      by_id = [];
      dedup_idx = [];
      evict_idx = [];
      by_namespace = [];
      by_uid = [];
      by_reason = [];
    }

abbrev pub is_empty {ℓ} : {A : Type ℓ} → List A → Bool
is_empty [] = true
is_empty (x ∷ xs) = false

-- `m[k]` for a map to slices or sets, whose zero value is the empty one.
abbrev pub bucket {ℓ} : {K V : Type ℓ} ⦃eq : Eq K⦄ → K → List (K × List V) → List V
bucket k m = or_else (lookup k m) []

unfoldable pub add_to_index : Index → String → ℕ → Index
add_to_index idx key id = if key == "" then idx else insert key (add_key id (bucket key idx)) idx

-- `delete(s, id)`, and the key too once its set is empty.
pub without : Index → String → List ℕ → Index
without idx key ids = if is_empty ids then delete key idx else insert key ids idx

unfoldable pub remove_from_index : Index → String → ℕ → Index
unfolding without
remove_from_index idx key id = elim (lookup key idx) [
  | none ↦ idx
  | some ids ↦ without idx key (remove_key id ids)
]

-- Whether an event belongs to the burst of the stored episode.
unfoldable pub is_same_burst : NormalizedEvent → NormalizedEvent → Bool
is_same_burst incoming existing =
    if lt32 incoming.count existing.count
    then false
    else if not (is_zero incoming.first_seen)
        && after incoming.first_seen (existing.last_seen + burst_gap)
    then false
    else true

-- The update in place of the latest episode.
unfoldable pub update_burst : NormalizedEvent → NormalizedEvent → NormalizedEvent
update_burst latest e =
    let is_later = after e.last_seen latest.last_seen in
    let is_earlier =
      not (is_zero e.first_seen)
      && (is_zero latest.first_seen || before e.first_seen latest.first_seen) in
    record latest {
      count = e.count;
      last_seen = if is_later then e.last_seen else latest.last_seen;
      message = if is_later then e.message else latest.message;
      first_seen = if is_earlier then e.first_seen else latest.first_seen;
      owner_chain = if is_empty e.owner_chain then latest.owner_chain else e.owner_chain;
    }

-- The loop of `evict` that takes the first occurrence out of a history.
unfoldable pub drop_first : ℕ → List ℕ → List ℕ
drop_first id [] = []
drop_first id (v ∷ ids) = if v == id then ids else v ∷ drop_first id ids

-- The write of a history back into the map, or its removal once it is empty.
unfoldable pub put_history : List (DedupKey × List ℕ) → DedupKey → List ℕ → List (DedupKey × List ℕ)
put_history m key ids = if is_empty ids then delete key m else insert key ids m

-- The part of `evict` that cleans up the dedup history.
unfoldable pub untrack : Store → ℕ → Store
untrack s id = elim (lookup id s.evict_idx) [
  | none ↦ s
  | some key ↦ record s {
    dedup_idx = put_history s.dedup_idx key (drop_first id (bucket key s.dedup_idx));
    evict_idx = delete id s.evict_idx;
  }
]

unfoldable pub evict : Store → ℕ → Store
evict s id = elim (lookup id s.by_id) [
  | none ↦ s
  | some e ↦
      let t = untrack s id in
      record t {
        by_namespace = remove_from_index t.by_namespace e.namespace id;
        by_uid = remove_from_index t.by_uid e.involved_object_uid id;
        by_reason = remove_from_index t.by_reason e.reason id;
        by_id = delete id t.by_id;
      }
]

-- The latest episode of the event's stream, if the event belongs to its burst.
unfoldable pub find_burst : Store → NormalizedEvent → Option (ℕ × NormalizedEvent)
find_burst s e =
    if e.involved_object_uid == "" then none else elim (last? (bucket (key_of e) s.dedup_idx)) [
      | none ↦ none
      | some id ↦ elim (lookup id s.by_id) [
        | none ↦ none
        | some latest ↦ if is_same_burst e latest then some (id, latest) else none
      ]
    ]

-- The write of a new entry into the ring.
unfoldable pub place : Store → NormalizedEvent → Store
place s e =
    let next = (s.head + 1) % s.max_size in
    record s {
      next_id = inc64 s.next_id;
      by_id = insert s.next_id e s.by_id;
      order = set s.order s.head s.next_id;
      head = next;
      full = if next == 0 then true else s.full;
    }

-- A history that has grown by one: the oldest episode goes once there are more than five.
unfoldable pub track : Store → DedupKey → ℕ → Store
track s key id =
    let ids = bucket key s.dedup_idx ++ id ∷ [] in
    if ltb max_bursts_per_key (length ids)
    then elim ids [
      | [] ↦ s
      | dropped ∷ rest ↦ record s {
        dedup_idx = insert key rest s.dedup_idx;
        evict_idx = insert id key (delete dropped s.evict_idx);
      }
    ]
    else record s { dedup_idx = insert key ids s.dedup_idx; evict_idx = insert id key s.evict_idx }

unfoldable pub index_event : Store → ℕ → NormalizedEvent → Store
index_event s id e = record s {
  by_namespace = add_to_index s.by_namespace e.namespace id;
  by_uid = add_to_index s.by_uid e.involved_object_uid id;
  by_reason = add_to_index s.by_reason e.reason id;
}

-- The insert path of `Add` behind the eviction: a new id, the ring, the history, the indexes.
unfoldable pub enter : Store → NormalizedEvent → Store
enter s e =
    let placed = place s e in
    let tracked =
      if e.involved_object_uid == "" then placed else track placed (key_of e) s.next_id in
    index_event tracked s.next_id e

-- The insert path of `Add`. Reading or writing `order[head]` out of range is a panic, `none`.
unfoldable pub insert_event : Store → NormalizedEvent → Option Store
insert_event s e = elim (get_elem? s.order s.head) [
  | none ↦ none
  | some oldest ↦ some (enter (if s.full then evict s oldest else s) e)
]

-- `Add`
unfoldable pub add : Store → NormalizedEvent → Option Store
add s e = elim (find_burst s e) [
  | none ↦ insert_event s e
  | some (id, latest) ↦ some (record s { by_id = insert id (update_burst latest e) s.by_id })
]

-- `Len`
unfoldable pub len : Store → ℕ
len s = length s.by_id

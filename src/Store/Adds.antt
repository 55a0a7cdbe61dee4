-- ===== src/Store/Adds.antt =====
-- `New` and `Add` of pkg/store/store.go, and runs of `Add`.
use mcp_k8s.Base.{
  ℕ, suc, ◌+◌, ◌^◌, ◌≤◌, ◌<◌, ◌≡◌, refl, true, false, Option, none, some, List, [], ◌∷◌, ◌==◌,
  num_keys, text_keys, if◌then◌else◌, length, get_elem?, last?, lookup, insert, inc64, zero, arith,
  Option-cases, inl, inr, ap, ◌∙◌,
}
use mcp_k8s.Event.{NormalizedEvent, key_of, dedup_keys}
use mcp_k8s.Store.{
  Store, bucket, enter, evict, insert_event, find_burst, is_same_burst, update_burst, add, new, len,
}
use mcp_k8s.Store.Ring.{head_lt, update-IsRing, empty-IsRing}
use mcp_k8s.Store.Index.{update-IsIndex}
use mcp_k8s.Store.History.{update-IsHistory}
use mcp_k8s.Store.Newest.{update-IsNewest}
use mcp_k8s.Store.Invariant.{IsValid, evict_full-IsRoom, enter-IsValid, enter-entered, entered}
use native.Mathlib.Nat.{mod-eq_of_lt}

-- A new store is valid, whatever capacity is asked for.
pub new-IsValid : (max_size : ℕ) → IsValid (new max_size)
unfolding new lookup
new-IsValid max_size = record {
  ring = empty-IsRing _ (ground arith);
  namespaces = record { exact = λ k id. refl; distinct = λ k. tt };
  uids = record { exact = λ k id. refl; distinct = λ k. tt };
  reasons = record { exact = λ k id. refl; distinct = λ k. tt };
  histories = record {
    tracked = λ k id. refl;
    stored = λ k id h. absurd (ground arith);
    ascending = λ k. tt;
    bounded = λ k. omega arith;
  };
  newest = λ k id h. absurd (ground arith);
}

get_elem?-lt {ℓ} :
    {A : Type ℓ} (xs : List A) (i : ℕ) → i < length xs → (x : A) × (get_elem? xs i ≡ some x)
get_elem?-lt [] i h = elim h [ ]
get_elem?-lt (x ∷ xs) zero h = (x, refl)
get_elem?-lt (x ∷ xs) (suc i) h = get_elem?-lt xs i (omega arith)

-- What a match of `find_burst` says.
pub find_burst-eq-some :
    (s : Store) (e latest : NormalizedEvent) (id : ℕ)
    → find_burst s e ≡ some (id, latest)
    → (lookup id s.by_id ≡ some latest)
      × (last? (bucket (key_of e) s.dedup_idx) ≡ some id)
      × (is_same_burst e latest ≡ true)
      × ((e.involved_object_uid == "") ≡ false)
unfolding find_burst
find_burst-eq-some s e latest id h = ground arith

pub insert_event-IsValid :
    (s : Store) (e : NormalizedEvent)
    → IsValid s
    → s.next_id + 1 < 2 ^ 64
    → (t : Store) × (insert_event s e ≡ some t) × IsValid t × (t.next_id ≡ s.next_id + 1)
unfolding insert_event entered
insert_event-IsValid s e v bound =
    let (oldest, at) = get_elem?-lt s.order s.head (head_lt v.ring) in
    let room = if s.full then evict s oldest else s in
    let r = evict_full-IsRoom s oldest v at in
    (
      enter room e,
      rw (at, insert_event),
      enter-IsValid s room e v r bound,
      ap (λ (t : Store). t.next_id) (enter-entered room e).2
          ∙ ap inc64 r.next_id
          ∙ mod-eq_of_lt bound,
    )

update_same :
    (latest e : NormalizedEvent)
    → ((update_burst latest e).namespace ≡ latest.namespace)
      × ((update_burst latest e).involved_object_uid ≡ latest.involved_object_uid)
      × ((update_burst latest e).reason ≡ latest.reason)
unfolding update_burst
update_same latest e = (refl, refl, refl)

-- On a valid store whose next id is below 2^64 - 1, `Add` returns a valid store, and the next id
-- grows by one at most.
pub add-IsValid :
    (s : Store) (e : NormalizedEvent)
    → IsValid s
    → s.next_id + 1 < 2 ^ 64
    → (t : Store) × (add s e ≡ some t) × IsValid t × (t.next_id ≤ s.next_id + 1)
unfolding add
add-IsValid s e v bound = elim (Option-cases (find_burst s e)) [
  | inl fresh ↦
      let (t, done, valid, next) = insert_event-IsValid s e v bound in
      (t, rw (fresh, add) done, valid, omega arith)
  | inr ((id, latest), found) ↦
      let (at, _, _, _) = find_burst-eq-some s e latest id found in
      let (same_namespace, same_uid, same_reason) = update_same latest e in
      (
        record s { by_id = insert id (update_burst latest e) s.by_id },
        rw (found, add),
        record {
          ring = update-IsRing id latest (update_burst latest e) at v.ring;
          namespaces =
              update-IsIndex (λ x. x.namespace) s.by_id s.by_namespace id latest
                (update_burst latest e) at same_namespace v.namespaces;
          uids =
              update-IsIndex (λ x. x.involved_object_uid) s.by_id s.by_uid id latest
                (update_burst latest e) at same_uid v.uids;
          reasons =
              update-IsIndex (λ x. x.reason) s.by_id s.by_reason id latest (update_burst latest e)
                at same_reason v.reasons;
          histories =
              update-IsHistory s.by_id s.dedup_idx s.evict_idx v.histories id latest
                (update_burst latest e) at same_uid same_reason;
          newest =
              update-IsNewest s.by_id s.dedup_idx v.newest id latest (update_burst latest e) at
                same_uid same_reason;
        },
        omega arith,
      )
]

-- A run of `Add`.
unfoldable pub add_all : Store → List NormalizedEvent → Option Store
add_all s [] = some s
add_all s (e ∷ evs) = elim (add s e) [ none ↦ none | some t ↦ add_all t evs ]

pub add_all-IsValid :
    (s : Store) (evs : List NormalizedEvent)
    → IsValid s
    → s.next_id + length evs < 2 ^ 64
    → (t : Store) × (add_all s evs ≡ some t) × IsValid t
unfolding add_all
add_all-IsValid s [] v bound = (s, refl, v)
add_all-IsValid s (e ∷ evs) v bound =
    let (u, first, valid, next) = add-IsValid s e v (omega arith) in
    let (t, rest, valid') = add_all-IsValid u evs valid (omega arith) in
    (t, rw (first, add_all) rest, valid')

-- From a new store of any requested size, a run of fewer than 2^64 calls of `Add` returns a valid
-- store that holds no more events than its capacity.
pub len-add_all :
    (max_size : ℕ) (evs : List NormalizedEvent)
    → length evs < 2 ^ 64
    → (t : Store) × (add_all (new max_size) evs ≡ some t) × IsValid t × (len t ≤ t.max_size)
unfolding len new
len-add_all max_size evs bound =
    let (t, done, v) = add_all-IsValid (new max_size) evs (new-IsValid max_size) (omega arith) in
    (t, done, v, omega (arith, v.ring.size))

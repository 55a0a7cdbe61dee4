-- ===== src/Store/Invariant.antt =====
-- The state that every operation of the store keeps: the ring, the three indexes and the dedup
-- histories agree.
use mcp_k8s.Base.{
  ℕ, ◌+◌, ◌-◌, ◌^◌, ◌<◌, ◌≡◌, refl, ◌≢◌, true, false, none, some, List, [], ◌∷◌, ◌++◌, ◌==◌,
  num_keys, text_keys, if◌then◌else◌, get_elem?, All, lookup, insert, delete, arith, Option-cases,
  Bool-cases, inl, inr, subst, sym, ap, ◌∙◌,
}
use mcp_k8s.Event.{NormalizedEvent, DedupKey, key_of, dedup_keys}
use mcp_k8s.Store.{
  Store, bucket, evict, untrack, place, track, index_event, enter, remove_from_index, add_to_index,
}
use mcp_k8s.Store.Ring.{IsRing, make_room, is_some, lookup-make_room, oldest_slot, insert-IsRing}
use mcp_k8s.Store.Index.{IsIndex, remove-IsIndex, add-IsIndex}
use mcp_k8s.Store.History.{
  IsHistory, All-of_contains, forget-IsHistory, untracked-IsHistory, insert-IsHistory,
  tracked-stored, untracked_of_missing,
}
use native.Mathlib.Nat.{mod-eq_of_lt}
use mcp_k8s.Store.Growth.{track-IsHistory}
use mcp_k8s.Store.Newest.{IsNewest, insert-IsNewest, track-IsNewest, untrack-IsNewest}

pub record IsValid (s : Store) : Type 0 where
  pub ring : IsRing s.max_size s.order s.head s.full s.next_id s.by_id
  pub namespaces : IsIndex (λ e. e.namespace) s.by_id s.by_namespace
  pub uids : IsIndex (λ e. e.involved_object_uid) s.by_id s.by_uid
  pub reasons : IsIndex (λ e. e.reason) s.by_id s.by_reason
  pub histories : IsHistory s.by_id s.dedup_idx s.evict_idx
  pub newest : IsNewest s.by_id s.dedup_idx

-- The store with room for one more entry: what `enter` starts from.
pub record IsRoom (s room : Store) : Type 0 where
  pub max_size : room.max_size ≡ s.max_size
  pub order : room.order ≡ s.order
  pub head : room.head ≡ s.head
  pub full : room.full ≡ s.full
  pub next_id : room.next_id ≡ s.next_id
  pub by_id : room.by_id ≡ make_room s.max_size s.full s.next_id s.by_id
  pub namespaces : IsIndex (λ e. e.namespace) room.by_id room.by_namespace
  pub uids : IsIndex (λ e. e.involved_object_uid) room.by_id room.by_uid
  pub reasons : IsIndex (λ e. e.reason) room.by_id room.by_reason
  pub histories : IsHistory room.by_id room.dedup_idx room.evict_idx
  pub newest : IsNewest room.by_id room.dedup_idx

-- Taking an id out of its history leaves the ring and the indexes alone.
untrack_same :
    (s : Store) (id : ℕ)
    → (untrack s id
        ≡ record s { dedup_idx = (untrack s id).dedup_idx; evict_idx = (untrack s id).evict_idx })
unfolding untrack
untrack_same s id = elim (Option-cases (lookup id s.evict_idx)) [
  | inl e ↦ rw (e, untrack)
  | inr (key, e) ↦ rw (e, untrack)
]

untrack-IsHistory :
    (s : Store) (id : ℕ)
    → IsHistory s.by_id s.dedup_idx s.evict_idx
    → IsHistory (delete id s.by_id) (untrack s id).dedup_idx (untrack s id).evict_idx
unfolding untrack
untrack-IsHistory s id h = elim (Option-cases (lookup id s.evict_idx)) [
  | inl e ↦ rw (e, untrack) (untracked-IsHistory s.by_id s.dedup_idx s.evict_idx h id e)
  | inr (key, e) ↦ rw (e, untrack) (forget-IsHistory s.by_id s.dedup_idx s.evict_idx h id key e)
]

-- What `evict` makes of a stored id.
evicted : Store → ℕ → NormalizedEvent → Store
evicted s id e = record s {
  dedup_idx = (untrack s id).dedup_idx;
  evict_idx = (untrack s id).evict_idx;
  by_namespace = remove_from_index s.by_namespace e.namespace id;
  by_uid = remove_from_index s.by_uid e.involved_object_uid id;
  by_reason = remove_from_index s.by_reason e.reason id;
  by_id = delete id s.by_id;
}

evict-evicted :
    (s : Store) (id : ℕ) (e : NormalizedEvent)
    → lookup id s.by_id ≡ some e
    → evict s id ≡ evicted s id e
unfolding evict evicted
evict-evicted s id e found =
    rw (found, evict)
      (ap
        (λ (t : Store). record t {
          by_namespace = remove_from_index t.by_namespace e.namespace id;
          by_uid = remove_from_index t.by_uid e.involved_object_uid id;
          by_reason = remove_from_index t.by_reason e.reason id;
          by_id = delete id t.by_id;
        })
        (untrack_same s id))

evicted-IsRoom :
    (s : Store) (e : NormalizedEvent)
    → IsValid s
    → s.full ≡ true
    → lookup (s.next_id - s.max_size) s.by_id ≡ some e
    → IsRoom s (evicted s (s.next_id - s.max_size) e)
unfolding evicted
evicted-IsRoom s e v full found =
    let id = s.next_id - s.max_size in
    record {
      max_size = refl;
      order = refl;
      head = refl;
      full = refl;
      next_id = refl;
      by_id = rw full;
      namespaces = remove-IsIndex (λ x. x.namespace) s.by_id s.by_namespace id e found v.namespaces;
      uids = remove-IsIndex (λ x. x.involved_object_uid) s.by_id s.by_uid id e found v.uids;
      reasons = remove-IsIndex (λ x. x.reason) s.by_id s.by_reason id e found v.reasons;
      histories = untrack-IsHistory s id v.histories;
      newest =
          untrack-IsNewest s id v.newest
            (λ j there. ground (arith, v.ring.window j, v.ring.positive));
    }

not_full-IsRoom : (s : Store) → IsValid s → s.full ≡ false → IsRoom s s
not_full-IsRoom s v not_full = record {
  max_size = refl;
  order = refl;
  head = refl;
  full = refl;
  next_id = refl;
  by_id = rw not_full;
  namespaces = v.namespaces;
  uids = v.uids;
  reasons = v.reasons;
  histories = v.histories;
  newest = v.newest;
}

-- A full ring gives up its oldest entry, and nothing else.
pub evict_full-IsRoom :
    (s : Store) (oldest : ℕ)
    → IsValid s
    → get_elem? s.order s.head ≡ some oldest
    → IsRoom s (if s.full then evict s oldest else s)
evict_full-IsRoom s oldest v at = elim (Bool-cases s.full) [
  | inl full ↦
      let slot : some oldest ≡ some (s.next_id - s.max_size) = sym at ∙ oldest_slot v.ring full in
      let same : oldest ≡ s.next_id - s.max_size = cc in
      let kept : lookup (s.next_id - s.max_size) s.by_id ≢ none = λ e.
        ground (arith, v.ring.window (s.next_id - s.max_size), v.ring.positive, v.ring.is_full) in
      elim (Option-cases (lookup (s.next_id - s.max_size) s.by_id)) [
        | inl missing ↦ absurd (kept missing)
        | inr (e, found) ↦
            subst (IsRoom s)
              (sym (
                ap (λ b. if b then evict s oldest else s) full
                ∙ ap (evict s) same
                ∙ evict-evicted s (s.next_id - s.max_size) e found))
              (evicted-IsRoom s e v full found)
      ]
  | inr not_full ↦
      subst (IsRoom s) (sym (ap (λ b. if b then evict s oldest else s) not_full))
        (not_full-IsRoom s v not_full)
]

track_same :
    (s : Store) (key : DedupKey) (id : ℕ)
    → (track s key id ≡ record s {
      dedup_idx = (track s key id).dedup_idx;
      evict_idx = (track s key id).evict_idx;
    })
unfolding track
track_same s key id = go (bucket key s.dedup_idx ++ id ∷ []) refl
  where
    go :
        (ids : List ℕ)
        → bucket key s.dedup_idx ++ id ∷ [] ≡ ids
        → (track s key id ≡ record s {
          dedup_idx = (track s key id).dedup_idx;
          evict_idx = (track s key id).evict_idx;
        })
    go ids same = ground arith

-- What `enter` leaves, for given histories.
unfoldable pub entered :
    Store → NormalizedEvent → List (DedupKey × List ℕ) → List (ℕ × DedupKey) → Store
unfolding place
entered s e dedup owner = record (place s e) {
  dedup_idx = dedup;
  evict_idx = owner;
  by_namespace = add_to_index s.by_namespace e.namespace s.next_id;
  by_uid = add_to_index s.by_uid e.involved_object_uid s.next_id;
  by_reason = add_to_index s.by_reason e.reason s.next_id;
}

-- Whatever the histories become, the ring and the indexes are these.
pub enter-entered :
    (s : Store) (e : NormalizedEvent)
    → (dedup : List (DedupKey × List ℕ)) × (owner : List (ℕ × DedupKey)) × (enter s e
        ≡ entered s e dedup owner)
unfolding enter index_event entered place
enter-entered s e = elim (Bool-cases (e.involved_object_uid == "")) [
  | inl unnamed ↦ (s.dedup_idx, s.evict_idx, rw (unnamed, enter))
  | inr named ↦ (
    (track (place s e) (key_of e) s.next_id).dedup_idx,
    (track (place s e) (key_of e) s.next_id).evict_idx,
    rw (named, enter, track_same (place s e) (key_of e) s.next_id),
  )
]

module _ (s room : Store) (e : NormalizedEvent) (v : IsValid s) (r : IsRoom s room)
    (bound : s.next_id + 1 < 2 ^ 64) where
  -- What is stored is older than the id that comes next.
  room_window : (id : ℕ) → is_some (lookup id room.by_id) ≡ true → id < room.next_id
  room_window id present =
      simp r.next_id
        (ground (arith, lookup-make_room v.ring id, ap (λ m. is_some (lookup id m)) r.by_id))

  missing : lookup room.next_id room.by_id ≡ none
  missing = elim (Option-cases (lookup room.next_id room.by_id)) [
    | inl absent ↦ absent
    | inr (x, present) ↦ absurd (ground (arith, room_window room.next_id, r.next_id))
  ]

  entered-IsValid :
      (dedup : List (DedupKey × List ℕ)) (owner : List (ℕ × DedupKey))
      → IsHistory (insert room.next_id e room.by_id) dedup owner
      → IsNewest (insert room.next_id e room.by_id) dedup
      → IsValid (entered room e dedup owner)
  unfolding entered
  entered-IsValid dedup owner h l = record {
    ring =
        simp (r.max_size, r.order, r.head, r.full, r.next_id, r.by_id, mod-eq_of_lt bound)
          (insert-IsRing v.ring e);
    namespaces =
        add-IsIndex (λ x. x.namespace) room.by_id room.by_namespace room.next_id e missing
          r.namespaces;
    uids =
        add-IsIndex (λ x. x.involved_object_uid) room.by_id room.by_uid room.next_id e missing
          r.uids;
    reasons =
        add-IsIndex (λ x. x.reason) room.by_id room.by_reason room.next_id e missing r.reasons;
    histories = h;
    newest = l;
  }

  older : (key : DedupKey) → All (λ i. i < room.next_id) (bucket key room.dedup_idx)
  older key =
      All-of_contains (λ i. i < room.next_id) (bucket key room.dedup_idx)
        λ i c. elim (Option-cases (lookup i room.by_id)) [
          | inl absent ↦
              absurd
                (tracked-stored room.by_id room.dedup_idx room.evict_idx r.histories key i c absent)
          | inr (x, present) ↦ room_window i (ground arith)
        ]

  unowned : lookup room.next_id room.evict_idx ≡ none
  unowned =
      untracked_of_missing room.by_id room.dedup_idx room.evict_idx r.histories room.next_id missing

  all_older : (j : ℕ) → lookup j room.by_id ≢ none → j < room.next_id
  all_older j there = elim (Option-cases (lookup j room.by_id)) [
    | inl absent ↦ absurd (there absent)
    | inr (x, present) ↦ room_window j (ground arith)
  ]

  unnamed-IsValid :
      (e.involved_object_uid == "") ≡ true → IsValid (entered room e room.dedup_idx room.evict_idx)
  unnamed-IsValid unnamed =
      entered-IsValid room.dedup_idx room.evict_idx
        (insert-IsHistory room.by_id room.dedup_idx room.evict_idx r.histories room.next_id e
          unowned)
        (insert-IsNewest room.by_id room.dedup_idx r.newest room.next_id e unnamed)

  named-IsValid :
      (e.involved_object_uid == "") ≡ false
      → let t = track (place room e) (key_of e) room.next_id in
        IsValid (entered room e t.dedup_idx t.evict_idx)
  unfolding place
  named-IsValid named =
      entered-IsValid _ _
        (track-IsHistory (place room e) room.by_id room.next_id e r.histories named unowned older)
        (track-IsNewest (place room e) room.by_id room.next_id e r.newest all_older)

  pub enter-IsValid : IsValid (enter room e)
  unfolding enter index_event entered place
  enter-IsValid = elim (Bool-cases (e.involved_object_uid == "")) [
    | inl unnamed ↦ rw (unnamed, enter) (unnamed-IsValid unnamed)
    | inr named ↦
        rw (named, enter, track_same (place room e) (key_of e) room.next_id) (named-IsValid named)
  ]

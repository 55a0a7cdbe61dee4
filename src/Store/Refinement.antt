-- ===== src/Store/Refinement.antt =====
-- `Add` implements its specification: on the list of episodes, newest first, it updates the
-- newest episode of the event's stream or pushes a new one and keeps the youngest `max_size`.
use mcp_k8s.Base.{
  ℕ, zero, suc, ◌+◌, ◌-◌, ◌%◌, ◌^◌, ◌≤◌, ◌<◌, ◌≡◌, refl, true, false, Option, none, some, List, [],
  ◌∷◌, ◌==◌, num_keys, text_keys, if◌then◌else◌, take, get_elem?, last?, contains, lookup, insert,
  lookup-insert, lookup-delete, arith, Option-cases, Bool-cases, inl, inr, subst, sym, ap, ◌∙◌,
}
use native.Mathlib.Nat.{mod-eq_of_lt}
use native.Mathlib.Numerals.{add-one}
use mcp_k8s.Event.{NormalizedEvent, key_of, dedup_keys}
use mcp_k8s.Store.{Store, bucket, evict, enter, insert_event, find_burst, update_burst, add}
use mcp_k8s.Store.Ring.{make_room}
use mcp_k8s.Store.History.{in_stream, tracked-stored}
use mcp_k8s.Store.Newest.{AtLeast}
use mcp_k8s.Store.Invariant.{IsValid, IsRoom, evict_full-IsRoom, enter-entered, entered}
use mcp_k8s.Store.Adds.{find_burst-eq-some, add-IsValid}
use mcp_k8s.Store.View.{
  episodes, view, refresh, add_episode, in_key, episodes_agree, take-episodes, refresh-none,
  refresh-other, refresh-same,
}

-- The episodes of the store with a new entry.
episodes-insert :
    (s : Store) (e : NormalizedEvent)
    → IsValid s
    → episodes
        (insert s.next_id e (make_room s.max_size s.full s.next_id s.by_id))
        (suc s.next_id)
        s.max_size
      ≡ take s.max_size (e ∷ view s)
unfolding episodes
episodes-insert s e v = go s.max_size refl
  where
    room : List (ℕ × NormalizedEvent)
    room = make_room s.max_size s.full s.next_id s.by_id

    go :
        (m : ℕ)
        → s.max_size ≡ m
        → episodes (insert s.next_id e room) (suc s.next_id) m
          ≡ take m (e ∷ episodes s.by_id s.next_id m)
    go zero same = absurd (omega (arith, v.ring.positive))
    go (suc m) same =
        let new : lookup s.next_id (insert s.next_id e room) ≡ some e =
          ground (arith, lookup-insert s.next_id s.next_id e room) in
        let agree : episodes (insert s.next_id e room) s.next_id m ≡ episodes s.by_id s.next_id m =
          episodes_agree (insert s.next_id e room) s.by_id s.next_id m λ i p q. ground (
            arith,
            lookup-insert s.next_id i e room,
            lookup-delete (s.next_id - s.max_size) i s.by_id,
            v.ring.is_full,
          ) in
        let whole : take m (episodes s.by_id s.next_id (m + 1)) ≡ episodes s.by_id s.next_id m =
          take-episodes s.by_id s.next_id m 1 λ i p q missing. ground (arith, v.ring.window i) in
        let one : m + 1 ≡ suc m = omega arith in ground (arith, new, agree, whole, one)

view-enter :
    (s room : Store) (e : NormalizedEvent)
    → IsValid s
    → IsRoom s room
    → s.next_id + 1 < 2 ^ 64
    → view (enter room e) ≡ take s.max_size (e ∷ view s)
unfolding entered
view-enter s room e v r bound =
    let wrapped : suc s.next_id % 2 ^ 64 ≡ suc s.next_id = mod-eq_of_lt (omega arith) in
    ap view (enter-entered room e).2
    ∙ simp (r.max_size, r.next_id, r.by_id, add-one, wrapped) (episodes-insert s e v)

view-insert_event :
    (s t : Store) (e : NormalizedEvent)
    → IsValid s
    → s.next_id + 1 < 2 ^ 64
    → insert_event s e ≡ some t
    → view t ≡ take s.max_size (e ∷ view s)
unfolding insert_event
view-insert_event s t e v bound done = elim (Option-cases (get_elem? s.order s.head)) [
  | inl out ↦ absurd (ground (arith, out))
  | inr (oldest, at) ↦
      let room = if s.full then evict s oldest else s in
      let here : some (enter room e) ≡ some t = rw (at, insert_event) at done in
      let same : enter room e ≡ t = cc in
      ap view (sym same) ∙ view-enter s room e v (evict_full-IsRoom s oldest v at) bound
]

contains_of_last : (ids : List ℕ) (id : ℕ) → last? ids ≡ some id → contains id ids ≡ true
contains_of_last [] id h = absurd (ground arith)
contains_of_last (x ∷ []) id h = ground arith
contains_of_last (x ∷ y ∷ ids) id h = ground (arith, contains_of_last (y ∷ ids) id h)

module _ (s : Store) (e : NormalizedEvent) (v : IsValid s)
    (named : (e.involved_object_uid == "") ≡ false) where
  stream_of_key :
      (o : Option NormalizedEvent) → in_key (key_of e) o ≡ true → in_stream (key_of e) o ≡ true
  stream_of_key none h = h
  stream_of_key (some x) h = ground (arith, dedup_keys.test_iff (key_of e) (key_of x))

  -- No history: no stored episode of the stream.
  none_stored :
      last? (bucket (key_of e) s.dedup_idx) ≡ none
      → (i : ℕ) → in_key (key_of e) (lookup i s.by_id) ≡ false
  none_stored empty i = elim (Bool-cases (in_key (key_of e) (lookup i s.by_id))) [
    | inl here ↦ absurd (subst (AtLeast i) empty (v.newest (key_of e) i (stream_of_key _ here)))
    | inr there ↦ there
  ]

  -- Past the last of the history there is no episode of the stream.
  none_newer :
      (id : ℕ)
      → last? (bucket (key_of e) s.dedup_idx) ≡ some id
      → (i : ℕ) → id < i
      → in_key (key_of e) (lookup i s.by_id) ≡ false
  none_newer id last i newer = elim (Bool-cases (in_key (key_of e) (lookup i s.by_id))) [
    | inl here ↦
        let below : i ≤ id =
          subst (AtLeast i) last (v.newest (key_of e) i (stream_of_key _ here)) in
        absurd (omega arith)
    | inr there ↦ there
  ]

  -- The last of the history is stored, and of the stream.
  last_stored :
      (id : ℕ)
      → last? (bucket (key_of e) s.dedup_idx) ≡ some id
      → (latest : NormalizedEvent) × (lookup id s.by_id ≡ some latest)
        × ((key_of e == key_of latest) ≡ true)
  last_stored id last =
      let held = contains_of_last (bucket (key_of e) s.dedup_idx) id last in
      elim (Option-cases (lookup id s.by_id)) [
        | inl missing ↦
            absurd (
              tracked-stored s.by_id s.dedup_idx s.evict_idx v.histories (key_of e) id held missing)
        | inr (latest, found) ↦ (latest, found, owned held latest found)
      ]
    where
      owned :
          contains id (bucket (key_of e) s.dedup_idx) ≡ true
          → (latest : NormalizedEvent) → lookup id s.by_id ≡ some latest
          → (key_of e == key_of latest) ≡ true
      owned held latest found = elim (Option-cases (lookup id s.evict_idx)) [
        | inl unowned ↦ absurd (ground (arith, v.histories.tracked (key_of e) id))
        | inr (key, by) ↦ ground (
          arith,
          v.histories.tracked (key_of e) id,
          v.histories.stored key id by,
          dedup_keys.test_iff (key_of e) key,
        )
      ]

  -- `find_burst` misses just when the specification has nothing to update.
  refresh_missed : find_burst s e ≡ none → refresh e (view s) ≡ none
  unfolding find_burst
  refresh_missed missed = elim (Option-cases (last? (bucket (key_of e) s.dedup_idx))) [
    | inl empty ↦ refresh-none s.by_id e s.next_id s.max_size (none_stored empty)
    | inr (id, last) ↦
        let (latest, found, stream) = last_stored id last in
        refresh-other s.by_id e id latest found stream (none_newer id last) s.next_id s.max_size
          (ground (arith, v.ring.window id)) (ground (arith, v.ring.window id)) (ground arith)
  ]

  refresh_found :
      (id : ℕ) (latest : NormalizedEvent)
      → find_burst s e ≡ some (id, latest)
      → refresh e (view s)
        ≡ some (episodes (insert id (update_burst latest e) s.by_id) s.next_id s.max_size)
  refresh_found id latest hit =
      let (found, last, same, _) = find_burst-eq-some s e latest id hit in
      let (stored, at, stream) = last_stored id last in
      let one : stored ≡ latest = ground arith in
      refresh-same s.by_id e id latest found (subst (λ x. (key_of e == key_of x) ≡ true) one stream)
        (none_newer id last) s.next_id s.max_size (ground (arith, v.ring.window id))
        (ground (arith, v.ring.window id)) same

add_episode_missed :
    (s : Store) (e : NormalizedEvent)
    → IsValid s
    → find_burst s e ≡ none
    → add_episode s.max_size e (view s) ≡ take s.max_size (e ∷ view s)
unfolding add_episode
add_episode_missed s e v missed = elim (Bool-cases (e.involved_object_uid == "")) [
  | inl unnamed ↦ rw unnamed
  | inr named ↦ rw (named, refresh_missed s e v named missed)
]

view_of_add :
    (s t : Store) (e : NormalizedEvent)
    → IsValid s
    → s.next_id + 1 < 2 ^ 64
    → add s e ≡ some t
    → view t ≡ add_episode s.max_size e (view s)
unfolding add
view_of_add s t e v bound done = elim (Option-cases (find_burst s e)) [
  | inl missed ↦
      view-insert_event s t e v bound (rw (missed, add) at done)
      ∙ sym (add_episode_missed s e v missed)
  | inr ((id, latest), hit) ↦
      let named = (find_burst-eq-some s e latest id hit).3 in
      let u = record s { by_id = insert id (update_burst latest e) s.by_id } in
      let here : some u ≡ some t = rw (hit, add) at done in
      let same : u ≡ t = cc in
      ap view (sym same) ∙ sym (add_episode_hit named (refresh_found s e v named id latest hit))
]
  where
    add_episode_hit :
        {ys : List NormalizedEvent}
        → (e.involved_object_uid == "") ≡ false
        → refresh e (view s) ≡ some ys
        → add_episode s.max_size e (view s) ≡ ys
    add_episode_hit named found = unfold add_episode in rw (named, found)

-- On a valid store whose next id is below 2^64 - 1, `Add` returns a store, and its list of
-- episodes, newest first, is what `add_episode` makes of the list before.
pub view-add :
    (s : Store) (e : NormalizedEvent)
    → IsValid s
    → s.next_id + 1 < 2 ^ 64
    → (t : Store) × (add s e ≡ some t) × (view t ≡ add_episode s.max_size e (view s))
view-add s e v bound =
    let (t, done, _, _) = add-IsValid s e v bound in (t, done, view_of_add s t e v bound done)

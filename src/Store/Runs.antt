-- ===== src/Store/Runs.antt =====
-- Runs of `Add` of pkg/store/store.go against the list of episodes.
use mcp_k8s.Base.{
  ℕ, ◌+◌, ◌^◌, ◌<◌, ◌≡◌, refl, sym, ap, ◌∙◌, inl, inr, none, some, List, [], ◌∷◌, arith,
  if◌then◌else◌, Bool-cases, Option-cases, ◌==◌, num_keys, text_keys, length, get_elem?, insert,
}
use mcp_k8s.Event.{DedupKey, NormalizedEvent, key_of, dedup_keys}
use mcp_k8s.Store.{
  Store, new, add, find_burst, insert_event, enter, place, track, index_event, evict, update_burst,
}
use mcp_k8s.Store.Invariant.{IsValid, evict_full-IsRoom}
use mcp_k8s.Store.Adds.{new-IsValid, add-IsValid, add_all}
use mcp_k8s.Store.View.{episodes, view, add_episode}
use mcp_k8s.Store.Refinement.{view-add}

track-max_size : (s : Store) (key : DedupKey) (id : ℕ) → (track s key id).max_size ≡ s.max_size
unfolding track
track-max_size s key id = ground arith

enter-max_size : (s : Store) (e : NormalizedEvent) → (enter s e).max_size ≡ s.max_size
unfolding enter place track index_event
enter-max_size s e = elim (Bool-cases (e.involved_object_uid == "")) [
  | inl unnamed ↦ rw unnamed refl
  | inr named ↦ rw named (track-max_size (place s e) (key_of e) s.next_id)
]

insert_event-max_size :
    (s t : Store) (e : NormalizedEvent)
    → IsValid s
    → insert_event s e ≡ some t
    → t.max_size ≡ s.max_size
unfolding insert_event
insert_event-max_size s t e v done = elim (Option-cases (get_elem? s.order s.head)) [
  | inl outside ↦ let no : none ≡ some t = rw (outside, insert_event) at done in absurd cc
  | inr (oldest, at) ↦
      let room = if s.full then evict s oldest else s in
      let same : some (enter room e) ≡ some t = rw (at, insert_event) at done in
      let here : enter room e ≡ t = cc in
      ap (λ (u : Store). u.max_size) (sym here)
      ∙ enter-max_size room e
      ∙ (evict_full-IsRoom s oldest v at).max_size
]

pub add-max_size :
    (s t : Store) (e : NormalizedEvent) → IsValid s → add s e ≡ some t → t.max_size ≡ s.max_size
unfolding add
add-max_size s t e v done = elim (Option-cases (find_burst s e)) [
  | inl missed ↦ insert_event-max_size s t e v (rw (missed, add) at done)
  | inr ((id, latest), hit) ↦
      let u = record s { by_id = insert id (update_burst latest e) s.by_id } in
      let here : some u ≡ some t = rw (hit, add) at done in
      let same : u ≡ t = cc in ap (λ (u : Store). u.max_size) (sym same)
]

-- The episodes after a run, from those before it.
abbrev pub add_episodes : ℕ → List NormalizedEvent → List NormalizedEvent → List NormalizedEvent
add_episodes m [] xs = xs
add_episodes m (e ∷ evs) xs = add_episodes m evs (add_episode m e xs)

view-add_all_from :
    (s : Store) (evs : List NormalizedEvent)
    → IsValid s
    → s.next_id + length evs < 2 ^ 64
    → (t : Store) × (add_all s evs ≡ some t) × (view t ≡ add_episodes s.max_size evs (view s))
unfolding add_all
view-add_all_from s [] v bound = (s, refl, refl)
view-add_all_from s (e ∷ evs) v bound =
    let (u, added, valid, next) = add-IsValid s e v (omega arith) in
    let (u', added', seen) = view-add s e v (omega arith) in
    let same : u' ≡ u = cc in
    let (t, rest, seen_t) = view-add_all_from u evs valid (omega arith) in
    (
      t,
      rw (added, add_all) rest,
      seen_t
          ∙ ap (λ m. add_episodes m evs (view u)) (add-max_size s u e v added)
          ∙ ap (add_episodes s.max_size evs) (ap view (sym same) ∙ seen),
    )

-- From a new store, any run of fewer than 2^64 calls of `Add` returns a store whose list of
-- episodes, newest first, is what `add_episode` makes of the empty list event by event.
pub view-add_all :
    (max_size : ℕ) (evs : List NormalizedEvent)
    → length evs < 2 ^ 64
    → (t : Store) × (add_all (new max_size) evs ≡ some t)
      × (view t ≡ add_episodes (new max_size).max_size evs [])
unfolding new episodes
view-add_all max_size evs bound =
    view-add_all_from (new max_size) evs (new-IsValid max_size) (omega arith)

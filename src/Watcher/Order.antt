-- ===== src/Watcher/Order.antt =====
-- What a run of the watcher of internal/app/clusteragent/watcher.go does with the events that it
-- accepts.
use mcp_k8s.Base.{
  ◌≡◌, refl, sym, ap, subst, ◌∙◌, inl, inr, Option, none, some, List, [], ◌∷◌, ◌++◌, arith,
  if◌then◌else◌, ltb, Bool-cases, num_keys, text_keys, length,
}
use mathlib.Core.List.{append_assoc, append-nil}
use mcp_k8s.Event.{NormalizedEvent}
use mcp_k8s.Event.Normalize.{normalize}
use mcp_k8s.Store.{Store, add}
use mcp_k8s.Store.Adds.{add_all}
use mcp_k8s.Enrichment.{Client}
use mcp_k8s.Watcher.{
  Watcher, Action, delivered, launched, received, finished, left, pipeline_buffer, offer, handle,
  enrich, receive, finish, launch, leave, step, run,
}

-- The events that were accepted and are not stored yet, oldest first.
abbrev pub in_front : Option NormalizedEvent → List NormalizedEvent → List NormalizedEvent
in_front none pipeline = pipeline
in_front (some e) pipeline = e ∷ pipeline

abbrev pub pending : Watcher → List NormalizedEvent
pending w = in_front w.in_flight w.pipeline

-- The event that an action adds to the channel, if there is room.
abbrev pub entered : Watcher → Action → List NormalizedEvent
entered w (delivered (some raw)) =
    if ltb (length w.pipeline) pipeline_buffer then normalize w.cluster_name raw ∷ [] else []
entered w _ = []

-- All the events that a run accepts.
unfoldable pub accepted : Client → List Action → Watcher → List NormalizedEvent
accepted c [] w = []
accepted c (a ∷ actions) w =
    entered w a ++ (elim (step c a w) [ none ↦ [] | some v ↦ accepted c actions v ])

abbrev pub enrich_all : Client → List NormalizedEvent → List NormalizedEvent
enrich_all c [] = []
enrich_all c (e ∷ evs) = enrich c e ∷ enrich_all c evs

-- From one state to another some events are stored, enriched and in order, and these and what is
-- pending then are what was pending before and was accepted.
abbrev pub Conserves : Client → Watcher → List NormalizedEvent → Watcher → Type 0
Conserves c w new v =
    (stored : List NormalizedEvent) × (add_all w.store (enrich_all c stored) ≡ some v.store)
    × (pending w ++ new ≡ stored ++ pending v)

enrich_all-append :
    (c : Client) (a b : List NormalizedEvent)
    → enrich_all c (a ++ b) ≡ enrich_all c a ++ enrich_all c b
enrich_all-append c [] b = refl
enrich_all-append c (e ∷ a) b = ap (◌∷◌ (enrich c e)) (enrich_all-append c a b)

add_all-append :
    (s t : Store) (a b : List NormalizedEvent)
    → add_all s a ≡ some t
    → add_all s (a ++ b) ≡ add_all t b
unfolding add_all
add_all-append s t [] b h = let same : s ≡ t = cc in ap (λ u. add_all u b) same
add_all-append s t (e ∷ a) b h = go (λ u g. add_all-append u t a b g) (add s e) refl
  where
    go :
        ((u : Store) → add_all u a ≡ some t → add_all u (a ++ b) ≡ add_all t b)
        → (o : Option Store) → add s e ≡ o
        → add_all s (e ∷ (a ++ b)) ≡ add_all t b
    go rest none panics = let no : none ≡ some t = rw (panics, add_all) at h in absurd cc
    go rest (some u) added = rw (added, add_all) (rest u (rw (added, add_all) at h))

-- What an action other than a delivery or a store leaves alone.
IsSame : Watcher → Watcher → Type 0
IsSame w v = (v.store ≡ w.store) × (pending v ≡ pending w)

receive-IsSame : (w v : Watcher) → receive w ≡ some v → IsSame w v
unfolding receive IsSame
receive-IsSame w v h = ground arith

launch-IsSame : (w v : Watcher) → launch w ≡ some v → IsSame w v
unfolding launch IsSame
launch-IsSame w v h = ground arith

leave-IsSame : (w v : Watcher) → leave w ≡ some v → IsSame w v
unfolding leave IsSame
leave-IsSame w v h = ground arith

finish_lem :
    (c : Client) (w v : Watcher)
    → finish c w ≡ some v
    → (e : NormalizedEvent) × (w.in_flight ≡ some e)
      × (add w.store (enrich c e) ≡ some v.store)
      × (pending v ≡ w.pipeline)
unfolding finish
finish_lem c w v h = ground arith

same-Conserves : (c : Client) (w v : Watcher) → IsSame w v → Conserves c w [] v
unfolding IsSame add_all
same-Conserves c w v (store, front) = ([], ap some (sym store), append-nil (pending w) ∙ sym front)

offer-append :
    (e : NormalizedEvent) (pipeline : List NormalizedEvent)
    → pipeline ++ (if ltb (length pipeline) pipeline_buffer then e ∷ [] else []) ≡ offer e pipeline
unfolding offer
offer-append e pipeline = elim (Bool-cases (ltb (length pipeline) pipeline_buffer)) [
  | inl room ↦ rw room refl
  | inr full ↦ rw full (append-nil pipeline)
]

offer-in_front :
    (o : Option NormalizedEvent) (e : NormalizedEvent) (pipeline : List NormalizedEvent)
    → in_front o pipeline ++ (if ltb (length pipeline) pipeline_buffer then e ∷ [] else [])
      ≡ in_front o (offer e pipeline)
offer-in_front none e pipeline = offer-append e pipeline
offer-in_front (some x) e pipeline = ap (◌∷◌ x) (offer-append e pipeline)

step-Conserves :
    (c : Client) (a : Action) (w v : Watcher) → step c a w ≡ some v → Conserves c w (entered w a) v
unfolding step handle add_all
step-Conserves c (delivered none) w v h =
    let same : w ≡ v = cc in subst (Conserves c w []) same ([], refl, append-nil (pending w))
step-Conserves c (delivered (some raw)) w v h =
    let e = normalize w.cluster_name raw in
    let same : record w { pipeline = offer e w.pipeline } ≡ v = cc in
    subst (Conserves c w (entered w (delivered (some raw)))) same
      ([], refl, offer-in_front w.in_flight e w.pipeline)
step-Conserves c launched w v h = same-Conserves c w v (launch-IsSame w v h)
step-Conserves c received w v h = same-Conserves c w v (receive-IsSame w v h)
step-Conserves c finished w v h =
    let (e, busy, added, front) = finish_lem c w v h in
    (
      e ∷ [],
      rw (added, add_all) refl,
      append-nil (pending w) ∙ ap (λ o. in_front o w.pipeline) busy ∙ ap (◌∷◌ e) (sym front),
    )
step-Conserves c left w v h = same-Conserves c w v (leave-IsSame w v h)

-- One part of a run after another.
joined-Conserves :
    (c : Client) (w u v : Watcher) (a b : List NormalizedEvent)
    → Conserves c w a u
    → Conserves c u b v
    → Conserves c w (a ++ b) v
joined-Conserves c w u v a b (first, add_first, front) (later, add_later, rest) = (
  first ++ later,
  ap (add_all w.store) (enrich_all-append c first later)
      ∙ add_all-append w.store u.store (enrich_all c first) (enrich_all c later) add_first
      ∙ add_later,
  sym (append_assoc (pending w) a b)
      ∙ ap (λ l. l ++ b) front
      ∙ append_assoc first (pending u) b
      ∙ ap (◌++◌ first) rest
      ∙ sym (append_assoc first later (pending v)),
)

-- Whatever the interleaving of the callbacks and the goroutine, the store after a run is the store
-- before it with some events added one by one, each enriched; these, followed by the events that
-- are still pending, are the events that were pending before followed by those that the run
-- accepted, in that order: no accepted event is lost, stored twice, or overtaken.
pub run-Conserves :
    (c : Client) (actions : List Action) (w v : Watcher)
    → run c actions w ≡ some v
    → Conserves c w (accepted c actions w) v
unfolding run accepted add_all
run-Conserves c [] w v h =
    let same : w ≡ v = cc in subst (Conserves c w []) same ([], refl, append-nil (pending w))
run-Conserves c (a ∷ actions) w v h = go (λ u g. run-Conserves c actions u v g) (step c a w) refl
  where
    go :
        ((u : Watcher) → run c actions u ≡ some v → Conserves c u (accepted c actions u) v)
        → (o : Option Watcher) → step c a w ≡ o
        → Conserves c w (accepted c (a ∷ actions) w) v
    go rest none stuck = let no : none ≡ some v = rw (stuck, run) at h in absurd cc
    go rest (some u) moved =
        let later : run c actions u ≡ some v = rw (moved, run) at h in
        let tail : accepted c (a ∷ actions) w ≡ entered w a ++ accepted c actions u =
          rw (moved, accepted) refl in
        subst (λ l. Conserves c w l v) (sym tail)
          (joined-Conserves c w u v (entered w a) (accepted c actions u)
            (step-Conserves c a w u moved) (rest u later))

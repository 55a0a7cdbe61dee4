-- ===== src/Correlation/Complete.antt =====
-- `Correlate` of pkg/correlation/correlator.go keeps every event of its input, in time order.
use mathlib.Core.Path.{◌≡◌, refl, sym, ap, subst, ◌∙◌}
use mathlib.Core.Logic.{inl, inr}
use mathlib.Core.List.{
  List, [], ◌∷◌, ◌++◌, map, map-append, append_assoc, append-nil, Perm, Permᴰ, Perm-prop,
  perm_middle, perm_append_comm,
}
use mathlib.Core.List.Perm
use mcp_k8s.Base.{
  add_key, String, Bool-cases, ◌==◌, text_keys, or_else, lookup, insert, keep, Ranging,
}
use mcp_k8s.Event.{NormalizedEvent, Sorting, OldestFirst}
use mcp_k8s.Correlation.{
  CorrelatedEvent, CauseIndex, Groups, group_from, annotate_from, annotate_group, annotate_groups,
  flatten_groups, annotate_all, correlate, group_id_for,
}

-- The events of all groups.
abbrev spread : Groups → List NormalizedEvent
spread [] = []
spread ((gid, evs) ∷ groups) = evs ++ spread groups

spread-insert_of :
    (gid : String) (e : NormalizedEvent) (v : List NormalizedEvent) (groups : Groups)
    → or_else (lookup gid groups) [] ≡ v
    → Perm (spread (insert gid (v ++ e ∷ []) groups)) (e ∷ spread groups)
unfolding lookup insert
spread-insert_of gid e v [] same =
    subst (λ u. Perm ((u ++ e ∷ []) ++ []) (e ∷ [])) same (Perm.refl (e ∷ []))
spread-insert_of gid e v ((j, evs) ∷ groups) same = elim (Bool-cases (gid == j)) [
  | inl here ↦
      let at : evs ≡ v = rw here at same in
      rw here (
        subst (λ u. Perm ((u ++ e ∷ []) ++ spread groups) (e ∷ (evs ++ spread groups))) at
          (subst (λ l. Perm l (e ∷ (evs ++ spread groups)))
            (sym (append_assoc evs (e ∷ []) (spread groups))) (perm_middle evs (spread groups))))
  | inr there ↦
      let later : or_else (lookup gid groups) [] ≡ v = rw there at same in
      rw there (
        Perm.trans (Perm.append_left evs (spread-insert_of gid e v groups later))
          (perm_middle evs (spread groups)))
]

spread-group_from :
    (groups : Groups) (evs : List NormalizedEvent)
    → Perm (spread (group_from groups evs)) (evs ++ spread groups)
unfolding group_from
spread-group_from groups [] = Perm.refl (spread groups)
spread-group_from groups (e ∷ evs) =
    let gid = group_id_for e in
    let grown = insert gid (or_else (lookup gid groups) [] ++ e ∷ []) groups in
    Perm.trans (spread-group_from grown evs) (
      Perm.trans (Perm.append_left evs (spread-insert_of gid e _ groups refl))
        (perm_middle evs (spread groups)))

abbrev pub event_of : CorrelatedEvent → NormalizedEvent
event_of ce = ce.event

map-annotate_from :
    (idx : CauseIndex) (gid : String) (evs : List NormalizedEvent) (seen : List String)
    → map event_of (annotate_from idx gid seen evs) ≡ evs
unfolding annotate_from
map-annotate_from idx gid [] seen = refl
map-annotate_from idx gid (e ∷ evs) seen =
    ap (◌∷◌ e) (map-annotate_from idx gid evs (add_key e.reason seen))

map-flatten_groups :
    (idx : CauseIndex) (groups : Groups)
    → map event_of (flatten_groups (annotate_groups idx groups)) ≡ spread groups
unfolding annotate_group
map-flatten_groups idx [] = refl
map-flatten_groups idx ((gid, evs) ∷ groups) =
    map-append event_of (annotate_group idx gid evs) (flatten_groups (annotate_groups idx groups))
    ∙ ap (◌++◌ (map event_of (annotate_group idx gid evs))) (map-flatten_groups idx groups)
    ∙ ap (λ l. l ++ spread groups) (map-annotate_from idx gid evs [])

swap_front {ℓ} : {A : Type ℓ} (a b c : List A) → Perm (a ++ (b ++ c)) (b ++ (a ++ c))
swap_front a b c =
    subst (λ l. Perm l (b ++ (a ++ c))) (append_assoc a b c)
      (subst (λ l. Perm ((a ++ b) ++ c) l) (append_assoc b a c)
        (Perm.append_right c (perm_append_comm a b)))

flatten_groups-perm_from :
    {gs hs : List (String × List CorrelatedEvent)}
    → Permᴰ gs hs
    → Perm (flatten_groups gs) (flatten_groups hs)
flatten_groups-perm_from Permᴰ.nil = Perm.refl []
flatten_groups-perm_from (Permᴰ.cons {a = a} {l₁ = gs} {l₂ = hs} same p) =
    subst (λ c. Perm (a.1 ++ flatten_groups gs) (c.1 ++ flatten_groups hs)) same
      (Perm.append_left a.1 (flatten_groups-perm_from p))
flatten_groups-perm_from (Permᴰ.swap {a = a} {b = b} {b' = b'} {l = gs} same other) =
    subst (λ c. Perm (a.1 ++ (b.1 ++ flatten_groups gs)) (c.1 ++ (b'.1 ++ flatten_groups gs))) other
      (subst (λ c. Perm (a.1 ++ (b.1 ++ flatten_groups gs)) (b.1 ++ (c.1 ++ flatten_groups gs)))
        same (swap_front a.1 b.1 (flatten_groups gs)))
flatten_groups-perm_from (Permᴰ.trans p q) =
    Perm.trans (flatten_groups-perm_from p) (flatten_groups-perm_from q)

flatten_groups-perm :
    {gs hs : List (String × List CorrelatedEvent)}
    → Perm gs hs
    → Perm (flatten_groups gs) (flatten_groups hs)
flatten_groups-perm {gs} {hs} p = ∥∥₁_rec Perm-prop flatten_groups-perm_from p

-- Whatever the orders that Go leaves open, the timeline holds the events of the input, each as
-- often as there, oldest first, and the root causes are those of its events that are marked.
pub correlate_lem :
    (idx : CauseIndex) (by_time : Sorting NormalizedEvent (λ e. e.last_seen))
    (by_event_time : Sorting CorrelatedEvent (λ ce. ce.event.last_seen))
    (r : Ranging (String × List CorrelatedEvent)) (evs : List NormalizedEvent)
    → let tl = correlate idx by_time by_event_time r evs in
      Perm (map event_of tl.events) evs
      × OldestFirst (λ ce. ce.event.last_seen) tl.events
      × (tl.root_causes ≡ keep (λ ce. ce.is_root_cause) tl.events)
unfolding correlate annotate_all
correlate_lem idx by_time by_event_time r [] = (Perm.refl [], tt, refl)
correlate_lem idx by_time by_event_time r (e ∷ evs) =
    let sorted = by_time.sort (e ∷ evs) in
    let groups = group_from [] sorted in
    let annotated = annotate_groups idx groups in
    let all = flatten_groups (r.order annotated) in
    let same : Perm (map event_of (flatten_groups annotated)) (e ∷ evs) =
      subst (λ l. Perm l (e ∷ evs)) (sym (map-flatten_groups idx groups))
        (Perm.trans (spread-group_from [] sorted) (
          subst (λ l. Perm l (e ∷ evs)) (sym (append-nil sorted)) (by_time.sort-perm (e ∷ evs)))) in
    (
      Perm.trans (Perm.map event_of (by_event_time.sort-perm all))
          (Perm.trans (Perm.map event_of (flatten_groups-perm (r.order-perm annotated))) same),
      by_event_time.sort-OldestFirst all,
      refl,
    )

-- ===== src/Store/Totals.antt =====
-- What `SummarizeNamespace` of pkg/store/store.go says of the events of each reason.
use mcp_k8s.Base.{
  ℕ, ◌≤◌, String, ◌≡◌, refl, sym, ap, subst, ◌∙◌, inl, inr, ◌||◌, Option, none, some, List, [], ◌∷◌,
  Perm, arith, Bool-cases, Option-cases, ◌==◌, num_keys, text_keys, eq_of_test, keep, All, contains,
  contains-add_key, NoRepeat, add_key-NoRepeat, or_else, lookup, insert, lookup-insert, Ranging,
}
use mcp_k8s.Event.{NormalizedEvent, Time}
use mcp_k8s.Event.Dedup.{total}
use mcp_k8s.Store.{Store}
use mcp_k8s.Store.Groups.{reasons_of, group_reasons, contains-group_reasons}
use mcp_k8s.Store.Query.{query}
use mcp_k8s.Store.Summary.{
  Group, NamespaceSummary, new_group, add_to_group, group_events, list_groups, summarize_namespace,
}

abbrev pub of_reason : String → List NormalizedEvent → List NormalizedEvent
of_reason reason evs = keep (λ e. e.reason == reason) evs

abbrev pub names_of : List NormalizedEvent → List String
names_of [] = []
names_of (e ∷ evs) = e.involved_object_name ∷ names_of evs

-- What the group of a reason is after its events.
group_of : Group → List NormalizedEvent → Group
group_of g [] = g
group_of g (e ∷ evs) = group_of (add_to_group g e) evs

grouped : Option Group → List NormalizedEvent → Option Group
grouped o [] = o
grouped o (e ∷ evs) = grouped (some (add_to_group (or_else o new_group) e)) evs

grouped-some :
    (g : Group) (evs : List NormalizedEvent) → grouped (some g) evs ≡ some (group_of g evs)
unfolding grouped group_of
grouped-some g [] = refl
grouped-some g (e ∷ evs) = grouped-some (add_to_group g e) evs

grouped-none :
    (evs : List NormalizedEvent) (g : Group)
    → grouped none evs ≡ some g
    → g ≡ group_of new_group evs
unfolding grouped group_of
grouped-none [] g h = absurd cc
grouped-none (e ∷ evs) g h =
    let same : some (group_of (add_to_group new_group e) evs) ≡ some g =
      sym (grouped-some (add_to_group new_group e) evs) ∙ h in
    cc

lookup-group_events :
    (groups : List (String × Group)) (evs : List NormalizedEvent) (k : String)
    → lookup k (group_events groups evs) ≡ grouped (lookup k groups) (of_reason k evs)
unfolding group_events grouped
lookup-group_events groups [] k = refl
lookup-group_events groups (e ∷ evs) k =
    let g = add_to_group (or_else (lookup e.reason groups) new_group) e in
    lookup-group_events (insert e.reason g groups) evs k
    ∙ ap (λ o. grouped o (of_reason k evs)) (lookup-insert e.reason k g groups)
    ∙ (elim (Bool-cases (e.reason == k)) [
      | inl here ↦ let same : e.reason ≡ k = eq_of_test e.reason k here in rw (here, same) refl
      | inr there ↦ rw there refl
    ])

module _ (evs : List NormalizedEvent) where
  -- Of some events and their group: the sum of the counts as an int32, the names of their objects,
  -- each once, and a time at or after that of each.
  abbrev pub IsTotalOf : NamespaceSummary → Type 0
  IsTotalOf s =
      (s.total_count ≡ total 0 evs)
      × ((objects : List String) × Perm s.objects objects
          × NoRepeat objects
          × ((k : String) → contains k objects ≡ contains k (names_of evs)))
      × All (λ e. e.last_seen ≤ s.last_seen) evs

group_of-count :
    (g : Group) (evs : List NormalizedEvent) → (group_of g evs).count ≡ total g.count evs
unfolding group_of add_to_group
group_of-count g [] = refl
group_of-count g (e ∷ evs) = group_of-count (add_to_group g e) evs

group_of-NoRepeat :
    (g : Group) (evs : List NormalizedEvent)
    → NoRepeat g.objects
    → NoRepeat (group_of g evs).objects
unfolding group_of add_to_group
group_of-NoRepeat g [] h = h
group_of-NoRepeat g (e ∷ evs) h =
    group_of-NoRepeat (add_to_group g e) evs (add_key-NoRepeat e.involved_object_name g.objects h)

contains-group_of :
    (g : Group) (evs : List NormalizedEvent) (k : String)
    → contains k (group_of g evs).objects ≡ (contains k g.objects || contains k (names_of evs))
unfolding group_of add_to_group
contains-group_of g [] k = ground arith
contains-group_of g (e ∷ evs) k = ground (
  arith,
  contains-group_of (add_to_group g e) evs k,
  contains-add_key e.involved_object_name k g.objects,
  text_keys.test_iff k e.involved_object_name,
  text_keys.test_iff e.involved_object_name k,
)

group_of-last_seen :
    (g : Group) (evs : List NormalizedEvent)
    → (g.last_seen ≤ (group_of g evs).last_seen)
      × All (λ e. e.last_seen ≤ (group_of g evs).last_seen) evs
unfolding group_of
group_of-last_seen g [] = (omega arith, tt)
group_of-last_seen g (e ∷ evs) =
    let (later, all) = group_of-last_seen (add_to_group g e) evs in
    let (own, this) = add_to_group-last_seen g e in (omega arith, (omega arith, all))
  where
    add_to_group-last_seen :
        (g : Group) (e : NormalizedEvent)
        → (g.last_seen ≤ (add_to_group g e).last_seen)
          × (e.last_seen ≤ (add_to_group g e).last_seen)
    add_to_group-last_seen g e = unfold add_to_group in ground arith

-- The entry that is listed for a reason and its group.
abbrev listed : Ranging String → String → Group → NamespaceSummary
listed objs k g = record {
  reason = k;
  total_count = g.count;
  objects = objs.order g.objects;
  last_seen = g.last_seen;
}

listed-IsTotalOf :
    (objs : Ranging String) (k : String) (evs : List NormalizedEvent) (g : Group)
    → g ≡ group_of new_group evs
    → IsTotalOf evs (listed objs k g)
listed-IsTotalOf objs k evs g same =
    let all = group_of new_group evs in
    subst (λ g. IsTotalOf evs (listed objs k g)) (sym same)
      (
        group_of-count new_group evs,
        (
          all.objects,
          objs.order-perm all.objects,
          group_of-NoRepeat new_group evs tt,
          contains-group_of new_group evs,
        ),
        (group_of-last_seen new_group evs).1,
      )

listed_total :
    (objs : Ranging String) (evs : List NormalizedEvent) (groups : List (String × Group))
    (reasons : List String)
    → ((k : String) (g : Group)
        → lookup k groups ≡ some g
        → g ≡ group_of new_group (of_reason k evs))
    → All (λ s. IsTotalOf (of_reason s.reason evs) s) (list_groups objs groups reasons)
unfolding list_groups
listed_total objs evs groups [] h = tt
listed_total objs evs groups (k ∷ reasons) h =
    let rest = listed_total objs evs groups reasons h in
    elim (Option-cases (lookup k groups)) [
      | inl missing ↦ rw (missing, All, list_groups) rest
      | inr (g, found) ↦
          rw (found, All, list_groups)
            (listed-IsTotalOf objs k (of_reason k evs) g (h k g found), rest)
    ]

-- Each group that `SummarizeNamespace` returns has the sum of the counts of the events of its
-- reason as an int32, the names of their objects in some order and each once, and a time at or after
-- each of theirs; a reason has a group exactly if some event has it. The events are those that
-- `Query` returns for the namespace and the time bound.
pub summarize_namespace_lem :
    (ids : Ranging ℕ) (reasons objs : Ranging String) (s : Store) (namespace : String)
    (since : Time)
    → let evs = query ids s (record {
      namespace = namespace;
      object_uid = "";
      reason = "";
      since = since;
      limit = 0;
    }) in
      All
        (λ g. IsTotalOf (of_reason g.reason evs) g)
        (summarize_namespace ids reasons objs s namespace since)
      × ((k : String)
          → contains k (group_reasons (summarize_namespace ids reasons objs s namespace since))
            ≡ contains k (reasons_of evs))
unfolding summarize_namespace lookup
summarize_namespace_lem ids reasons objs s namespace since =
    let evs =
      query ids s (record {
        namespace = namespace;
        object_uid = "";
        reason = "";
        since = since;
        limit = 0;
      }) in
    (
      listed_total objs evs (group_events [] evs) _ (λ k g found.
          grouped-none (of_reason k evs) g (sym (lookup-group_events [] evs k) ∙ found)),
      contains-group_reasons reasons objs evs,
    )

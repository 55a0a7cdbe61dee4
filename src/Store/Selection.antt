-- ===== src/Store/Selection.antt =====
-- `Store.Query` returns the matching events, newest first, up to the limit.
use mcp_k8s.Store.Answers.{on_stored, fields_match}
use mcp_k8s.Base.{take_of_length-le, not-ltb→le}
use mcp_k8s.Base.{
  ℕ, ◌≡◌, refl, Bool, ◌&&◌, Option, none, some, List, [], ◌∷◌, num_keys, text_keys, if◌then◌else◌,
  ltb, length, take, Perm, keep, keys, lookup, Distinct, is_pos, perm_of_contains, Ranging, arith,
  Bool-cases, Option-cases, inl, inr, ap, ◌∙◌, subst, sym,
}
use mathlib.Core.List.Perm
use mathlib.Core.List.{filter_map, filter_map-cons-none, filter_map-cons-some}
use mcp_k8s.Event.{NormalizedEvent}
use mcp_k8s.Store.{Store}
use mcp_k8s.Store.Query.{
  Filter, candidate_ids, is_recent, collect, sort_by_last_seen_desc, limited, query,
}
use mcp_k8s.Store.Invariant.{IsValid}
use mcp_k8s.Store.Answers.{
  matches, stored, indexed, contains-candidate_ids, candidate_ids-NoRepeat, contains-keep,
  keep-NoRepeat, contains-keys, keys-NoRepeat,
}
use mcp_k8s.Store.Sorting.{IsNewestFirst, sort_by_last_seen_desc_lem}

abbrev select : (ℕ → Option NormalizedEvent) → (NormalizedEvent → Bool) → ℕ → Option NormalizedEvent
select look recent id = elim (look id) [ none ↦ none | some e ↦ if recent e then some e else none ]

module _ (s : Store) (f : Filter) (id : ℕ) (ids : List ℕ) where
  collect-skip :
      select (λ i. lookup i s.by_id) (is_recent f) id ≡ none
      → collect s f (id ∷ ids) ≡ collect s f ids
  unfolding collect
  collect-skip h = ground arith

  collect-take :
      (e : NormalizedEvent)
      → select (λ i. lookup i s.by_id) (is_recent f) id ≡ some e
      → collect s f (id ∷ ids) ≡ e ∷ collect s f ids
  unfolding collect
  collect-take e h = ground arith

collect-filter_map :
    (s : Store) (f : Filter) (ids : List ℕ)
    → collect s f ids ≡ filter_map (select (λ id. lookup id s.by_id) (is_recent f)) ids
unfolding collect filter_map
collect-filter_map s f [] = refl
collect-filter_map s f (id ∷ ids) =
    elim (Option-cases (select (λ i. lookup i s.by_id) (is_recent f) id)) [
      | inl skipped ↦
          collect-skip s f id ids skipped
          ∙ collect-filter_map s f ids
          ∙ sym (filter_map-cons-none _ id ids skipped)
      | inr (e, taken) ↦
          collect-take s f id ids e taken
          ∙ ap (◌∷◌ e) (collect-filter_map s f ids)
          ∙ sym (filter_map-cons-some _ id ids taken)
    ]

collect-perm :
    (s : Store) (f : Filter) {ids jds : List ℕ}
    → Perm ids jds
    → Perm (collect s f ids) (collect s f jds)
collect-perm s f {ids} {jds} p =
    rw (collect-filter_map s f ids, collect-filter_map s f jds)
      (Perm.filter_map (select (λ id. lookup id s.by_id) (is_recent f)) p)

-- Each entry of a map with distinct keys is what its key looks up.
abbrev pub FoundBy : (ℕ → Option NormalizedEvent) → List (ℕ × NormalizedEvent) → Type 0
FoundBy look [] = Unit
FoundBy look ((id, e) ∷ rest) = (look id ≡ some e) × FoundBy look rest

abbrev pub Found : List (ℕ × NormalizedEvent) → List (ℕ × NormalizedEvent) → Type 0
Found m = FoundBy (λ id. lookup id m)

Found-cons :
    (k : ℕ) (x : NormalizedEvent) (m rest : List (ℕ × NormalizedEvent))
    → lookup k m ≡ none
    → Found m rest
    → Found ((k, x) ∷ m) rest
unfolding lookup
Found-cons k x m [] absent h = tt
Found-cons k x m ((id, e) ∷ rest) absent h = (ground arith, Found-cons k x m rest absent h.1)

pub Found-self : (m : List (ℕ × NormalizedEvent)) → Distinct m → Found m m
unfolding lookup
Found-self [] d = tt
Found-self ((id, e) ∷ m) d = (ground arith, Found-cons id e m m d.0 (Found-self m d.1))

filter_map-keep :
    (look : ℕ → Option NormalizedEvent) (p recent : NormalizedEvent → Bool)
    (m : List (ℕ × NormalizedEvent))
    → FoundBy look m
    → filter_map (select look recent) (keep (λ id. on_stored p (look id)) (keys m))
      ≡ keep (λ e. p e && recent e) (stored m)
unfolding filter_map
filter_map-keep look p recent [] h = refl
filter_map-keep look p recent ((id, e) ∷ m) h = ground (arith, filter_map-keep look p recent m h.1)

collect-keep :
    (s : Store) (f : Filter)
    → Distinct s.by_id
    → collect s f (keep (λ id. indexed f (lookup id s.by_id)) (keys s.by_id))
      ≡ keep (matches f) (stored s.by_id)
collect-keep s f d =
    collect-filter_map s f _
    ∙ filter_map-keep (λ id. lookup id s.by_id) (fields_match f) (is_recent f) s.by_id
        (Found-self s.by_id d)

limited-if :
    (limit : ℕ) (out : List NormalizedEvent)
    → limited limit out ≡ (if is_pos limit then take limit out else out)
limited-if limit out = elim (Bool-cases (ltb limit (length out))) [
  | inl more ↦ rw more (ground arith)
  | inr fits ↦ ground (arith, take_of_length-le limit out (not-ltb→le _ _ fits))
]

module _ (r : Ranging ℕ) (s : Store) (f : Filter) (v : IsValid s) where
  collected-perm :
      Perm (collect s f (r.order (candidate_ids s f))) (keep (matches f) (stored s.by_id))
  collected-perm =
      let p = λ (id : ℕ). indexed f (lookup id s.by_id) in
      let ids = keys s.by_id in
      let same : Perm (candidate_ids s f) (keep p ids) =
        perm_of_contains (candidate_ids s f) (keep p ids) (candidate_ids-NoRepeat s f v)
          (keep-NoRepeat p ids (keys-NoRepeat s.by_id v.ring.distinct))
          λ id. ground (
            arith,
            contains-candidate_ids s f v id,
            contains-keep p id ids,
            contains-keys id s.by_id,
          ) in
      subst (Perm (collect s f (r.order (candidate_ids s f)))) (collect-keep s f v.ring.distinct)
        (collect-perm s f (Perm.trans (r.order-perm (candidate_ids s f)) same))

  -- On a valid store, whatever the order in which the candidates are ranged over, there is a list
  -- of exactly the stored events that match the filter, newest first, such that `Query` returns
  -- its first `limit` events if the limit is positive, and all of it otherwise.
  pub query_lem :
      (all : List NormalizedEvent) × Perm all (keep (matches f) (stored s.by_id))
      × IsNewestFirst all
      × (query r s f ≡ (if is_pos f.limit then take f.limit all else all))
  unfolding query
  query_lem =
      let out = collect s f (r.order (candidate_ids s f)) in
      let (perm, sorted) = sort_by_last_seen_desc_lem out in
      (
        sort_by_last_seen_desc out,
        Perm.trans perm collected-perm,
        sorted,
        limited-if f.limit (sort_by_last_seen_desc out),
      )

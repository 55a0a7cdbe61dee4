-- ===== src/Store/Query.antt =====
-- `Store.Query` of pkg/store/store.go, with pkg/store/filter.go.
use mcp_k8s.Base.{
  ℕ, ◌+◌, suc, zero, Bool, true, false, not, ◌&&◌, String, none, some, List, [], ◌∷◌, ◌++◌, ◌==◌,
  num_keys, text_keys, if◌then◌else◌, ltb, length, get_elem?, set, take, keep, contains, lookup,
  keys, is_pos, Ranging,
}
use mcp_k8s.Event.{NormalizedEvent, Time, is_zero, before, after}
use mcp_k8s.Store.{Store, bucket}

-- Zero values mean no constraint; `limit` is an int.
pub record Filter : Type 0 where
  pub namespace : String
  pub object_uid : String
  pub reason : String
  pub since : Time
  pub limit : ℕ

abbrev pub in_all : ℕ → List (List ℕ) → Bool
in_all id [] = true
in_all id (ids ∷ sets) = contains id ids && in_all id sets

-- The loop that looks for the smallest set.
unfoldable pub smallest_from : List ℕ → List (List ℕ) → List ℕ
smallest_from best [] = best
smallest_from best (ids ∷ sets) =
    smallest_from (if ltb (length ids) (length best) then ids else best) sets

unfoldable pub intersect : List (List ℕ) → List ℕ
intersect [] = []
intersect (ids ∷ sets) = keep (λ id. in_all id (ids ∷ sets)) (smallest_from ids sets)

unfoldable pub candidate_sets : Store → Filter → List (List ℕ)
candidate_sets s f =
    (if f.namespace == "" then [] else bucket f.namespace s.by_namespace ∷ [])
    ++ (if f.object_uid == "" then [] else bucket f.object_uid s.by_uid ∷ [])
    ++ (if f.reason == "" then [] else bucket f.reason s.by_reason ∷ [])

abbrev pub all_or_intersect : List ℕ → List (List ℕ) → List ℕ
all_or_intersect all [] = all
all_or_intersect all (ids ∷ sets) = intersect (ids ∷ sets)

unfoldable pub candidate_ids : Store → Filter → List ℕ
candidate_ids s f = all_or_intersect (keys s.by_id) (candidate_sets s f)

abbrev pub is_recent : Filter → NormalizedEvent → Bool
is_recent f e = not (not (is_zero f.since) && before e.last_seen f.since)

-- The loop of `Query` over the candidates.
unfoldable pub collect : Store → Filter → List ℕ → List NormalizedEvent
collect s f [] = []
collect s f (id ∷ ids) =
    let rest = collect s f ids in
    elim (lookup id s.by_id) [ none ↦ rest | some e ↦ if is_recent f e then e ∷ rest else rest ]

-- `evs[j], evs[j-1] = evs[j-1], evs[j]` at `j = suc i`
unfoldable pub swap : List NormalizedEvent → ℕ → List NormalizedEvent
swap evs i = elim (get_elem? evs i) [
  | none ↦ evs
  | some a ↦ elim (get_elem? evs (suc i)) [ none ↦ evs | some b ↦ set (set evs i b) (suc i) a ]
]

-- `evs[j].LastSeen.After(evs[j-1].LastSeen)` at `j = suc i`
unfoldable pub out_of_order : List NormalizedEvent → ℕ → Bool
out_of_order evs i = elim (get_elem? evs i) [
  | none ↦ false
  | some a ↦ elim (get_elem? evs (suc i)) [ none ↦ false | some b ↦ after b.last_seen a.last_seen ]
]

-- The inner loop of `sortByLastSeenDesc`, from `j` down.
unfoldable pub sift : List NormalizedEvent → ℕ → List NormalizedEvent
unfolding swap out_of_order
sift evs zero = evs
sift evs (suc i) = let next = sift (swap evs i) i in if out_of_order evs i then next else evs

-- Its outer loop: `rounds` rounds from `i` up.
unfoldable pub sort_from : ℕ → ℕ → List NormalizedEvent → List NormalizedEvent
sort_from i zero evs = evs
sort_from i (suc rounds) evs = sort_from (i + 1) rounds (sift evs i)

-- `sortByLastSeenDesc`: `for i := 1; i < len(evs); i++`
unfoldable pub sort_by_last_seen_desc : List NormalizedEvent → List NormalizedEvent
unfolding sort_from sift
sort_by_last_seen_desc [] = []
sort_by_last_seen_desc (e ∷ evs) = sort_from 1 (length evs) (e ∷ evs)

abbrev pub limited : ℕ → List NormalizedEvent → List NormalizedEvent
limited limit out = if is_pos limit && ltb limit (length out) then take limit out else out

-- `Query`; the candidates are visited in an order that Go leaves open.
unfoldable pub query : Ranging ℕ → Store → Filter → List NormalizedEvent
query r s f = limited f.limit (sort_by_last_seen_desc (collect s f (r.order (candidate_ids s f))))

-- ===== src/Store/Answers.antt =====
-- What `Store.Query` answers.
use mcp_k8s.Base.{All-append}
use mcp_k8s.Store.Ring.{is_some}
use mcp_k8s.Base.{
  ℕ, ◌≡◌, refl, Bool, true, false, ◌&&◌, ◌||◌, String, Option, none, some, List, [], ◌∷◌, ◌++◌,
  ◌==◌, num_keys, text_keys, if◌then◌else◌, ltb, length, All, keep, keys, contains, lookup,
  NoRepeat, Distinct, arith, Bool-cases, Option-cases, inl, inr, ap, ◌∙◌,
}
use mcp_k8s.Event.{NormalizedEvent}
use mcp_k8s.Store.{Store, bucket}
use mcp_k8s.Store.Query.{
  Filter, in_all, smallest_from, intersect, candidate_sets, all_or_intersect, candidate_ids,
  is_recent,
}
use mcp_k8s.Store.Index.{IsIndex}
use mcp_k8s.Store.Invariant.{IsValid}

-- What a filter asks of an event, field by field.
abbrev pub field_matches : String → String → Bool
field_matches wanted value = wanted == "" || value == wanted

abbrev pub fields_match : Filter → NormalizedEvent → Bool
fields_match f e =
    field_matches f.namespace e.namespace
    && field_matches f.object_uid e.involved_object_uid
    && field_matches f.reason e.reason

abbrev pub matches : Filter → NormalizedEvent → Bool
matches f e = fields_match f e && is_recent f e

-- The stored events.
abbrev pub stored : List (ℕ × NormalizedEvent) → List NormalizedEvent
stored [] = []
stored ((id, e) ∷ m) = e ∷ stored m

abbrev pub on_stored : (NormalizedEvent → Bool) → Option NormalizedEvent → Bool
on_stored p none = false
on_stored p (some e) = p e

-- The part of a filter that the indexes serve.
abbrev pub indexed : Filter → Option NormalizedEvent → Bool
indexed f = on_stored (fields_match f)

pub contains-keep :
    (p : ℕ → Bool) (id : ℕ) (ids : List ℕ) → contains id (keep p ids) ≡ (contains id ids && p id)
contains-keep p id [] = refl
contains-keep p id (x ∷ ids) = elim (Bool-cases (id == x)) [
  | inl here ↦
      let e = (num_keys.test_iff id x).0 here in ground (arith, contains-keep p id ids, ap p e)
  | inr there ↦ ground (arith, contains-keep p id ids)
]

pub keep-NoRepeat : (p : ℕ → Bool) (ids : List ℕ) → NoRepeat ids → NoRepeat (keep p ids)
keep-NoRepeat p [] d = tt
keep-NoRepeat p (x ∷ ids) d = ground (arith, keep-NoRepeat p ids d.1, contains-keep p x ids)

contains-smallest_from :
    (id : ℕ) (best : List ℕ) (sets : List (List ℕ))
    → (contains id best && in_all id sets) ≡ true
    → contains id (smallest_from best sets) ≡ true
unfolding smallest_from
contains-smallest_from id best [] h = ground arith
contains-smallest_from id best (ids ∷ sets) h =
    contains-smallest_from id (if ltb (length ids) (length best) then ids else best) sets
      (ground arith)

smallest_from-NoRepeat :
    (best : List ℕ) (sets : List (List ℕ))
    → NoRepeat best
    → All NoRepeat sets
    → NoRepeat (smallest_from best sets)
unfolding smallest_from
smallest_from-NoRepeat best [] d a = d
smallest_from-NoRepeat best (ids ∷ sets) d a =
    smallest_from-NoRepeat (if ltb (length ids) (length best) then ids else best) sets
      (ground arith) a.1

-- The intersection, whichever set is the smallest.
pub contains-intersect :
    (id : ℕ) (ids : List ℕ) (sets : List (List ℕ))
    → contains id (intersect (ids ∷ sets)) ≡ in_all id (ids ∷ sets)
unfolding intersect
contains-intersect id ids sets = ground (
  arith,
  contains-keep (λ i. in_all i (ids ∷ sets)) id (smallest_from ids sets),
  contains-smallest_from id ids sets,
)

intersect-NoRepeat :
    (ids : List ℕ) (sets : List (List ℕ))
    → NoRepeat ids
    → All NoRepeat sets
    → NoRepeat (intersect (ids ∷ sets))
unfolding intersect
intersect-NoRepeat ids sets d a =
    keep-NoRepeat (λ i. in_all i (ids ∷ sets)) (smallest_from ids sets)
      (smallest_from-NoRepeat ids sets d a)

pub contains-keys :
    (id : ℕ) (m : List (ℕ × NormalizedEvent)) → contains id (keys m) ≡ is_some (lookup id m)
unfolding lookup
contains-keys id [] = refl
contains-keys id ((k, e) ∷ m) = ground (arith, contains-keys id m)

pub keys-NoRepeat : (m : List (ℕ × NormalizedEvent)) → Distinct m → NoRepeat (keys m)
keys-NoRepeat [] d = tt
keys-NoRepeat ((k, e) ∷ m) d = (ground (arith, contains-keys k m), keys-NoRepeat m d.1)

in_all-append :
    (id : ℕ) (xs ys : List (List ℕ)) → in_all id (xs ++ ys) ≡ (in_all id xs && in_all id ys)
in_all-append id [] ys = refl
in_all-append id (x ∷ xs) ys = ground (arith, in_all-append id xs ys)

-- With no index to ask, all ids are candidates; an unknown id is in no index.
contains-all_or_intersect :
    (id : ℕ) (all : List ℕ) (sets : List (List ℕ))
    → (contains id all ≡ false → All (λ ids. contains id ids ≡ false) sets)
    → contains id (all_or_intersect all sets) ≡ (contains id all && in_all id sets)
contains-all_or_intersect id all [] h = ground arith
contains-all_or_intersect id all (ids ∷ sets) h = elim (Bool-cases (contains id all)) [
  | inl known ↦ rw (contains-intersect id ids sets, known)
  | inr unknown ↦ let outside = (h unknown).0 in rw (contains-intersect id ids sets) (ground arith)
]

-- The set of one index, if the filter asks for it.
abbrev asked : String → List ℕ → List (List ℕ)
asked key ids = if key == "" then [] else ids ∷ []

in_all-asked :
    (f : NormalizedEvent → String) (m : List (ℕ × NormalizedEvent)) (idx : List (String × List ℕ))
    (key : String) (id : ℕ) (e : NormalizedEvent)
    → IsIndex f m idx
    → lookup id m ≡ some e
    → in_all id (asked key (bucket key idx)) ≡ field_matches key (f e)
in_all-asked f m idx key id e h found = ground (arith, h.exact key id)

All-asked :
    (f : NormalizedEvent → String) (m : List (ℕ × NormalizedEvent)) (idx : List (String × List ℕ))
    (key : String) (id : ℕ)
    → IsIndex f m idx
    → lookup id m ≡ none
    → All (λ ids. contains id ids ≡ false) (asked key (bucket key idx))
All-asked f m idx key id h missing = ground (arith, h.exact key id)

NoRepeat-asked : (key : String) (ids : List ℕ) → NoRepeat ids → All NoRepeat (asked key ids)
NoRepeat-asked key ids d = ground arith

all_or_intersect-NoRepeat :
    (all : List ℕ) (sets : List (List ℕ))
    → NoRepeat all
    → All NoRepeat sets
    → NoRepeat (all_or_intersect all sets)
all_or_intersect-NoRepeat all [] d a = d
all_or_intersect-NoRepeat all (ids ∷ sets) d a = intersect-NoRepeat ids sets a.0 a.1

module _ (s : Store) (f : Filter) (v : IsValid s) where
  abbrev spaces : List (List ℕ)
  spaces = asked f.namespace (bucket f.namespace s.by_namespace)

  abbrev objects : List (List ℕ)
  objects = asked f.object_uid (bucket f.object_uid s.by_uid)

  abbrev causes : List (List ℕ)
  causes = asked f.reason (bucket f.reason s.by_reason)

  outside-All :
      (id : ℕ)
      → lookup id s.by_id ≡ none
      → All (λ ids. contains id ids ≡ false) (spaces ++ objects ++ causes)
  outside-All id missing =
      All-append (λ ids. contains id ids ≡ false) (spaces ++ objects) causes
        (All-append (λ ids. contains id ids ≡ false) spaces objects
          (All-asked (λ e. e.namespace) s.by_id s.by_namespace f.namespace id v.namespaces missing)
          (All-asked (λ e. e.involved_object_uid) s.by_id s.by_uid f.object_uid id v.uids missing))
        (All-asked (λ e. e.reason) s.by_id s.by_reason f.reason id v.reasons missing)

  -- The candidates are the stored ids that the indexed fields admit.
  pub contains-candidate_ids :
      (id : ℕ) → contains id (candidate_ids s f) ≡ indexed f (lookup id s.by_id)
  unfolding candidate_ids candidate_sets
  contains-candidate_ids id =
      contains-all_or_intersect id (keys s.by_id) (spaces ++ objects ++ causes)
        (λ unknown. outside-All id (missing_of unknown))
      ∙ in_fields
    where
      missing_of : contains id (keys s.by_id) ≡ false → lookup id s.by_id ≡ none
      missing_of unknown = ground (arith, contains-keys id s.by_id)

      in_fields :
          (contains id (keys s.by_id) && in_all id (spaces ++ objects ++ causes))
          ≡ indexed f (lookup id s.by_id)
      in_fields = elim (Option-cases (lookup id s.by_id)) [
        | inl missing ↦ ground (arith, contains-keys id s.by_id)
        | inr (e, found) ↦ ground (
          arith,
          contains-keys id s.by_id,
          in_all-append id (spaces ++ objects) causes,
          in_all-append id spaces objects,
          in_all-asked (λ x. x.namespace) s.by_id s.by_namespace f.namespace id e v.namespaces
              found,
          in_all-asked (λ x. x.involved_object_uid) s.by_id s.by_uid f.object_uid id e v.uids found,
          in_all-asked (λ x. x.reason) s.by_id s.by_reason f.reason id e v.reasons found,
        )
      ]

  pub candidate_ids-NoRepeat : NoRepeat (candidate_ids s f)
  unfolding candidate_ids candidate_sets
  candidate_ids-NoRepeat =
      all_or_intersect-NoRepeat (keys s.by_id) (spaces ++ objects ++ causes)
        (keys-NoRepeat s.by_id v.ring.distinct)
        (All-append NoRepeat (spaces ++ objects) causes
          (All-append NoRepeat spaces objects
            (NoRepeat-asked f.namespace _ (v.namespaces.distinct f.namespace))
            (NoRepeat-asked f.object_uid _ (v.uids.distinct f.object_uid)))
          (NoRepeat-asked f.reason _ (v.reasons.distinct f.reason)))

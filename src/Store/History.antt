-- ===== src/Store/History.antt =====
-- The dedup histories: each lists, oldest first, the tracked episodes of one stream.
use mcp_k8s.Base.{
  ℕ, ◌≤◌, ◌<◌, ◌≡◌, refl, ◌≢◌, Bool, true, false, not, ◌&&◌, Option, none, some, List, [], ◌∷◌,
  ◌++◌, ◌==◌, num_keys, text_keys, if◌then◌else◌, length, contains, All, All-append, lookup, insert,
  delete, lookup-insert, lookup-delete, arith, Option-cases, Bool-cases, inl, inr,
}
use mcp_k8s.Event.{NormalizedEvent, DedupKey, key_of, dedup_keys}
use mcp_k8s.Store.{bucket, drop_first, put_history, max_bursts_per_key}

abbrev pub Ascending : List ℕ → Type 0
Ascending [] = Unit
Ascending (x ∷ xs) = All (λ y. x < y) xs × Ascending xs

pub not-contains_of_All : (n : ℕ) (xs : List ℕ) → All (λ y. n < y) xs → contains n xs ≡ false
not-contains_of_All n [] h = refl
not-contains_of_All n (x ∷ xs) h = ground (arith, not-contains_of_All n xs h.1)

pub contains-drop_first :
    (id j : ℕ) (ids : List ℕ)
    → Ascending ids
    → contains j (drop_first id ids) ≡ (if id == j then false else contains j ids)
unfolding drop_first
contains-drop_first id j [] h = ground arith
contains-drop_first id j (x ∷ ids) h =
    ground (arith, contains-drop_first id j ids h.1, not-contains_of_All x ids h.0)

All-drop_first : (P : ℕ → Type 0) (id : ℕ) (ids : List ℕ) → All P ids → All P (drop_first id ids)
unfolding drop_first
All-drop_first P id [] h = tt
All-drop_first P id (x ∷ ids) h = elim (Bool-cases (x == id)) [
  | inl here ↦ rw here h.1
  | inr there ↦ rw there (h.0, All-drop_first P id ids h.1)
]

Ascending-drop_first : (id : ℕ) (ids : List ℕ) → Ascending ids → Ascending (drop_first id ids)
unfolding drop_first
Ascending-drop_first id [] h = tt
Ascending-drop_first id (x ∷ ids) h = elim (Bool-cases (x == id)) [
  | inl here ↦ rw here h.1
  | inr there ↦ rw there (All-drop_first (λ y. x < y) id ids h.0, Ascending-drop_first id ids h.1)
]

length-drop_first-le : (id : ℕ) (ids : List ℕ) → length (drop_first id ids) ≤ length ids
unfolding drop_first
length-drop_first-le id [] = omega arith
length-drop_first-le id (x ∷ ids) = ground (arith, length-drop_first-le id ids)

pub Ascending-append :
    (ids : List ℕ) (n : ℕ) → All (λ y. y < n) ids → Ascending ids → Ascending (ids ++ n ∷ [])
Ascending-append [] n h a = (tt, tt)
Ascending-append (x ∷ ids) n h a =
    (All-append (λ y. x < y) ids (n ∷ []) a.0 (h.0, tt), Ascending-append ids n h.1 a.1)

pub All-of_contains :
    (P : ℕ → Type 0) (ids : List ℕ) → ((i : ℕ) → contains i ids ≡ true → P i) → All P ids
All-of_contains P [] h = tt
All-of_contains P (x ∷ ids) h =
    (h x (ground arith), All-of_contains P ids (λ i c. h i (ground arith)))

-- Whether an id is tracked under the key, and whether a stored event is of the key's stream.
abbrev pub is_key : DedupKey → Option DedupKey → Bool
is_key key none = false
is_key key (some k) = key == k

abbrev pub in_stream : DedupKey → Option NormalizedEvent → Bool
in_stream key none = false
in_stream key (some e) = key == key_of e && not (e.involved_object_uid == "")

pub record IsHistory (by_id : List (ℕ × NormalizedEvent)) (dedup : List (DedupKey × List ℕ))
    (owner : List (ℕ × DedupKey)) : Type 0 where
  pub tracked :
      (key : DedupKey) (id : ℕ) → contains id (bucket key dedup) ≡ is_key key (lookup id owner)
  pub stored :
      (key : DedupKey) (id : ℕ)
      → lookup id owner ≡ some key
      → in_stream key (lookup id by_id) ≡ true
  pub ascending : (key : DedupKey) → Ascending (bucket key dedup)
  pub bounded : (key : DedupKey) → length (bucket key dedup) ≤ max_bursts_per_key

pub bucket-put_history :
    (m : List (DedupKey × List ℕ)) (key k : DedupKey) (ids : List ℕ)
    → bucket k (put_history m key ids) ≡ (if key == k then ids else bucket k m)
unfolding put_history
bucket-put_history m key k [] = ground (arith, lookup-delete key k m)
bucket-put_history m key k (x ∷ ids) = ground (arith, lookup-insert key k (x ∷ ids) m)

module _ (by_id : List (ℕ × NormalizedEvent)) (dedup : List (DedupKey × List ℕ))
    (owner : List (ℕ × DedupKey)) (h : IsHistory by_id dedup owner) where
  pub forget-IsHistory :
      (id : ℕ) (key : DedupKey)
      → lookup id owner ≡ some key
      → IsHistory
          (delete id by_id)
          (put_history dedup key (drop_first id (bucket key dedup)))
          (delete id owner)
  forget-IsHistory id key e = record {
    tracked = λ k j. ground (
      arith,
      bucket-put_history dedup key k (drop_first id (bucket key dedup)),
      contains-drop_first id j (bucket key dedup) (h.ascending key),
      lookup-delete id j owner,
      h.tracked k j,
      dedup_keys.test_iff key k,
      dedup_keys.test_iff k key,
    );
    stored = λ k j found.
        ground (arith, lookup-delete id j owner, lookup-delete id j by_id, h.stored k j);
    ascending = λ k. ground (
      arith,
      bucket-put_history dedup key k (drop_first id (bucket key dedup)),
      h.ascending k,
      Ascending-drop_first id (bucket key dedup) (h.ascending key),
    );
    bounded = λ k. ground (
      arith,
      bucket-put_history dedup key k (drop_first id (bucket key dedup)),
      h.bounded k,
      h.bounded key,
      length-drop_first-le id (bucket key dedup),
    );
  }

  pub untracked-IsHistory :
      (id : ℕ) → lookup id owner ≡ none → IsHistory (delete id by_id) dedup owner
  untracked-IsHistory id e = record {
    tracked = h.tracked;
    stored = λ k j found. ground (arith, lookup-delete id j by_id, h.stored k j found);
    ascending = h.ascending;
    bounded = h.bounded;
  }

  -- An event with no object id enters no history.
  pub insert-IsHistory :
      (id : ℕ) (e : NormalizedEvent)
      → lookup id owner ≡ none
      → IsHistory (insert id e by_id) dedup owner
  insert-IsHistory id e untracked = record {
    tracked = h.tracked;
    stored = λ k j found. ground (arith, lookup-insert id j e by_id, h.stored k j found);
    ascending = h.ascending;
    bounded = h.bounded;
  }

  -- An update in place keeps an event in its stream.
  pub update-IsHistory :
      (id : ℕ) (old new : NormalizedEvent)
      → lookup id by_id ≡ some old
      → new.involved_object_uid ≡ old.involved_object_uid
      → new.reason ≡ old.reason
      → IsHistory (insert id new by_id) dedup owner
  update-IsHistory id old new found same_uid same_reason = record {
    tracked = h.tracked;
    stored = λ k j at. ground (arith, lookup-insert id j new by_id, h.stored k j at);
    ascending = h.ascending;
    bounded = h.bounded;
  }

  -- A tracked id is that of a stored event.
  pub tracked-stored :
      (key : DedupKey) (id : ℕ) → contains id (bucket key dedup) ≡ true → lookup id by_id ≢ none
  tracked-stored key id c missing = elim (Option-cases (lookup id owner)) [
    | inl unowned ↦ ground (arith, h.tracked key id)
    | inr (k, owned) ↦ ground (arith, h.stored k id owned)
  ]

  pub untracked_of_missing : (id : ℕ) → lookup id by_id ≡ none → lookup id owner ≡ none
  untracked_of_missing id missing = elim (Option-cases (lookup id owner)) [
    | inl unowned ↦ unowned
    | inr (k, owned) ↦ absurd (ground (arith, h.stored k id owned))
  ]

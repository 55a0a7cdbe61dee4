-- ===== src/Store/Growth.antt =====
-- A history that grows by a new episode, and loses its oldest once it holds five.
use mcp_k8s.Base.{
  ℕ, ◌<◌, ◌≡◌, refl, true, false, none, some, List, [], ◌∷◌, ◌++◌, ◌==◌, num_keys, text_keys, ltb,
  length, length-append, contains, contains-append, All, lookup, insert, delete, lookup-insert,
  lookup-delete, arith, Option-cases, Bool-cases, inl, inr, subst, ◌⊎◌, not-ltb→le,
}
use mcp_k8s.Event.{NormalizedEvent, DedupKey, key_of, dedup_keys}
use mcp_k8s.Store.{Store, bucket, track, max_bursts_per_key}
use mcp_k8s.Store.History.{IsHistory, Ascending, Ascending-append, not-contains_of_All}

module _ (by_id : List (ℕ × NormalizedEvent)) (dedup : List (DedupKey × List ℕ))
    (owner : List (ℕ × DedupKey)) (h : IsHistory by_id dedup owner) (n : ℕ) (e : NormalizedEvent)
    (named : (e.involved_object_uid == "") ≡ false) (fresh : lookup n owner ≡ none)
    (older : (key : DedupKey) → All (λ i. i < n) (bucket key dedup)) where
  owner_of_tracked :
      (key : DedupKey) (id : ℕ) → contains id (bucket key dedup) ≡ true → lookup id owner ≡ some key
  owner_of_tracked key id c = elim (Option-cases (lookup id owner)) [
    | inl missing ↦ absurd (ground (arith, h.tracked key id))
    | inr (k, found) ↦ ground (arith, h.tracked key id, dedup_keys.test_iff key k)
  ]

  append-IsHistory :
      (ids : List ℕ)
      → bucket (key_of e) dedup ≡ ids
      → length ids < max_bursts_per_key
      → IsHistory
          (insert n e by_id)
          (insert (key_of e) (ids ++ n ∷ []) dedup)
          (insert n (key_of e) owner)
  append-IsHistory ids same room =
      let key = key_of e in
      let below = subst (All (λ i. i < n)) same (older key) in
      let sorted = subst Ascending same (h.ascending key) in
      record {
        tracked = λ k j. ground (
          arith,
          lookup-insert key k (ids ++ n ∷ []) dedup,
          contains-append j ids (n ∷ []),
          lookup-insert n j key owner,
          h.tracked k j,
          dedup_keys.test_iff key k,
          dedup_keys.test_iff k key,
        );
        stored = λ k j found. ground (
          arith,
          lookup-insert n j key owner,
          lookup-insert n j e by_id,
          h.stored k j,
          dedup_keys.test_iff k key,
        );
        ascending = λ k. ground (
          arith,
          lookup-insert key k (ids ++ n ∷ []) dedup,
          h.ascending k,
          Ascending-append ids n below sorted,
        );
        bounded = λ k. ground (
          arith,
          lookup-insert key k (ids ++ n ∷ []) dedup,
          h.bounded k,
          length-append ids (n ∷ []),
        );
      }

  shift-IsHistory :
      (dropped : ℕ) (rest : List ℕ)
      → bucket (key_of e) dedup ≡ dropped ∷ rest
      → IsHistory
          (insert n e by_id)
          (insert (key_of e) (rest ++ n ∷ []) dedup)
          (insert n (key_of e) (delete dropped owner))
  shift-IsHistory dropped rest full =
      let key = key_of e in
      let below = subst (All (λ i. i < n)) full (older key) in
      let sorted = subst Ascending full (h.ascending key) in
      let absent = not-contains_of_All dropped rest sorted.0 in
      let owned : lookup dropped owner ≡ some key =
        owner_of_tracked key dropped (ground (arith, dedup_keys.test_iff key key)) in
      record {
        tracked = λ k j. ground (
          arith,
          lookup-insert key k (rest ++ n ∷ []) dedup,
          contains-append j rest (n ∷ []),
          lookup-insert n j key (delete dropped owner),
          lookup-delete dropped j owner,
          h.tracked k j,
          h.tracked key j,
          absent,
          owned,
          dedup_keys.test_iff key k,
          dedup_keys.test_iff k key,
        );
        stored = λ k j found. ground (
          arith,
          lookup-insert n j key (delete dropped owner),
          lookup-delete dropped j owner,
          lookup-insert n j e by_id,
          h.stored k j,
          dedup_keys.test_iff k key,
        );
        ascending = λ k. ground (
          arith,
          lookup-insert key k (rest ++ n ∷ []) dedup,
          h.ascending k,
          Ascending-append rest n below.1 sorted.1,
        );
        bounded = λ k. ground (
          arith,
          lookup-insert key k (rest ++ n ∷ []) dedup,
          h.bounded k,
          h.bounded key,
          length-append rest (n ∷ []),
        );
      }

-- The histories after an insertion of a new event under the id `n`.
pub track-IsHistory :
    (s : Store) (by_id : List (ℕ × NormalizedEvent)) (n : ℕ) (e : NormalizedEvent)
    → IsHistory by_id s.dedup_idx s.evict_idx
    → (e.involved_object_uid == "") ≡ false
    → lookup n s.evict_idx ≡ none
    → ((key : DedupKey) → All (λ i. i < n) (bucket key s.dedup_idx))
    → IsHistory (insert n e by_id) (track s (key_of e) n).dedup_idx (track s (key_of e) n).evict_idx
unfolding track
track-IsHistory s by_id n e h named fresh older =
    go (bucket (key_of e) s.dedup_idx) refl (Bool-cases _)
  where
    key : DedupKey
    key = key_of e

    After : Type 0
    After = IsHistory (insert n e by_id) (track s key n).dedup_idx (track s key n).evict_idx

    go :
        (ids : List ℕ)
        → bucket key s.dedup_idx ≡ ids
        → (ltb max_bursts_per_key (length (ids ++ n ∷ [])) ≡ true)
          ⊎ (ltb max_bursts_per_key (length (ids ++ n ∷ [])) ≡ false)
        → After
    go [] same long =
        rw (same, track) (append-IsHistory by_id _ _ h n e named fresh older [] same (omega arith))
    go (dropped ∷ rest) same (inl long) =
        rw (same, track, long) (shift-IsHistory by_id _ _ h n e named fresh older dropped rest same)
    go (dropped ∷ rest) same (inr short) =
        rw (same, track, short)
          (append-IsHistory by_id _ _ h n e named fresh older (dropped ∷ rest) same
            (omega (arith, not-ltb→le _ _ short, length-append rest (n ∷ []))))

-- ===== src/Store/Newest.antt =====
-- The last entry of a history is the newest stored episode of its stream.
use mcp_k8s.Base.{
  ℕ, ◌≤◌, ◌<◌, ◌≡◌, refl, ◌≢◌, true, false, Option, none, some, List, [], ◌∷◌, ◌++◌, ◌==◌, num_keys,
  text_keys, ltb, length, last?, last?-append, lookup, insert, delete, lookup-insert, lookup-delete,
  arith, Option-cases, Bool-cases, inl, inr, ◌⊎◌, subst, sym,
}
use mcp_k8s.Event.{NormalizedEvent, DedupKey, key_of, dedup_keys}
use mcp_k8s.Store.{Store, bucket, drop_first, put_history, untrack, track, max_bursts_per_key}
use mcp_k8s.Store.History.{in_stream, bucket-put_history}

abbrev pub AtLeast : ℕ → Option ℕ → Type 0
AtLeast id none = ⊥
AtLeast id (some l) = id ≤ l

abbrev pub IsNewest : List (ℕ × NormalizedEvent) → List (DedupKey × List ℕ) → Type 0
IsNewest by_id dedup =
    (key : DedupKey) (id : ℕ)
    → in_stream key (lookup id by_id) ≡ true
    → AtLeast id (last? (bucket key dedup))

AtLeast-cons : (j x : ℕ) (ids : List ℕ) → AtLeast j (last? ids) → AtLeast j (last? (x ∷ ids))
AtLeast-cons j x [] a = absurd a
AtLeast-cons j x (y ∷ ids) a = a

-- Taking out an older id leaves the last entry.
AtLeast-drop_first :
    (id j : ℕ) (ids : List ℕ)
    → id < j
    → AtLeast j (last? ids)
    → AtLeast j (last? (drop_first id ids))
unfolding drop_first
AtLeast-drop_first id j [] h a = a
AtLeast-drop_first id j (x ∷ []) h a = ground arith
AtLeast-drop_first id j (x ∷ y ∷ ids) h a = elim (Bool-cases (x == id)) [
  | inl here ↦ rw here a
  | inr there ↦
      rw there (AtLeast-cons j x (drop_first id (y ∷ ids)) (AtLeast-drop_first id j (y ∷ ids) h a))
]

module _ (by_id : List (ℕ × NormalizedEvent)) (dedup : List (DedupKey × List ℕ))
    (h : IsNewest by_id dedup) where
  pub untracked-IsNewest : (id : ℕ) → IsNewest (delete id by_id) dedup
  untracked-IsNewest id key j s = h key j (ground (arith, lookup-delete id j by_id))

  pub forget-IsNewest :
      (id : ℕ) (key : DedupKey)
      → ((j : ℕ) → lookup j by_id ≢ none → id ≤ j)
      → IsNewest (delete id by_id) (put_history dedup key (drop_first id (bucket key dedup)))
  forget-IsNewest id key oldest k j s =
      let kept : in_stream k (lookup j by_id) ≡ true = ground (arith, lookup-delete id j by_id) in
      let there : lookup j by_id ≢ none = λ e. ground arith in
      let younger : id < j = ground (arith, lookup-delete id j by_id, oldest j there) in
      let ids = drop_first id (bucket key dedup) in
      elim (Bool-cases (key == k)) [
        | inl same ↦
            let e : bucket k (put_history dedup key ids) ≡ ids =
              ground (arith, bucket-put_history dedup key k ids) in
            let at : AtLeast j (last? (bucket key dedup)) =
              subst (λ t. AtLeast j (last? (bucket t dedup)))
                (sym ((dedup_keys.test_iff key k).0 same)) (h k j kept) in
            subst (λ t. AtLeast j (last? t)) (sym e)
              (AtLeast-drop_first id j (bucket key dedup) younger at)
        | inr other ↦
            let e : bucket k (put_history dedup key ids) ≡ bucket k dedup =
              ground (arith, bucket-put_history dedup key k ids) in
            subst (λ t. AtLeast j (last? t)) (sym e) (h k j kept)
      ]

  pub insert-IsNewest :
      (id : ℕ) (e : NormalizedEvent)
      → (e.involved_object_uid == "") ≡ true
      → IsNewest (insert id e by_id) dedup
  insert-IsNewest id e unnamed key j s = h key j (ground (arith, lookup-insert id j e by_id))

  pub update-IsNewest :
      (id : ℕ) (old new : NormalizedEvent)
      → lookup id by_id ≡ some old
      → new.involved_object_uid ≡ old.involved_object_uid
      → new.reason ≡ old.reason
      → IsNewest (insert id new by_id) dedup
  update-IsNewest id old new found same_uid same_reason key j s =
      h key j (ground (arith, lookup-insert id j new by_id))

  pub grow-IsNewest :
      (n : ℕ) (e : NormalizedEvent) (ids : List ℕ)
      → ((j : ℕ) → lookup j by_id ≢ none → j < n)
      → IsNewest (insert n e by_id) (insert (key_of e) (ids ++ n ∷ []) dedup)
  grow-IsNewest n e ids older key j s = ground (
    arith,
    lookup-insert n j e by_id,
    lookup-insert (key_of e) key (ids ++ n ∷ []) dedup,
    last?-append ids n,
    h key j,
    older j,
    dedup_keys.test_iff key (key_of e),
    dedup_keys.test_iff (key_of e) key,
  )

-- A new event ends the history of its stream.
pub track-IsNewest :
    (s : Store) (by_id : List (ℕ × NormalizedEvent)) (n : ℕ) (e : NormalizedEvent)
    → IsNewest by_id s.dedup_idx
    → ((j : ℕ) → lookup j by_id ≢ none → j < n)
    → IsNewest (insert n e by_id) (track s (key_of e) n).dedup_idx
unfolding track
track-IsNewest s by_id n e h older = go (bucket (key_of e) s.dedup_idx) refl (Bool-cases _)
  where
    key : DedupKey
    key = key_of e

    go :
        (ids : List ℕ)
        → bucket key s.dedup_idx ≡ ids
        → (ltb max_bursts_per_key (length (ids ++ n ∷ [])) ≡ true)
          ⊎ (ltb max_bursts_per_key (length (ids ++ n ∷ [])) ≡ false)
        → IsNewest (insert n e by_id) (track s key n).dedup_idx
    go [] same long = rw (same, track) (grow-IsNewest by_id s.dedup_idx h n e [] older)
    go (dropped ∷ rest) same (inl long) =
        rw (same, track, long) (grow-IsNewest by_id s.dedup_idx h n e rest older)
    go (dropped ∷ rest) same (inr short) =
        rw (same, track, short) (grow-IsNewest by_id s.dedup_idx h n e (dropped ∷ rest) older)

pub untrack-IsNewest :
    (s : Store) (id : ℕ)
    → IsNewest s.by_id s.dedup_idx
    → ((j : ℕ) → lookup j s.by_id ≢ none → id ≤ j)
    → IsNewest (delete id s.by_id) (untrack s id).dedup_idx
unfolding untrack
untrack-IsNewest s id h oldest = elim (Option-cases (lookup id s.evict_idx)) [
  | inl e ↦ rw (e, untrack) (untracked-IsNewest s.by_id s.dedup_idx h id)
  | inr (key, e) ↦ rw (e, untrack) (forget-IsNewest s.by_id s.dedup_idx h id key oldest)
]

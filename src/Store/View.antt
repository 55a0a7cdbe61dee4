-- ===== src/Store/View.antt =====
-- The store without its ring and indexes: the list of its episodes, newest first.
use mcp_k8s.Base.{
  ℕ, zero, suc, ◌+◌, ◌≤◌, ◌<◌, ◌≡◌, refl, ◌≢◌, Bool, true, false, Option, none, some, List, [], ◌∷◌,
  ◌==◌, num_keys, num_eq, text_keys, if◌then◌else◌, take, lookup, insert, or_else, lookup-insert,
  arith, Bool-cases, inl, inr, subst,
}
use mcp_k8s.Event.{NormalizedEvent, DedupKey, key_of, dedup_keys}
use mcp_k8s.Store.{Store, is_same_burst, update_burst}

-- The episodes with an id in the `c` numbers below `n`, downwards.
unfoldable pub episodes : List (ℕ × NormalizedEvent) → ℕ → ℕ → List NormalizedEvent
episodes m zero c = []
episodes m (suc n) zero = []
episodes m (suc n) (suc c) =
    let rest = episodes m n c in elim (lookup n m) [ none ↦ rest | some e ↦ e ∷ rest ]

abbrev pub view : Store → List NormalizedEvent
view s = episodes s.by_id s.next_id s.max_size

-- The newest episode of the event's stream takes the event in, if that is the same burst.
unfoldable pub refresh : NormalizedEvent → List NormalizedEvent → Option (List NormalizedEvent)
refresh e [] = none
refresh e (x ∷ xs) =
    let rest = refresh e xs in
    if key_of e == key_of x
    then (if is_same_burst e x then some (update_burst x e ∷ xs) else none)
    else elim rest [ none ↦ none | some ys ↦ some (x ∷ ys) ]

-- What `Add` promises of a store of capacity `m`.
unfoldable pub add_episode : ℕ → NormalizedEvent → List NormalizedEvent → List NormalizedEvent
add_episode m e xs =
    or_else (if e.involved_object_uid == "" then none else refresh e xs) (take m (e ∷ xs))

abbrev pub in_key : DedupKey → Option NormalizedEvent → Bool
in_key key none = false
in_key key (some x) = key == key_of x

-- Only the ids in the window matter.
pub episodes_agree :
    (a b : List (ℕ × NormalizedEvent)) (n c : ℕ)
    → ((i : ℕ) → i < n → n ≤ i + c → lookup i a ≡ lookup i b)
    → episodes a n c ≡ episodes b n c
unfolding episodes
episodes_agree a b zero c h = refl
episodes_agree a b (suc n) zero h = refl
episodes_agree a b (suc n) (suc c) h =
    let rest = episodes_agree a b n c (λ i p q. h i (omega arith) (omega arith)) in
    ground (arith, rest, h n (omega arith) (omega arith))

-- A shorter window shows a prefix.
pub take-episodes :
    (m : List (ℕ × NormalizedEvent)) (n c k : ℕ)
    → ((i : ℕ) → i < n → n ≤ i + c → lookup i m ≢ none)
    → take c (episodes m n (c + k)) ≡ episodes m n c
unfolding episodes
take-episodes m zero zero k h = refl
take-episodes m zero (suc c) k h = refl
take-episodes m (suc n) zero k h = refl
take-episodes m (suc n) (suc c) k h =
    let rest = take-episodes m n c k (λ i p q. h i (omega arith) (omega arith)) in
    let e : suc c + k ≡ suc (c + k) = omega arith in
    rw e (ground (arith, rest, h n (omega arith) (omega arith)))

module _ (m : List (ℕ × NormalizedEvent)) (e : NormalizedEvent) where
  -- No episode of the stream: nothing to update.
  pub refresh-none :
      (n c : ℕ)
      → ((i : ℕ) → in_key (key_of e) (lookup i m) ≡ false)
      → refresh e (episodes m n c) ≡ none
  unfolding episodes refresh
  refresh-none zero c h = refl
  refresh-none (suc n) zero h = refl
  refresh-none (suc n) (suc c) h = ground (arith, refresh-none n c h, h n)

  module _ (id : ℕ) (latest : NormalizedEvent) (found : lookup id m ≡ some latest)
      (stream : (key_of e == key_of latest) ≡ true)
      (newest : (i : ℕ) → id < i → in_key (key_of e) (lookup i m) ≡ false) where
    -- The newest episode is of another burst.
    pub refresh-other :
        (n c : ℕ)
        → id < n
        → n ≤ id + c
        → is_same_burst e latest ≡ false
        → refresh e (episodes m n c) ≡ none
    unfolding episodes refresh
    refresh-other zero c p q h = refl
    refresh-other (suc n) zero p q h = refl
    refresh-other (suc n) (suc c) p q h = elim (Bool-cases (num_eq id n)) [
      | inl here ↦
          let at : lookup n m ≡ some latest =
            subst (λ i. lookup i m ≡ some latest) (ground arith) found in
          ground arith
      | inr there ↦
          ground (arith, refresh-other n c (ground arith) (ground arith) h, newest n (ground arith))
    ]

    -- The newest episode is of this burst.
    pub refresh-same :
        (n c : ℕ)
        → id < n
        → n ≤ id + c
        → is_same_burst e latest ≡ true
        → refresh e (episodes m n c) ≡ some (episodes (insert id (update_burst latest e) m) n c)
    unfolding episodes refresh
    refresh-same zero c p q h = absurd (omega arith)
    refresh-same (suc n) zero p q h = absurd (omega arith)
    refresh-same (suc n) (suc c) p q h = elim (Bool-cases (num_eq id n)) [
      | inl here ↦
          let at : lookup n m ≡ some latest =
            subst (λ i. lookup i m ≡ some latest) (ground arith) found in
          let rest : episodes m n c ≡ episodes (insert id (update_burst latest e) m) n c =
            episodes_agree m (insert id (update_burst latest e) m) n c
              λ i below _. ground (arith, lookup-insert id i (update_burst latest e) m) in
          ground (arith, rest, lookup-insert id n (update_burst latest e) m)
      | inr there ↦ ground (
        arith,
        refresh-same n c (ground arith) (ground arith) h,
        newest n (ground arith),
        lookup-insert id n (update_burst latest e) m,
      )
    ]

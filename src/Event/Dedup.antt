-- ===== src/Event/Dedup.antt =====
-- pkg/events/dedup.go: the deduplicator merges events by object and reason.
use mcp_k8s.Base.{
  ℕ, ◌≤◌, String, ◌≡◌, refl, sym, ap, ◌∙◌, inl, inr, Bool, true, false, not, ◌&&◌, Option, none,
  some, List, [], ◌∷◌, arith, if◌then◌else◌, Bool-cases, Option-cases, ◌==◌, num_keys, text_keys,
  keep, All, lookup, insert, lookup-insert, Ranging, add32,
}
use mcp_k8s.Event.{NormalizedEvent, DedupKey, key_of, dedup_keys, before, after}

abbrev pub Deduplicator : Type 0
Deduplicator = List (DedupKey × NormalizedEvent)

-- `NewDeduplicator`
abbrev pub new : Deduplicator
new = []

abbrev pub is_empty {ℓ} : {A : Type ℓ} → List A → Bool
is_empty [] = true
is_empty (x ∷ xs) = false

-- The update of an existing entry.
unfoldable pub combine : NormalizedEvent → NormalizedEvent → NormalizedEvent
combine existing e =
    let is_later = after e.last_seen existing.last_seen in
    record existing {
      count = add32 existing.count e.count;
      first_seen =
          if before e.first_seen existing.first_seen then e.first_seen else existing.first_seen;
      last_seen = if is_later then e.last_seen else existing.last_seen;
      message = if is_later then e.message else existing.message;
      owner_chain =
          if is_empty existing.owner_chain && not (is_empty e.owner_chain)
          then e.owner_chain
          else existing.owner_chain;
    }

-- `Merge`: the new state, the merged event and whether it is new.
unfoldable pub merge : Deduplicator → NormalizedEvent → Deduplicator × NormalizedEvent × Bool
merge d e = elim (lookup (key_of e) d) [
  | none ↦ (insert (key_of e) e d, e, true)
  | some existing ↦ (insert (key_of e) (combine existing e) d, combine existing e, false)
]

-- `Get`
unfoldable pub get : Deduplicator → String → String → Option NormalizedEvent
get d object_uid reason = lookup (record { object_uid = object_uid; reason = reason }) d

abbrev pub values {ℓ} : {K V : Type ℓ} → List (K × V) → List V
values [] = []
values ((k, v) ∷ m) = v ∷ values m

-- `Snapshot`, in an order that Go leaves open.
unfoldable pub snapshot : Ranging NormalizedEvent → Deduplicator → List NormalizedEvent
snapshot r d = r.order (values d)

-- A run of `Merge`.
unfoldable pub merge_all : Deduplicator → List NormalizedEvent → Deduplicator
merge_all d [] = d
merge_all d (e ∷ evs) = merge_all (merge d e).0 evs

-- The stream of one key, merged from the left.
unfoldable pub combine_all : NormalizedEvent → List NormalizedEvent → NormalizedEvent
combine_all x [] = x
combine_all x (e ∷ evs) = combine_all (combine x e) evs

unfoldable pub merged : Option NormalizedEvent → List NormalizedEvent → Option NormalizedEvent
merged (some x) evs = some (combine_all x evs)
merged none [] = none
merged none (e ∷ evs) = some (combine_all e evs)

abbrev pub stream : DedupKey → List NormalizedEvent → List NormalizedEvent
stream k = keep (λ e. key_of e == k)

lookup-merge :
    (d : Deduplicator) (e : NormalizedEvent) (k : DedupKey)
    → lookup k (merge d e).0 ≡ (if key_of e == k then merged (lookup k d) (e ∷ []) else lookup k d)
unfolding merge merged combine_all
lookup-merge d e k = elim (Option-cases (lookup (key_of e) d)) [
  | inl missing ↦ ground (arith, lookup-insert (key_of e) k e d, dedup_keys.test_iff (key_of e) k)
  | inr (x, found) ↦
      ground (arith, lookup-insert (key_of e) k (combine x e) d, dedup_keys.test_iff (key_of e) k)
]

merged-nil : (o : Option NormalizedEvent) → o ≡ merged o []
unfolding merged combine_all
merged-nil none = refl
merged-nil (some x) = refl

merged-cons :
    (o : Option NormalizedEvent) (e : NormalizedEvent) (evs : List NormalizedEvent)
    → merged (merged o (e ∷ [])) evs ≡ merged o (e ∷ evs)
unfolding merged combine_all
merged-cons none e evs = refl
merged-cons (some x) e evs = refl

-- After a run of `Merge` the entry of a key is what it was before, with the events of that key
-- merged in one by one in their order: the events of other keys do not matter.
pub lookup-merge_all :
    (d : Deduplicator) (evs : List NormalizedEvent) (k : DedupKey)
    → lookup k (merge_all d evs) ≡ merged (lookup k d) (stream k evs)
unfolding merge_all
lookup-merge_all d [] k = merged-nil (lookup k d)
lookup-merge_all d (e ∷ evs) k = elim (Bool-cases (key_of e == k)) [
  | inl same ↦
      lookup-merge_all (merge d e).0 evs k
      ∙ ap (λ o. merged o (stream k evs)) (lookup-merge d e k ∙ pick same)
      ∙ merged-cons (lookup k d) e (stream k evs)
      ∙ ap (merged (lookup k d)) (sym (kept same))
  | inr other ↦
      lookup-merge_all (merge d e).0 evs k
      ∙ ap (λ o. merged o (stream k evs)) (lookup-merge d e k ∙ pick other)
      ∙ ap (merged (lookup k d)) (sym (kept other))
]
  where
    pick :
        {b : Bool}
        → (key_of e == k) ≡ b
        → (if key_of e == k then merged (lookup k d) (e ∷ []) else lookup k d)
          ≡ (if b then merged (lookup k d) (e ∷ []) else lookup k d)
    pick h = ap (λ c. if c then merged (lookup k d) (e ∷ []) else lookup k d) h

    kept :
        {b : Bool}
        → (key_of e == k) ≡ b
        → stream k (e ∷ evs) ≡ (if b then e ∷ stream k evs else stream k evs)
    kept h = ap (λ c. if c then e ∷ stream k evs else stream k evs) h

-- The sum of the counts as an int32.
abbrev pub total : ℕ → List NormalizedEvent → ℕ
total n [] = n
total n (e ∷ evs) = total (add32 n e.count) evs

combine_lem :
    (x e : NormalizedEvent)
    → ((combine x e).count ≡ add32 x.count e.count)
      × ((combine x e).first_seen ≤ x.first_seen)
      × ((combine x e).first_seen ≤ e.first_seen)
      × (x.last_seen ≤ (combine x e).last_seen)
      × (e.last_seen ≤ (combine x e).last_seen)
      × (key_of (combine x e) ≡ key_of x)
unfolding combine
combine_lem x e = ground arith

-- Of an event with the later events of its stream merged in, the count is the sum of all the
-- counts on 32 bits, `first_seen` is at or before that of each, `last_seen` at or after that of
-- each, and object and reason are still those of the first.
pub combine_all_lem :
    (x : NormalizedEvent) (evs : List NormalizedEvent)
    → ((combine_all x evs).count ≡ total x.count evs)
      × All (λ e. (combine_all x evs).first_seen ≤ e.first_seen) (x ∷ evs)
      × All (λ e. e.last_seen ≤ (combine_all x evs).last_seen) (x ∷ evs)
      × (key_of (combine_all x evs) ≡ key_of x)
unfolding combine_all
combine_all_lem x [] = (refl, (omega arith, tt), (omega arith, tt), refl)
combine_all_lem x (e ∷ evs) =
    let (counted, (first, firsts), (last, lasts), stream_kept) =
      combine_all_lem (combine x e) evs in
    let (count, first_x, first_e, last_x, last_e, key) = combine_lem x e in
    (
      counted ∙ ap (λ n. total n evs) count,
      (omega arith, (omega arith, firsts)),
      (omega arith, (omega arith, lasts)),
      stream_kept ∙ key,
    )

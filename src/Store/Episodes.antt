-- ===== src/Store/Episodes.antt =====
-- The episodes of the abstract store are the stored events.
use Prim.Native.Nat.{ℕ}
use mathlib.Core.Bool.{Bool}
use mathlib.Core.List.{List, [], ◌∷◌, Perm, filter_map, filter_map-cons-none, filter_map-cons-some}
use mathlib.Core.List.Perm
use mathlib.Core.Option.{Option, none, some}
use mathlib.Core.Logic.{inl, inr}
use mathlib.Core.Path.{◌≡◌, refl, sym, ap, subst, ◌∙◌}
use mcp_k8s.Base.{
  take, is_pos, if◌then◌else◌, Bool-cases, Ranging, zero, suc, num_keys, arith, Option-cases,
  contains, NoRepeat, perm_of_contains, keys, lookup, keep,
}
use mcp_k8s.Event.{NormalizedEvent}
use mcp_k8s.Store.{Store}
use mcp_k8s.Store.Ring.{in_window}
use mcp_k8s.Store.Invariant.{IsValid}
use mcp_k8s.Store.View.{episodes, view}
use mcp_k8s.Store.Answers.{matches, stored, contains-keys, keys-NoRepeat}
use mcp_k8s.Store.Selection.{FoundBy, Found-self, query_lem}
use mcp_k8s.Store.Sorting.{IsNewestFirst}
use mcp_k8s.Store.Query.{Filter, query}

-- The `c` ids below `n`, downwards.
abbrev window : ℕ → ℕ → List ℕ
window zero c = []
window (suc n) zero = []
window (suc n) (suc c) = n ∷ window n c

contains-window : (id n c : ℕ) → contains id (window n c) ≡ in_window c n id
contains-window id zero c = ground arith
contains-window id (suc n) zero = ground arith
contains-window id (suc n) (suc c) = ground (arith, contains-window id n c)

window-NoRepeat : (n c : ℕ) → NoRepeat (window n c)
window-NoRepeat zero c = tt
window-NoRepeat (suc n) zero = tt
window-NoRepeat (suc n) (suc c) = (ground (arith, contains-window n n c), window-NoRepeat n c)

module _ (m : List (ℕ × NormalizedEvent)) where
  abbrev found_in : ℕ → Option NormalizedEvent
  found_in id = lookup id m

  episodes-filter_map : (n c : ℕ) → episodes m n c ≡ filter_map found_in (window n c)
  unfolding episodes filter_map
  episodes-filter_map zero c = refl
  episodes-filter_map (suc n) zero = refl
  episodes-filter_map (suc n) (suc c) = elim (Option-cases (found_in n)) [
    | inl missing ↦
        rw (missing, episodes) (episodes-filter_map n c)
        ∙ sym (filter_map-cons-none found_in n (window n c) missing)
    | inr (e, found) ↦
        rw (found, episodes) (ap (◌∷◌ e) (episodes-filter_map n c))
        ∙ sym (filter_map-cons-some found_in n (window n c) found)
  ]

stored-filter_map :
    (look : ℕ → Option NormalizedEvent) (m : List (ℕ × NormalizedEvent))
    → FoundBy look m
    → filter_map look (keys m) ≡ stored m
unfolding filter_map
stored-filter_map look [] h = refl
stored-filter_map look ((id, e) ∷ m) (here, rest) =
    filter_map-cons-some look id (keys m) here ∙ ap (◌∷◌ e) (stored-filter_map look m rest)

-- The list of episodes of a valid store has exactly the stored events, each as often.
pub view-perm : (s : Store) → IsValid s → Perm (view s) (stored s.by_id)
view-perm s v =
    let look = λ (id : ℕ). lookup id s.by_id in
    let ids = window s.next_id s.max_size in
    let same : Perm ids (keys s.by_id) =
      perm_of_contains ids (keys s.by_id) (window-NoRepeat s.next_id s.max_size)
        (keys-NoRepeat s.by_id v.ring.distinct)
        λ id.
          contains-window id s.next_id s.max_size
          ∙ sym (v.ring.window id)
          ∙ sym (contains-keys id s.by_id) in
    subst (λ l. Perm l (stored s.by_id)) (sym (episodes-filter_map s.by_id s.next_id s.max_size))
      (subst (Perm (filter_map look ids))
        (stored-filter_map look s.by_id (Found-self s.by_id v.ring.distinct))
        (Perm.filter_map look same))

abbrev kept_if {ℓ} : {A : Type ℓ} → (A → Bool) → A → Option A
kept_if p a = if p a then some a else none

keep-filter_map {ℓ} :
    {A : Type ℓ} (p : A → Bool) (xs : List A) → keep p xs ≡ filter_map (kept_if p) xs
unfolding filter_map
keep-filter_map p [] = refl
keep-filter_map p (x ∷ xs) = elim (Bool-cases (p x)) [
  | inl here ↦
      let found : kept_if p x ≡ some x = rw here refl in
      rw here (ap (◌∷◌ x) (keep-filter_map p xs))
      ∙ sym (filter_map-cons-some (kept_if p) x xs found)
  | inr other ↦
      let missing : kept_if p x ≡ none = rw other refl in
      rw other (keep-filter_map p xs) ∙ sym (filter_map-cons-none (kept_if p) x xs missing)
]

pub keep-perm {ℓ} :
    {A : Type ℓ} (p : A → Bool) {xs ys : List A} → Perm xs ys → Perm (keep p xs) (keep p ys)
keep-perm p {xs} {ys} same =
    rw (keep-filter_map p xs, keep-filter_map p ys) (Perm.filter_map (kept_if p) same)

-- On a valid store, whatever the order in which the candidates are ranged over, there is a list of
-- exactly the episodes of the abstract store that match the filter, newest first, such that `Query`
-- returns its first `limit` events if the limit is positive, and all of it otherwise.
pub query-view :
    (r : Ranging ℕ) (s : Store) (f : Filter)
    → IsValid s
    → (all : List NormalizedEvent) × Perm all (keep (matches f) (view s))
      × IsNewestFirst all
      × (query r s f ≡ (if is_pos f.limit then take f.limit all else all))
query-view r s f v =
    let (all, perm, newest, limited) = query_lem r s f v in
    (all, Perm.trans perm (Perm.symm (keep-perm (matches f) (view-perm s v))), newest, limited)

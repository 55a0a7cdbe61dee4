-- ===== src/Store/Groups.antt =====
-- Which reasons `SummarizeNamespace` of pkg/store/store.go returns a group for.
use Prim.Native.String.{String}
use mathlib.Core.Bool.{Bool, true, false, ◌&&◌, ◌||◌}
use mathlib.Core.List.{List, [], ◌∷◌, Perm, foldr}
use mathlib.Core.List.Perm
use mathlib.Core.Option.{Option, none, some}
use mathlib.Core.Logic.{inl, inr}
use mathlib.Core.Path.{◌≡◌, refl, sym, ap, subst, ◌∙◌}
use mcp_k8s.Base.{
  ◌==◌, text_keys, num_keys, Bool-cases, arith, contains, keys, lookup, insert, lookup-insert,
  eq_of_test, test_comm, or_else, Ranging,
}
use mcp_k8s.Event.{NormalizedEvent}
use mcp_k8s.Store.Summary.{
  Group, NamespaceSummary, new_group, add_to_group, group_events, list_groups,
}

or_swap : (a b c : Bool) → (a || (b || c)) ≡ (b || (a || c))
or_swap true true c = refl
or_swap true false c = refl
or_swap false true c = refl
or_swap false false c = refl

or_true : (a b : Bool) → (a || (true || b)) ≡ true
or_true true b = refl
or_true false b = refl

bool_set : IsSet Bool
bool_set = hlevel

contains-foldr :
    (k : String) (xs : List String) → contains k xs ≡ foldr (λ x b. k == x || b) false xs
contains-foldr k [] = refl
contains-foldr k (x ∷ xs) = ap (◌||◌ (k == x)) (contains-foldr k xs)

contains-perm : (k : String) {xs ys : List String} → Perm xs ys → contains k xs ≡ contains k ys
contains-perm k {xs} {ys} p =
    contains-foldr k xs
    ∙ Perm.foldr-eq bool_set (λ x b. k == x || b) (λ a b x. or_swap (k == a) (k == b) x) p false
    ∙ sym (contains-foldr k ys)

abbrev is_found {ℓ} : {A : Type ℓ} → Option A → Bool
is_found none = false
is_found (some a) = true

contains-keys :
    (k : String) (m : List (String × Group)) → contains k (keys m) ≡ is_found (lookup k m)
unfolding lookup
contains-keys k [] = refl
contains-keys k ((j, g) ∷ m) = elim (Bool-cases (k == j)) [
  | inl here ↦ rw here refl
  | inr there ↦ rw there (contains-keys k m)
]

abbrev pub reasons_of : List NormalizedEvent → List String
reasons_of [] = []
reasons_of (e ∷ evs) = e.reason ∷ reasons_of evs

abbrev pub group_reasons : List NamespaceSummary → List String
group_reasons [] = []
group_reasons (g ∷ groups) = g.reason ∷ group_reasons groups

is_found-group_events :
    (groups : List (String × Group)) (evs : List NormalizedEvent) (k : String)
    → is_found (lookup k (group_events groups evs))
      ≡ (is_found (lookup k groups) || contains k (reasons_of evs))
unfolding group_events
is_found-group_events groups [] k = ground arith
is_found-group_events groups (e ∷ evs) k =
    let g = add_to_group (or_else (lookup e.reason groups) new_group) e in
    is_found-group_events (insert e.reason g groups) evs k
    ∙ ap (λ o. is_found o || contains k (reasons_of evs)) (lookup-insert e.reason k g groups)
    ∙ (elim (Bool-cases (e.reason == k)) [
      | inl here ↦
          rw (here, sym (test_comm e.reason k) ∙ here)
            (sym (or_true (is_found (lookup k groups)) (contains k (reasons_of evs))))
      | inr there ↦ rw (there, sym (test_comm e.reason k) ∙ there) refl
    ])

and_false : (a : Bool) → false ≡ (a && false)
and_false true = refl
and_false false = refl

list_missing :
    (objs : Ranging String) (groups : List (String × Group)) (r : String) (reasons : List String)
    → lookup r groups ≡ none
    → group_reasons (list_groups objs groups (r ∷ reasons))
      ≡ group_reasons (list_groups objs groups reasons)
unfolding list_groups
list_missing objs groups r reasons missing = rw (missing, group_reasons) refl

list_found :
    (objs : Ranging String) (groups : List (String × Group)) (r : String) (reasons : List String)
    (g : Group)
    → lookup r groups ≡ some g
    → group_reasons (list_groups objs groups (r ∷ reasons))
      ≡ r ∷ group_reasons (list_groups objs groups reasons)
unfolding list_groups
list_found objs groups r reasons g found = rw (found, group_reasons) refl

-- The groups that are listed are those of the reasons that have one.
contains-list_groups :
    (objs : Ranging String) (groups : List (String × Group)) (reasons : List String) (k : String)
    → contains k (group_reasons (list_groups objs groups reasons))
      ≡ (is_found (lookup k groups) && contains k reasons)
unfolding list_groups
contains-list_groups objs groups [] k = and_false (is_found (lookup k groups))
contains-list_groups objs groups (r ∷ reasons) k =
    go (lookup r groups) refl (contains-list_groups objs groups reasons k)
  where
    go :
        (o : Option Group)
        → lookup r groups ≡ o
        → contains k (group_reasons (list_groups objs groups reasons))
          ≡ (is_found (lookup k groups) && contains k reasons)
        → contains k (group_reasons (list_groups objs groups (r ∷ reasons)))
          ≡ (is_found (lookup k groups) && (k == r || contains k reasons))
    go none missing rest =
        ap (contains k) (list_missing objs groups r reasons missing)
        ∙ rest
        ∙ (elim (Bool-cases (k == r)) [
          | inl here ↦
              let absent : lookup k groups ≡ none =
                subst (λ j. lookup j groups ≡ none) (sym (eq_of_test k r here)) missing in
              rw absent refl
          | inr there ↦ rw there refl
        ])
    go (some g) found rest =
        ap (contains k) (list_found objs groups r reasons g found) ∙ (elim (Bool-cases (k == r)) [
          | inl here ↦
              let present : lookup k groups ≡ some g =
                subst (λ j. lookup j groups ≡ some g) (sym (eq_of_test k r here)) found in
              rw (here, present) refl
          | inr there ↦ rw there rest
        ])

and_self : (a b : Bool) → b ≡ a → (a && b) ≡ a
and_self true b h = h
and_self false b h = refl

-- The reasons of the groups are those of the events.
pub contains-group_reasons :
    (reasons objs : Ranging String) (evs : List NormalizedEvent) (k : String)
    → let groups = group_events [] evs in
      contains k (group_reasons (list_groups objs groups (reasons.order (keys groups))))
      ≡ contains k (reasons_of evs)
unfolding lookup
contains-group_reasons reasons objs evs k =
    let groups = group_events [] evs in
    let names = reasons.order (keys groups) in
    contains-list_groups objs groups names k
    ∙ and_self (is_found (lookup k groups)) (contains k names)
        (contains-perm k (reasons.order-perm (keys groups)) ∙ contains-keys k groups)
    ∙ is_found-group_events [] evs k

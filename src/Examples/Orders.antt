-- ===== src/Examples/Orders.antt =====
-- A sort that meets the contract that pkg/correlation/correlator.go expects of sort.Slice.
use Prim.Native.Nat.{◌≤◌}
use mathlib.Core.Logic.{inl, inr}
use mathlib.Core.List.{List, [], ◌∷◌, Perm}
use mathlib.Core.List.Perm
use mcp_k8s.Base.{arith, All, leb, leb→le, Bool-cases, if◌then◌else◌}
use mcp_k8s.Event.{Time, Sorting, OldestFirst}

module _ {ℓ} {A : Type ℓ} (time : A → Time) where
  unfoldable pub place_in : A → List A → List A
  place_in x [] = x ∷ []
  place_in x (y ∷ ys) =
      let later = y ∷ place_in x ys in if leb (time x) (time y) then x ∷ y ∷ ys else later

  unfoldable pub sorted : List A → List A
  sorted [] = []
  sorted (x ∷ xs) = place_in x (sorted xs)

  place_in-perm : (x : A) (ys : List A) → Perm (place_in x ys) (x ∷ ys)
  unfolding place_in
  place_in-perm x [] = Perm.refl (x ∷ [])
  place_in-perm x (y ∷ ys) = elim (Bool-cases (leb (time x) (time y))) [
    | inl early ↦ rw early (Perm.refl (x ∷ y ∷ ys))
    | inr late ↦ rw late (Perm.trans (Perm.cons y (place_in-perm x ys)) (Perm.swap x y ys))
  ]

  pub sorted-perm : (xs : List A) → Perm (sorted xs) xs
  unfolding sorted
  sorted-perm [] = Perm.refl []
  sorted-perm (x ∷ xs) = Perm.trans (place_in-perm x (sorted xs)) (Perm.cons x (sorted-perm xs))

  All-place_in :
      (t : Time) (x : A) (ys : List A)
      → t ≤ time x
      → All (λ y. t ≤ time y) ys
      → All (λ y. t ≤ time y) (place_in x ys)
  unfolding place_in
  All-place_in t x [] h all = (h, tt)
  All-place_in t x (y ∷ ys) h all = elim (Bool-cases (leb (time x) (time y))) [
    | inl early ↦ rw early (h, all)
    | inr late ↦ rw late (all.0, All-place_in t x ys h all.1)
  ]

  All-earlier :
      (t u : Time) (ys : List A) → t ≤ u → All (λ y. u ≤ time y) ys → All (λ y. t ≤ time y) ys
  All-earlier t u [] h all = tt
  All-earlier t u (y ∷ ys) h all = (omega (arith, all.0), All-earlier t u ys h all.1)

  place_in-OldestFirst :
      (x : A) (ys : List A) → OldestFirst time ys → OldestFirst time (place_in x ys)
  unfolding place_in
  place_in-OldestFirst x [] h = (tt, tt)
  place_in-OldestFirst x (y ∷ ys) h = elim (Bool-cases (leb (time x) (time y))) [
    | inl early ↦
        let le = leb→le (time x) (time y) early in
        rw early ((le, All-earlier (time x) (time y) ys le h.0), h)
    | inr late ↦
        rw late (All-place_in (time y) x ys (ground arith) h.0, place_in-OldestFirst x ys h.1)
  ]

  pub sorted-OldestFirst : (xs : List A) → OldestFirst time (sorted xs)
  unfolding sorted
  sorted-OldestFirst [] = tt
  sorted-OldestFirst (x ∷ xs) = place_in-OldestFirst x (sorted xs) (sorted-OldestFirst xs)

  abbrev pub insertion : Sorting A time
  insertion = record {
    sort = sorted;
    sort-perm = sorted-perm;
    sort-OldestFirst = sorted-OldestFirst;
  }

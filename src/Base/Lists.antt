-- ===== src/Base/Lists.antt =====
-- Lists measured and indexed by native numbers, under the library's names, and sets of keys as
-- lists.
use Prim.Native.Nat.{ℕ, zero, suc, ◌+◌, ◌≤◌, ◌<◌, min}
use mathlib.Core.Path.{◌≡◌, refl, sym, ap, subst}
use mathlib.Core.Logic.{◌≢◌, inl, inr}
use mathlib.Core.Bool.{Bool, true, false, ◌||◌}
use mathlib.Core.List.{List, [], ◌∷◌, ◌++◌, map, Perm}
use mathlib.Core.List.Perm
use mathlib.Core.Option.{Option, none, some}
use native.Mathlib.Omega.{arith}
use mcp_k8s.Base.Test.{Eq, ◌==◌, if◌then◌else◌, Bool-cases}

module _ {ℓ} {A : Type ℓ} where
  abbrev pub length : List A → ℕ
  length [] = 0
  length (x ∷ xs) = suc (length xs)

  abbrev pub get_elem? : List A → ℕ → Option A
  get_elem? [] i = none
  get_elem? (x ∷ xs) zero = some x
  get_elem? (x ∷ xs) (suc i) = get_elem? xs i

  -- A write out of bounds changes nothing.
  abbrev pub set : List A → ℕ → A → List A
  set [] i v = []
  set (x ∷ xs) zero v = v ∷ xs
  set (x ∷ xs) (suc i) v = x ∷ set xs i v

  abbrev pub take : ℕ → List A → List A
  take zero xs = []
  take (suc n) [] = []
  take (suc n) (x ∷ xs) = x ∷ take n xs

  abbrev pub replicate : ℕ → A → List A
  replicate zero a = []
  replicate (suc n) a = a ∷ replicate n a

  -- The sublist on which a test holds, in order.
  abbrev pub keep : (A → Bool) → List A → List A
  keep p [] = []
  keep p (x ∷ xs) = if p x then x ∷ keep p xs else keep p xs

  abbrev pub last? : List A → Option A
  last? [] = none
  last? (x ∷ []) = some x
  last? (x ∷ y ∷ xs) = last? (y ∷ xs)

  abbrev pub All {κ} : (A → Type κ) → List A → Type κ
  All P [] = Unit
  All P (x ∷ xs) = P x × All P xs

module _ {ℓ} {A : Type ℓ} where
  pub length-append : (xs ys : List A) → length (xs ++ ys) ≡ length xs + length ys
  length-append [] ys = omega arith
  length-append (x ∷ xs) ys = omega (arith, length-append xs ys)

  pub length-set : (xs : List A) (i : ℕ) (v : A) → length (set xs i v) ≡ length xs
  length-set [] i v = refl
  length-set (x ∷ xs) zero v = refl
  length-set (x ∷ xs) (suc i) v = ap suc (length-set xs i v)

  pub get_elem?-set_self :
      (xs : List A) (i : ℕ) (v : A) → i < length xs → get_elem? (set xs i v) i ≡ some v
  get_elem?-set_self [] i v h = elim h [ ]
  get_elem?-set_self (x ∷ xs) zero v h = refl
  get_elem?-set_self (x ∷ xs) (suc i) v h = get_elem?-set_self xs i v (omega arith)

  pub get_elem?-set_ne :
      (xs : List A) (i j : ℕ) (v : A) → i ≢ j → get_elem? (set xs i v) j ≡ get_elem? xs j
  get_elem?-set_ne [] i j v h = refl
  get_elem?-set_ne (x ∷ xs) zero zero v h = absurd (h refl)
  get_elem?-set_ne (x ∷ xs) zero (suc j) v h = refl
  get_elem?-set_ne (x ∷ xs) (suc i) zero v h = refl
  get_elem?-set_ne (x ∷ xs) (suc i) (suc j) v h = get_elem?-set_ne xs i j v (λ e. h (ap suc e))

  pub length-take : (n : ℕ) (xs : List A) → length (take n xs) ≡ min n (length xs)
  length-take zero xs = omega arith
  length-take (suc n) [] = omega arith
  length-take (suc n) (x ∷ xs) = omega (arith, length-take n xs)

  pub take_of_length-le : (k : ℕ) (l : List A) → length l ≤ k → take k l ≡ l
  take_of_length-le (suc k) [] fits = refl
  take_of_length-le zero [] fits = refl
  take_of_length-le zero (a ∷ l) fits = absurd (omega arith)
  take_of_length-le (suc k) (a ∷ l) fits = λ i. a ∷ take_of_length-le k l (omega arith) i

  pub length-replicate : (n : ℕ) (a : A) → length (replicate n a) ≡ n
  length-replicate zero a = refl
  length-replicate (suc n) a = ap suc (length-replicate n a)

  pub length-map {κ} : {B : Type κ} (f : A → B) (xs : List A) → length (map f xs) ≡ length xs
  length-map f [] = refl
  length-map f (x ∷ xs) = ap suc (length-map f xs)

  pub last?-append : (xs : List A) (x : A) → last? (xs ++ x ∷ []) ≡ some x
  last?-append [] x = refl
  last?-append (y ∷ []) x = refl
  last?-append (y ∷ z ∷ xs) x = last?-append (z ∷ xs) x

  pub All-append {κ} : (P : A → Type κ) (xs ys : List A) → All P xs → All P ys → All P (xs ++ ys)
  All-append P [] ys hx hy = hy
  All-append P (x ∷ xs) ys hx hy = (hx.0, All-append P xs ys hx.1 hy)

  pub keep-append : (p : A → Bool) (xs ys : List A) → keep p (xs ++ ys) ≡ keep p xs ++ keep p ys
  keep-append p [] ys = refl
  keep-append p (x ∷ xs) ys = ground (arith, keep-append p xs ys)

-- Sets of keys, `map[K]struct{}` in the source.
module _ {ℓ} {K : Type ℓ} ⦃eq : Eq K⦄ where
  abbrev pub contains : K → List K → Bool
  contains k [] = false
  contains k (x ∷ xs) = k == x || contains k xs

  unfoldable pub add_key : K → List K → List K
  add_key k xs = if contains k xs then xs else k ∷ xs

  unfoldable pub remove_key : K → List K → List K
  remove_key k [] = []
  remove_key k (x ∷ xs) = let rest = remove_key k xs in if k == x then rest else x ∷ rest

  pub contains-append :
      (k : K) (xs ys : List K) → contains k (xs ++ ys) ≡ (contains k xs || contains k ys)
  contains-append k [] ys = refl
  contains-append k (x ∷ xs) ys = ground (arith, contains-append k xs ys)

  pub contains-add_key :
      (k j : K) (xs : List K) → contains j (add_key k xs) ≡ (if k == j then true else contains j xs)
  unfolding add_key
  contains-add_key k j xs = ground (arith, eq.test_iff j k, eq.test_iff k j)

  pub contains-remove_key :
      (k j : K) (xs : List K)
      → contains j (remove_key k xs) ≡ (if k == j then false else contains j xs)
  unfolding remove_key
  contains-remove_key k j [] = ground arith
  contains-remove_key k j (x ∷ xs) =
      ground (arith, contains-remove_key k j xs, eq.test_iff k x, eq.test_iff k j, eq.test_iff j x)

-- Sets with no key twice.
module _ {ℓ} {K : Type ℓ} ⦃eq : Eq K⦄ where
  abbrev pub NoRepeat : List K → Type 0
  NoRepeat [] = Unit
  NoRepeat (x ∷ xs) = (contains x xs ≡ false) × NoRepeat xs

  pub add_key-NoRepeat : (k : K) (xs : List K) → NoRepeat xs → NoRepeat (add_key k xs)
  unfolding add_key
  add_key-NoRepeat k xs d = ground arith

  pub remove_key-NoRepeat : (k : K) (xs : List K) → NoRepeat xs → NoRepeat (remove_key k xs)
  unfolding remove_key
  remove_key-NoRepeat k [] d = tt
  remove_key-NoRepeat k (x ∷ xs) d =
      ground (arith, remove_key-NoRepeat k xs d.1, contains-remove_key k x xs)

  remove_key_absent : (k : K) (xs : List K) → contains k xs ≡ false → remove_key k xs ≡ xs
  unfolding remove_key
  remove_key_absent k [] h = refl
  remove_key_absent k (x ∷ xs) h = ground (arith, remove_key_absent k xs)

  remove_key-perm :
      (k : K) (xs : List K) → NoRepeat xs → contains k xs ≡ true → Perm xs (k ∷ remove_key k xs)
  unfolding remove_key
  remove_key-perm k [] d h = absurd (ground arith)
  remove_key-perm k (x ∷ xs) d h = elim (Bool-cases (k == x)) [
    | inl here ↦ rw here (
        Perm.cons' (sym ((eq.test_iff k x).0 here)) (
          subst (Perm xs) (sym (remove_key_absent k xs (ground (arith, eq.test_iff k x))))
            Perm.rfl))
    | inr there ↦
        rw there
          (Perm.trans (Perm.cons x (remove_key-perm k xs d.1 (ground arith))) (Perm.swap k x _))
  ]

  -- Two sets with the same keys are the same up to order.
  pub perm_of_contains :
      (xs ys : List K)
      → NoRepeat xs
      → NoRepeat ys
      → ((k : K) → contains k xs ≡ contains k ys)
      → Perm xs ys
  perm_of_contains [] [] dx dy h = Perm.nil
  perm_of_contains [] (y ∷ ys) dx dy h = absurd (ground (arith, h y, eq.test_iff y y))
  perm_of_contains (x ∷ xs) ys dx dy h =
      let here : contains x ys ≡ true = ground (arith, h x, eq.test_iff x x) in
      Perm.trans
        (Perm.cons x (
          perm_of_contains xs (remove_key x ys) dx.1 (remove_key-NoRepeat x ys dy) (λ k.
            ground (arith, h k, contains-remove_key x k ys, eq.test_iff k x, eq.test_iff x k))))
        (Perm.symm (remove_key-perm x ys dy here))

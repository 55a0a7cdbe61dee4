-- ===== src/Store/Sorting.antt =====
-- `sortByLastSeenDesc` of pkg/store/store.go sorts, newest first.
use mcp_k8s.Base.{sym, ◌++◌}
use mcp_k8s.Base.{
  ℕ, suc, ◌+◌, ◌≤◌, ◌≡◌, refl, some, List, [], ◌∷◌, if◌then◌else◌, length, get_elem?, set, All,
  Perm, arith, Bool-cases, inl, inr, ap, ◌∙◌, subst,
}
use mathlib.Core.List.Perm
use mathlib.Core.List.{append-nil, perm_middle}
use mcp_k8s.Event.{NormalizedEvent, after}
use mcp_k8s.Store.Query.{swap, out_of_order, sift, sort_from, sort_by_last_seen_desc}

abbrev pub IsNewestFirst : List NormalizedEvent → Type 0
IsNewestFirst [] = Unit
IsNewestFirst (x ∷ xs) = All (λ y. y.last_seen ≤ x.last_seen) xs × IsNewestFirst xs

-- The sorted part of the slice, backwards, in front of the rest.
unroll : List NormalizedEvent → List NormalizedEvent → List NormalizedEvent
unroll [] ys = ys
unroll (x ∷ rp) ys = unroll rp (x ∷ ys)

put : NormalizedEvent → List NormalizedEvent → List NormalizedEvent
put x [] = x ∷ []
put x (y ∷ rp) = if after x.last_seen y.last_seen then y ∷ put x rp else x ∷ y ∷ rp

get_elem?-unroll :
    (rp ys : List NormalizedEvent) (k : ℕ)
    → get_elem? (unroll rp ys) (length rp + k) ≡ get_elem? ys k
unfolding unroll
get_elem?-unroll [] ys k = ap (get_elem? ys) (omega arith)
get_elem?-unroll (x ∷ rp) ys k =
    ap (get_elem? (unroll rp (x ∷ ys))) (omega arith) ∙ get_elem?-unroll rp (x ∷ ys) (suc k)

set-unroll :
    (rp ys : List NormalizedEvent) (k : ℕ) (v : NormalizedEvent)
    → set (unroll rp ys) (length rp + k) v ≡ unroll rp (set ys k v)
unfolding unroll
set-unroll [] ys k v = ap (λ i. set ys i v) (omega arith)
set-unroll (x ∷ rp) ys k v =
    ap (λ i. set (unroll rp (x ∷ ys)) i v) (omega arith) ∙ set-unroll rp (x ∷ ys) (suc k) v

module _ (rp : List NormalizedEvent) (y x : NormalizedEvent) (post : List NormalizedEvent) where
  abbrev evs : List NormalizedEvent
  evs = unroll rp (y ∷ x ∷ post)

  at_last : get_elem? evs (length rp) ≡ some y
  at_last = ap (get_elem? evs) (omega arith) ∙ get_elem?-unroll rp (y ∷ x ∷ post) 0

  at_next : get_elem? evs (suc (length rp)) ≡ some x
  at_next = ap (get_elem? evs) (omega arith) ∙ get_elem?-unroll rp (y ∷ x ∷ post) 1

  out_of_order-unroll : out_of_order evs (length rp) ≡ after x.last_seen y.last_seen
  unfolding out_of_order
  out_of_order-unroll = ground (arith, at_last, at_next)

  swap-unroll : swap evs (length rp) ≡ unroll rp (x ∷ y ∷ post)
  unfolding swap
  swap-unroll =
      let zero_add : length rp + 0 ≡ length rp = omega arith in
      let one_add : length rp + 1 ≡ suc (length rp) = omega arith in
      ground (
        arith,
        at_last,
        at_next,
        zero_add,
        one_add,
        set-unroll rp (y ∷ x ∷ post) 0 x,
        set-unroll rp (x ∷ x ∷ post) 1 y,
      )

sift-unroll :
    (rp : List NormalizedEvent) (x : NormalizedEvent) (post : List NormalizedEvent)
    → sift (unroll rp (x ∷ post)) (length rp) ≡ unroll (put x rp) post
unfolding sift put unroll
sift-unroll [] x post = refl
sift-unroll (y ∷ rp) x post =
    ground
      (arith, out_of_order-unroll rp y x post, swap-unroll rp y x post, sift-unroll rp x (y ∷ post))

put_all : List NormalizedEvent → List NormalizedEvent → List NormalizedEvent
put_all rp [] = rp
put_all rp (x ∷ todo) = put_all (put x rp) todo

length-put : (x : NormalizedEvent) (rp : List NormalizedEvent) → length (put x rp) ≡ length rp + 1
unfolding put
length-put x [] = omega arith
length-put x (y ∷ rp) = ground (arith, length-put x rp)

sort_from-unroll :
    (rp todo : List NormalizedEvent)
    → sort_from (length rp) (length todo) (unroll rp todo) ≡ unroll (put_all rp todo) []
unfolding sort_from put_all
sort_from-unroll rp [] = refl
sort_from-unroll rp (x ∷ todo) =
    ap (sort_from (length rp + 1) (length todo)) (sift-unroll rp x todo)
    ∙ ap (λ i. sort_from i (length todo) (unroll (put x rp) todo)) (sym (length-put x rp))
    ∙ sort_from-unroll (put x rp) todo

sort-unroll : (evs : List NormalizedEvent) → sort_by_last_seen_desc evs ≡ unroll (put_all [] evs) []
unfolding sort_by_last_seen_desc put_all unroll put
sort-unroll [] = refl
sort-unroll (e ∷ evs) = sort_from-unroll (e ∷ []) evs

put-perm : (x : NormalizedEvent) (rp : List NormalizedEvent) → Perm (put x rp) (x ∷ rp)
unfolding put
put-perm x [] = Perm.rfl
put-perm x (y ∷ rp) = elim (Bool-cases (after x.last_seen y.last_seen)) [
  | inl later ↦ rw later (Perm.trans (Perm.cons y (put-perm x rp)) (Perm.swap x y rp))
  | inr not_later ↦ rw not_later Perm.rfl
]

put_all-perm : (rp todo : List NormalizedEvent) → Perm (put_all rp todo) (rp ++ todo)
unfolding put_all
put_all-perm rp [] = subst (Perm rp) (sym (append-nil rp)) Perm.rfl
put_all-perm rp (x ∷ todo) =
    Perm.trans (put_all-perm (put x rp) todo)
      (Perm.trans (Perm.append_right todo (put-perm x rp)) (Perm.symm (perm_middle rp todo)))

unroll-perm : (rp ys : List NormalizedEvent) → Perm (unroll rp ys) (rp ++ ys)
unfolding unroll
unroll-perm [] ys = Perm.rfl
unroll-perm (x ∷ rp) ys = Perm.trans (unroll-perm rp (x ∷ ys)) (perm_middle rp ys)

-- Oldest first, as the sorted part stands backwards.
abbrev IsOldestFirst : List NormalizedEvent → Type 0
IsOldestFirst [] = Unit
IsOldestFirst (x ∷ xs) = All (λ y. x.last_seen ≤ y.last_seen) xs × IsOldestFirst xs

All-put :
    (t : ℕ) (x : NormalizedEvent) (rp : List NormalizedEvent)
    → t ≤ x.last_seen
    → All (λ y. t ≤ y.last_seen) rp
    → All (λ y. t ≤ y.last_seen) (put x rp)
unfolding put
All-put t x [] h a = (h, tt)
All-put t x (y ∷ rp) h a = ground (arith, All-put t x rp h a.1)

All-weaken :
    (t u : ℕ) (rp : List NormalizedEvent)
    → u ≤ t
    → All (λ y. t ≤ y.last_seen) rp
    → All (λ y. u ≤ y.last_seen) rp
All-weaken t u [] h a = tt
All-weaken t u (y ∷ rp) h a = (omega arith, All-weaken t u rp h a.1)

put-IsOldestFirst :
    (x : NormalizedEvent) (rp : List NormalizedEvent) → IsOldestFirst rp → IsOldestFirst (put x rp)
unfolding put
put-IsOldestFirst x [] h = (tt, tt)
put-IsOldestFirst x (y ∷ rp) h = elim (Bool-cases (after x.last_seen y.last_seen)) [
  | inl later ↦ rw later (All-put y.last_seen x rp (ground arith) h.0, put-IsOldestFirst x rp h.1)
  | inr not_later ↦
      let below : x.last_seen ≤ y.last_seen = ground arith in
      rw not_later ((below, All-weaken y.last_seen x.last_seen rp below h.0), h)
]

put_all-IsOldestFirst :
    (rp todo : List NormalizedEvent) → IsOldestFirst rp → IsOldestFirst (put_all rp todo)
unfolding put_all
put_all-IsOldestFirst rp [] h = h
put_all-IsOldestFirst rp (x ∷ todo) h =
    put_all-IsOldestFirst (put x rp) todo (put-IsOldestFirst x rp h)

-- Every event of the first list is at least as new as every one of the second.
abbrev Before : List NormalizedEvent → List NormalizedEvent → Type 0
Before [] ys = Unit
Before (x ∷ xs) ys = All (λ y. y.last_seen ≤ x.last_seen) ys × Before xs ys

Before-cons :
    (x : NormalizedEvent) (rp ys : List NormalizedEvent)
    → All (λ y. x.last_seen ≤ y.last_seen) rp
    → Before rp ys
    → Before rp (x ∷ ys)
Before-cons x [] ys a b = tt
Before-cons x (y ∷ rp) ys a b = ((a.0, b.0), Before-cons x rp ys a.1 b.1)

unroll-IsNewestFirst :
    (rp ys : List NormalizedEvent)
    → IsOldestFirst rp
    → IsNewestFirst ys
    → Before rp ys
    → IsNewestFirst (unroll rp ys)
unfolding unroll
unroll-IsNewestFirst [] ys o n b = n
unroll-IsNewestFirst (x ∷ rp) ys o n b =
    unroll-IsNewestFirst rp (x ∷ ys) o.1 (b.0, n) (Before-cons x rp ys o.0 b.1)

Before-nil : (rp : List NormalizedEvent) → Before rp []
Before-nil [] = tt
Before-nil (x ∷ rp) = (tt, Before-nil rp)

-- The sorted list holds the same events, newest first.
pub sort_by_last_seen_desc_lem :
    (evs : List NormalizedEvent)
    → Perm (sort_by_last_seen_desc evs) evs × IsNewestFirst (sort_by_last_seen_desc evs)
sort_by_last_seen_desc_lem evs =
    let sorted = put_all [] evs in
    (
      subst (λ xs. Perm xs evs) (sym (sort-unroll evs))
          (Perm.trans (unroll-perm sorted [])
            (subst (λ xs. Perm xs evs) (sym (append-nil sorted)) (put_all-perm [] evs))),
      subst IsNewestFirst (sym (sort-unroll evs))
          (unroll-IsNewestFirst sorted [] (put_all-IsOldestFirst [] evs tt) tt (Before-nil sorted)),
    )

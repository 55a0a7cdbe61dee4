-- ===== src/Store/Ring.antt =====
-- The ring: the store holds exactly the `max_size` youngest entries, and the slot at `head`
-- holds the oldest of them once the ring is full.
use mcp_k8s.Base.{
  ℕ, ◌+◌, ◌-◌, ◌%◌, ◌≤◌, ◌<◌, min, ◌≡◌, ◌≢◌, Bool, true, false, ◌&&◌, Option, none, some, List, [],
  num_keys, num_eq, ltb, leb, if◌then◌else◌, length, get_elem?, set, replicate, lookup, insert,
  delete, Distinct, lookup-insert, lookup-delete, insert-Distinct, delete-Distinct,
  length-insert_new, length-delete, length-replicate, length-set, get_elem?-set_self,
  get_elem?-set_ne, arith, Bool-cases, inl, inr, ltb→lt, Option-cases, ap, sym, subst, ◌∙◌,
  length-insert_old,
}
use native.Mathlib.Nat.{
  mod-lt, add-mod_right, mod-add-div, mod-eq_of_lt, mod_self, mod-add-mod, zero-mod,
}
use mcp_k8s.Event.{NormalizedEvent}

abbrev pub is_some {ℓ} : {A : Type ℓ} → Option A → Bool
is_some none = false
is_some (some a) = true

-- The ids of the entries that a ring of `m` slots holds after `n` insertions.
abbrev pub in_window : ℕ → ℕ → ℕ → Bool
in_window m n id = ltb id n && leb n (id + m)

-- Over the fields of a store that the ring consists of.
pub record IsRing (m : ℕ) (order : List ℕ) (head : ℕ) (full : Bool) (n : ℕ)
    (by_id : List (ℕ × NormalizedEvent)) : Type 0 where
  pub positive : 0 < m
  pub slots : length order ≡ m
  pub at_head : head ≡ n % m
  pub is_full : full ≡ leb m n
  pub slot : (id : ℕ) → in_window m n id ≡ true → get_elem? order (id % m) ≡ some id
  pub window : (id : ℕ) → is_some (lookup id by_id) ≡ in_window m n id
  pub distinct : Distinct by_id
  pub size : length by_id ≡ min n m

-- Two numbers less than `m` apart have different remainders.
mod_ne : (m a b : ℕ) → a < b → b < a + m → a % m ≢ b % m
mod_ne m a b h k e = absurd (grind (arith, mod-add-div a m, mod-add-div b m))

next_head : (m n : ℕ) → 0 < m → (n % m + 1) % m ≡ (n + 1) % m
next_head m n h = mod-add-mod n m 1

-- `head` comes back to 0 just when the ring has filled up.
head_zero : (m n : ℕ) → 0 < m → n < m → num_eq ((n + 1) % m) 0 ≡ leb m (n + 1)
head_zero m n h k = elim (Bool-cases (ltb (n + 1) m)) [
  | inl below ↦ rw (mod-eq_of_lt {n = n + 1} {m = m} (ltb→lt _ _ below)) (ground arith)
  | inr full ↦ let e : n + 1 ≡ m = ground arith in rw (e, mod_self m) (ground arith)
]

-- What an insertion leaves of the entries: the oldest goes if the ring is full.
abbrev pub make_room : ℕ → Bool → ℕ → List (ℕ × NormalizedEvent) → List (ℕ × NormalizedEvent)
make_room m full n by_id = if full then delete (n - m) by_id else by_id

module _ {m : ℕ} {order : List ℕ} {head : ℕ} {full : Bool} {n : ℕ}
    {by_id : List (ℕ × NormalizedEvent)} (r : IsRing m order head full n by_id) where
  -- The slot that is written next holds the oldest entry.
  pub oldest_slot : full ≡ true → get_elem? order head ≡ some (n - m)
  oldest_slot h =
      let le : m ≤ n = ground (arith, r.is_full) in
      let e : n - m + m ≡ n = omega arith in
      let here : (n - m) % m ≡ head =
        sym (add-mod_right (n - m) m) ∙ ap (λ t. t % m) e ∙ sym r.at_head in
      subst (λ i. get_elem? order i ≡ some (n - m)) here
        (r.slot (n - m) (ground (arith, r.positive)))

  pub head_lt : head < length order
  head_lt = omega (arith, r.at_head, r.slots, mod-lt n r.positive)

  pub lookup-make_room :
      (id : ℕ) → is_some (lookup id (make_room m full n by_id)) ≡ (ltb id n && ltb n (id + m))
  lookup-make_room id =
      ground (arith, r.is_full, r.window id, lookup-delete (n - m) id by_id, r.positive)

  insert-slot :
      (id : ℕ) → in_window m (n + 1) id ≡ true → get_elem? (set order head n) (id % m) ≡ some id
  insert-slot id h = elim (Bool-cases (num_eq id n)) [
    | inl new ↦
        let e : id ≡ n = ground arith in
        let at : id % m ≡ head = ap (λ t. t % m) e ∙ sym r.at_head in
        rw (at, e) (get_elem?-set_self order head n head_lt)
    | inr old ↦
        let apart : id % m ≢ n % m = mod_ne m id n (ground arith) (ground arith) in
        get_elem?-set_ne order head (id % m) n (λ e. apart (sym e ∙ r.at_head))
        ∙ r.slot id (ground arith)
  ]

  insert-window :
      (e : NormalizedEvent) (id : ℕ)
      → is_some (lookup id (insert n e (make_room m full n by_id))) ≡ in_window m (n + 1) id
  insert-window e id =
      ground
        (arith, lookup-insert n id e (make_room m full n by_id), lookup-make_room id, r.positive)

  placed-Distinct : (e : NormalizedEvent) → Distinct (insert n e (make_room m full n by_id))
  placed-Distinct e =
      insert-Distinct n e (make_room m full n by_id)
        (ground (arith, r.distinct, delete-Distinct (n - m) by_id r.distinct))

  length-make_room : length (make_room m full n by_id) + 1 ≡ min (n + 1) m
  length-make_room = elim (Option-cases (lookup (n - m) by_id)) [
    | inl absent ↦ ground (arith, r.window (n - m), r.is_full, r.size, r.positive)
    | inr (e, present) ↦ ground (
      arith,
      r.window (n - m),
      r.is_full,
      r.size,
      r.positive,
      length-delete (n - m) e by_id r.distinct present,
    )
  ]

  insert-size :
      (e : NormalizedEvent) → length (insert n e (make_room m full n by_id)) ≡ min (n + 1) m
  insert-size e =
      length-insert_new n e (make_room m full n by_id) (ground (arith, lookup-make_room n))
      ∙ length-make_room

  next_full : (if num_eq ((head + 1) % m) 0 then true else full) ≡ leb m (n + 1)
  next_full = elim (Bool-cases full) [
    | inl was ↦ rw was (ground (arith, r.is_full))
    | inr not_yet ↦
        let below : n < m = ground (arith, r.is_full) in
        let e : (head + 1) % m ≡ (n + 1) % m =
          ap (λ t. (t + 1) % m) r.at_head ∙ next_head m n r.positive in
        rw (e, not_yet) (ground (arith, head_zero m n r.positive below))
  ]

  pub insert-IsRing :
      (e : NormalizedEvent)
      → IsRing m
          (set order head n)
          ((head + 1) % m)
          (if num_eq ((head + 1) % m) 0 then true else full)
          (n + 1)
          (insert n e (make_room m full n by_id))
  insert-IsRing e = record {
    positive = r.positive;
    slots = length-set order head n ∙ r.slots;
    at_head = ap (λ t. (t + 1) % m) r.at_head ∙ next_head m n r.positive;
    is_full = next_full;
    slot = insert-slot;
    window = insert-window e;
    distinct = placed-Distinct e;
    size = insert-size e;
  }

-- An update in place changes nothing of this.
pub update-IsRing :
    {m : ℕ} {order : List ℕ} {head : ℕ} {full : Bool} {n : ℕ} {by_id : List (ℕ × NormalizedEvent)}
    (id : ℕ) (old new : NormalizedEvent)
    → lookup id by_id ≡ some old
    → IsRing m order head full n by_id
    → IsRing m order head full n (insert id new by_id)
update-IsRing {by_id} id old new found r = record {
  positive = r.positive;
  slots = r.slots;
  at_head = r.at_head;
  is_full = r.is_full;
  slot = r.slot;
  window = λ j. ground (arith, lookup-insert id j new by_id, r.window j);
  distinct = insert-Distinct id new by_id r.distinct;
  size = length-insert_old id new old by_id found ∙ r.size;
}

-- An empty ring.
pub empty-IsRing : (m : ℕ) → 0 < m → IsRing m (replicate m 0) 0 false 0 []
unfolding lookup
empty-IsRing m h = record {
  positive = h;
  slots = length-replicate m 0;
  at_head = sym (zero-mod m);
  is_full = ground arith;
  slot = λ id k. absurd (ground arith);
  window = λ id. ground arith;
  distinct = tt;
  size = omega arith;
}

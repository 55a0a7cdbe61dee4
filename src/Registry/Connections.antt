-- ===== src/Registry/Connections.antt =====
-- The connections of internal/app/coordinator/registry.go: which are open, which are closed, and
-- under which name.
use Prim.Native.Nat.{ℕ, ◌+◌, ◌<◌}
use Prim.Native.String.{String}
use mathlib.Core.Bool.{Bool, true, false, ◌||◌}
use mathlib.Core.List.{List, [], ◌∷◌}
use mathlib.Core.Option.{none, some}
use mathlib.Core.Logic.{inl, inr, ◌⊎◌}
use mathlib.Core.Path.{◌≡◌, refl, sym, ap, subst, ◌∙◌}
use mcp_k8s.Base.{
  ◌==◌, num_keys, text_keys, arith, Bool-cases, All, lookup, insert, delete, lookup-insert,
  lookup-delete, eq_of_test, test_self,
}
use mcp_k8s.Registry.{ClientConn, Registry}

-- Whether `Close` was called on the connection with this number.
abbrev pub is_closed : ℕ → List ClientConn → Bool
is_closed k [] = false
is_closed k (c ∷ cs) = k == c.number || is_closed k cs

abbrev pub AreDistinct : List ClientConn → Type 0
AreDistinct [] = Unit
AreDistinct (c ∷ cs) = (is_closed c.number cs ≡ false) × AreDistinct cs

-- The connections are numbered below `n`; none is open under two names, none that is open is closed,
-- and none is closed twice.
pub record AreOwned (n : ℕ) (r : Registry) : Type 0 where
  pub below : (k : String) (c : ClientConn) → lookup k r.conns ≡ some c → c.number < n
  pub closed_below : All (λ c. c.number < n) r.closed
  pub live :
      (k : String) (c : ClientConn)
      → lookup k r.conns ≡ some c
      → is_closed c.number r.closed ≡ false
  pub alone :
      (j k : String) (c d : ClientConn)
      → lookup j r.conns ≡ some c
      → lookup k r.conns ≡ some d
      → c.number ≡ d.number
      → j ≡ k
  pub once : AreDistinct r.closed

pub same-AreOwned :
    (n : ℕ) (r t : Registry) → t.conns ≡ r.conns → t.closed ≡ r.closed → AreOwned n r → AreOwned n t
same-AreOwned n r t conns closed h = record {
  below = λ k c found. h.below k c (subst (λ m. lookup k m ≡ some c) conns found);
  closed_below = subst (All (λ c. c.number < n)) (sym closed) h.closed_below;
  live = λ k c found.
      subst (λ cs. is_closed c.number cs ≡ false) (sym closed)
        (h.live k c (subst (λ m. lookup k m ≡ some c) conns found));
  alone = λ j k c d one two.
      h.alone j k c d (subst (λ m. lookup j m ≡ some c) conns one)
        (subst (λ m. lookup k m ≡ some d) conns two);
  once = subst AreDistinct (sym closed) h.once;
}

numbered_later :
    (n : ℕ) (cs : List ClientConn) → All (λ c. c.number < n) cs → All (λ c. c.number < n + 1) cs
numbered_later n [] h = tt
numbered_later n (c ∷ cs) (here, rest) = (omega (arith, here), numbered_later n cs rest)

pub later-AreOwned : (n : ℕ) (r : Registry) → AreOwned n r → AreOwned (n + 1) r
later-AreOwned n r h = record {
  below = λ k c found. omega (arith, h.below k c found);
  closed_below = numbered_later n r.closed h.closed_below;
  live = h.live;
  alone = h.alone;
  once = h.once;
}

not_closed : (n : ℕ) (cs : List ClientConn) → All (λ c. c.number < n) cs → is_closed n cs ≡ false
not_closed n [] h = refl
not_closed n (c ∷ cs) (here, rest) = ground (arith, not_closed n cs rest)

-- What is found behind a delete stands under another name.
found_behind :
    (name k : String) (m : List (String × ClientConn)) (c : ClientConn)
    → lookup k (delete name m) ≡ some c
    → ((name == k) ≡ false) × (lookup k m ≡ some c)
found_behind name k m c found = elim (Bool-cases (name == k)) [
  | inl here ↦ let no : none ≡ some c = rw (lookup-delete name k m, here) at found in absurd cc
  | inr there ↦ (there, rw (lookup-delete name k m, there) at found)
]

-- The close of the connection that is open under a name.
abbrev pub close_conn : String → ClientConn → Registry → Registry
close_conn name conn r = record r { conns = delete name r.conns; closed = conn ∷ r.closed }

pub close_conn-AreOwned :
    (n : ℕ) (name : String) (conn : ClientConn) (r : Registry)
    → lookup name r.conns ≡ some conn
    → AreOwned n r
    → AreOwned n (close_conn name conn r)
close_conn-AreOwned n name conn r open_conn h = record {
  below = λ k c found. h.below k c (found_behind name k r.conns c found).1;
  closed_below = (h.below name conn open_conn, h.closed_below);
  live = λ k c found.
      let (other, before) = found_behind name k r.conns c found in
      elim (Bool-cases (c.number == conn.number)) [
        | inl same ↦
            let one : name ≡ k =
              h.alone name k conn c open_conn before (sym (eq_of_test c.number conn.number same)) in
            let no : (name == k) ≡ true = subst (λ j. (name == j) ≡ true) one (test_self name) in
            absurd cc
        | inr differs ↦ rw (differs, is_closed) (h.live k c before)
      ];
  alone = λ j k c d one two.
      h.alone j k c d (found_behind name j r.conns c one).1 (found_behind name k r.conns d two).1;
  once = (h.live name conn open_conn, h.once);
}

-- What is found after an insert is the new connection, or was there under another name.
found_inserted :
    (name k : String) (conn c : ClientConn) (m : List (String × ClientConn))
    → lookup k (insert name conn m) ≡ some c
    → ((name ≡ k) × (conn ≡ c)) ⊎ (lookup k m ≡ some c)
found_inserted name k conn c m found = elim (Bool-cases (name == k)) [
  | inl here ↦
      let same : some conn ≡ some c = rw (lookup-insert name k conn m, here) at found in
      inl (eq_of_test name k here, cc)
  | inr there ↦ inr (rw (lookup-insert name k conn m, there) at found)
]

-- The end of a successful dial.
pub open_conn-AreOwned :
    (n : ℕ) (name : String) (conn : ClientConn) (r : Registry)
    → conn.number ≡ n
    → AreOwned n r
    → AreOwned (n + 1) (record r { conns = insert name conn r.conns })
open_conn-AreOwned n name conn r new h = record {
  below = λ k c found. elim (found_inserted name k conn c r.conns found) [
    | inl (at, same) ↦
        let number : c.number ≡ n = ap (λ c. c.number) (sym same) ∙ new in omega (arith, number)
    | inr before ↦ omega (arith, h.below k c before)
  ];
  closed_below = numbered_later n r.closed h.closed_below;
  live = λ k c found. elim (found_inserted name k conn c r.conns found) [
    | inl (at, same) ↦
        let number : c.number ≡ n = ap (λ c. c.number) (sym same) ∙ new in
        rw number (not_closed n r.closed h.closed_below)
    | inr before ↦ h.live k c before
  ];
  alone = λ j k c d one two same. elim (found_inserted name j conn c r.conns one) [
    | inl (at, first) ↦
        let number : c.number ≡ n = ap (λ c. c.number) (sym first) ∙ new in
        elim (found_inserted name k conn d r.conns two) [
          | inl (also, second) ↦ sym at ∙ also
          | inr before ↦ let low = h.below k d before in absurd (omega (arith, number, same, low))
        ]
    | inr earlier ↦ elim (found_inserted name k conn d r.conns two) [
      | inl (also, second) ↦
          let number : d.number ≡ n = ap (λ c. c.number) (sym second) ∙ new in
          let low = h.below j c earlier in absurd (omega (arith, number, same, low))
      | inr before ↦ h.alone j k c d earlier before same
    ]
  ];
  once = h.once;
}

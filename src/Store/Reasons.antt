-- ===== src/Store/Reasons.antt =====
-- The answers of `Query` of pkg/store/store.go for several reasons together.
use Prim.Native.String.{String}
use mathlib.Core.Bool.{Bool, false, ◌&&◌, ◌||◌}
use mathlib.Core.List.{perm_middle, List, [], ◌∷◌, ◌++◌, Perm}
use mathlib.Core.List.Perm
use mathlib.Core.Logic.{inl, inr}
use mathlib.Core.Path.{◌≡◌, refl, sym, subst}
use mcp_k8s.Base.{
  ◌==◌, text_keys, num_keys, arith, keep, contains, NoRepeat, All, Bool-cases, eq_of_test,
}
use mcp_k8s.Event.{NormalizedEvent, Time}
use mcp_k8s.Store.Query.{Filter}
use mcp_k8s.Store.Answers.{matches}

-- Two tests that no element passes together.
pub keep_split {ℓ} :
    {A : Type ℓ} (p q : A → Bool) (xs : List A)
    → ((a : A) → (p a && q a) ≡ false)
    → Perm (keep p xs ++ keep q xs) (keep (λ a. p a || q a) xs)
keep_split p q [] apart = Perm.nil
keep_split p q (x ∷ xs) apart = elim (Bool-cases (p x)) [
  | inl here ↦
      let other : q x ≡ false = ground (arith, apart x) in
      rw (here, other) (Perm.cons x (keep_split p q xs apart))
  | inr no_p ↦ elim (Bool-cases (q x)) [
    | inl there ↦
        rw (no_p, there)
          (Perm.trans (perm_middle (keep p xs) (keep q xs)) (Perm.cons x (keep_split p q xs apart)))
    | inr neither ↦ rw (no_p, neither) (keep_split p q xs apart)
  ]
]

pub keep_same {ℓ} :
    {A : Type ℓ} (p q : A → Bool) (xs : List A) → ((a : A) → p a ≡ q a) → keep p xs ≡ keep q xs
keep_same p q [] same = refl
keep_same p q (x ∷ xs) same = ground (arith, same x, keep_same p q xs same)

-- The events of a namespace with one reason, or any, behind a time.
abbrev pub reason_filter : String → Time → String → Filter
reason_filter namespace since reason = record {
  namespace = namespace;
  object_uid = "";
  reason = reason;
  since = since;
  limit = 0;
}

-- Whether an event has one of the reasons and is of the namespace behind the time.
abbrev pub is_one_of : String → Time → List String → NormalizedEvent → Bool
is_one_of namespace since reasons e =
    contains e.reason reasons && matches (reason_filter namespace since "") e

matches-reason_filter :
    (namespace : String) (since : Time) (reason : String) (e : NormalizedEvent)
    → (reason == "") ≡ false
    → matches (reason_filter namespace since reason) e
      ≡ (e.reason == reason && matches (reason_filter namespace since "") e)
matches-reason_filter namespace since reason e given = ground arith

pub none_kept : {A : Type 0} (xs : List A) → keep (λ a. false) xs ≡ []
none_kept [] = refl
none_kept (x ∷ xs) = none_kept xs

-- No reason twice, and none is empty.
abbrev pub AreReasons : List String → Type 0
AreReasons reasons = NoRepeat reasons × All (λ reason. (reason == "") ≡ false) reasons

pub one_more :
    (namespace : String) (since : Time) (reason : String) (reasons : List String)
    → (reason == "") ≡ false
    → (e : NormalizedEvent)
    → (matches (reason_filter namespace since reason) e || is_one_of namespace since reasons e)
      ≡ is_one_of namespace since (reason ∷ reasons) e
one_more namespace since reason reasons given e =
    rw (matches-reason_filter namespace since reason e given) (ground arith)

pub other_reason :
    (namespace : String) (since : Time) (reason : String) (reasons : List String)
    → contains reason reasons ≡ false
    → (reason == "") ≡ false
    → (e : NormalizedEvent)
    → (matches (reason_filter namespace since reason) e && is_one_of namespace since reasons e)
      ≡ false
other_reason namespace since reason reasons fresh given e = elim (Bool-cases (e.reason == reason)) [
  | inl same ↦
      let absent : contains e.reason reasons ≡ false =
        subst (λ k. contains k reasons ≡ false) (sym (eq_of_test e.reason reason same)) fresh in
      rw absent (ground arith)
  | inr differs ↦ rw (matches-reason_filter namespace since reason e given, differs) refl
]

-- ===== src/Correlation/Explained.antt =====
-- What `annotateGroup` of pkg/correlation/correlator.go says about the events of a group.
use mathlib.Core.Path.{◌≡◌, refl, sym, subst}
use mathlib.Core.Logic.{inl, inr}
use mathlib.Core.Bool.{Bool, true, false, ◌&&◌, ◌||◌, not}
use mathlib.Core.List.{
  List, [], ◌∷◌, ◌++◌, Mem, eq-or-mem_of_mem-cons, mem-cons_self, mem-cons_of_mem, not-mem-nil,
}
use mathlib.Core.List.Perm
use mathlib.Core.Logic.Or
use mcp_k8s.Base.{
  String, Bool-cases, ◌==◌, text_keys, or_else, lookup, contains, add_key, arith, test_self,
  Ranging, All, insert, lookup-insert, contains-append,
}
use mcp_k8s.Event.{NormalizedEvent}
use mcp_k8s.Correlation.{
  CorrelatedEvent, CauseIndex, first_seen_of, known_cause, annotate_from, causal_edges, add_effects,
  invert, caused_by_index, annotate_group,
}

-- Whether some reason of one list, other than the empty one, is in another.
abbrev pub overlaps : List String → List String → Bool
overlaps [] seen = false
overlaps (pred ∷ preds) seen = (not (pred == "") && contains pred seen) || overlaps preds seen

abbrev pub causes_of : CauseIndex → String → List String
causes_of idx reason = or_else (lookup reason idx) []

tests_set : IsSet Bool
tests_set = hlevel

first_seen_of-none :
    (preds seen : List String)
    → contains "" preds ≡ false
    → (first_seen_of preds seen == "") ≡ not (overlaps preds seen)
unfolding first_seen_of
first_seen_of-none [] seen h = refl
first_seen_of-none (pred ∷ preds) seen h =
    let named : (pred == "") ≡ false =
      ground (arith, h, text_keys.test_iff pred "", text_keys.test_iff "" pred) in
    let rest : contains "" preds ≡ false = ground (arith, h) in
    elim (Bool-cases (contains pred seen)) [
      | inl here ↦ rw (here, named) refl
      | inr there ↦ rw (there, named) (first_seen_of-none preds seen rest)
    ]

-- No reason of an index has the empty reason among its causes.
abbrev HasNoBlank : CauseIndex → Type 0
HasNoBlank idx = (k : String) → contains "" (causes_of idx k) ≡ false

insert-HasNoBlank :
    (idx : CauseIndex) (effect : String) (causes : List String)
    → contains "" causes ≡ false
    → HasNoBlank idx
    → HasNoBlank (insert effect causes idx)
insert-HasNoBlank idx effect causes new old k = elim (Bool-cases (effect == k)) [
  | inl here ↦ rw (lookup-insert effect k causes idx, here) new
  | inr there ↦ rw (lookup-insert effect k causes idx, there) (old k)
]

add_effects-HasNoBlank :
    (idx : CauseIndex) (cause : String) (effects : List String)
    → ("" == cause) ≡ false
    → HasNoBlank idx
    → HasNoBlank (add_effects idx cause effects)
unfolding add_effects
add_effects-HasNoBlank idx cause [] named h = h
add_effects-HasNoBlank idx cause (effect ∷ effects) named h =
    add_effects-HasNoBlank (insert effect (causes_of idx effect ++ cause ∷ []) idx) cause effects
      named
      (insert-HasNoBlank idx effect (causes_of idx effect ++ cause ∷ [])
        (rw (contains-append "" (causes_of idx effect) (cause ∷ []), h effect, named) refl) h)

-- Every edge has a cause.
abbrev IsCaused : List (String × List String) → Type 0
IsCaused edges =
    (cause : String) (effects : List String) → Mem (cause, effects) edges → ("" == cause) ≡ false

invert-HasNoBlank :
    (idx : CauseIndex) (edges : List (String × List String))
    → IsCaused edges
    → HasNoBlank idx
    → HasNoBlank (invert idx edges)
unfolding invert
invert-HasNoBlank idx [] named h = h
invert-HasNoBlank idx ((cause, effects) ∷ edges) named h =
    invert-HasNoBlank (add_effects idx cause effects) edges
      (λ c es m. named c es (mem-cons_of_mem (cause, effects) m))
      (add_effects-HasNoBlank idx cause effects (named cause effects mem-cons_self) h)

edge_named :
    (edges : List (String × List String))
    → All (λ edge. ("" == edge.0) ≡ false) edges
    → IsCaused edges
edge_named [] all c es m = absurd (not-mem-nil m)
edge_named (edge ∷ edges) all c es m =
    Or.elim (tests_set _ _) (eq-or-mem_of_mem-cons m)
      (λ same. subst (λ (edge : String × List String). ("" == edge.0) ≡ false) (sym same) all.0)
      (λ later. edge_named edges all.1 c es later)

causal_edges_named : All (λ (edge : String × List String). ("" == edge.0) ≡ false) causal_edges
unfolding causal_edges
causal_edges_named = (
  refl,
  (
    refl,
    (
      refl,
      (
        refl,
        (
          refl,
          (
            refl,
            (refl, (refl, (refl, (refl, (refl, (refl, (refl, (refl, (refl, (refl, tt)))))))))),
          ),
        ),
      ),
    ),
  ),
)

caused_by_index-HasNoBlank : (r : Ranging (String × List String)) → HasNoBlank (caused_by_index r)
unfolding caused_by_index lookup
caused_by_index-HasNoBlank r =
    invert-HasNoBlank [] (r.order causal_edges)
      (λ c es m.
        edge_named causal_edges causal_edges_named c es
          ((Perm.mem_iff (r.order-perm causal_edges)).0 m))
      (λ k. refl)

-- Whether a reason is none, or one of the first list that is also in the second.
abbrev pub is_shared : String → List String → List String → Bool
is_shared x preds seen = x == "" || (contains x preds && contains x seen)

widened :
    (x pred : String) (preds seen : List String)
    → is_shared x preds seen ≡ true
    → is_shared x (pred ∷ preds) seen ≡ true
widened x pred preds seen h = ground arith

first_seen_of-is_shared :
    (preds seen : List String) → is_shared (first_seen_of preds seen) preds seen ≡ true
unfolding first_seen_of
first_seen_of-is_shared [] seen = refl
first_seen_of-is_shared (pred ∷ preds) seen = elim (Bool-cases (contains pred seen)) [
  | inl here ↦ rw here (ground (arith, here, test_self pred))
  | inr there ↦
      let same : first_seen_of (pred ∷ preds) seen ≡ first_seen_of preds seen = rw there refl in
      subst (λ x. is_shared x (pred ∷ preds) seen ≡ true) (sym same)
        (widened (first_seen_of preds seen) pred preds seen (first_seen_of-is_shared preds seen))
]

-- An event is a root cause if no known cause of its reason was seen before; otherwise its cause is
-- a known one that was seen before. `seen` grows by the reason of each event.
abbrev pub AreExplained : CauseIndex → List String → List CorrelatedEvent → Type 0
AreExplained idx seen [] = Unit
AreExplained idx seen (ce ∷ ces) =
    (ce.is_root_cause ≡ not (overlaps (causes_of idx ce.event.reason) seen))
    × (ce.is_root_cause ≡ (ce.caused_by == ""))
    × (is_shared ce.caused_by (causes_of idx ce.event.reason) seen ≡ true)
    × AreExplained idx (add_key ce.event.reason seen) ces

annotate_from-AreExplained :
    (idx : CauseIndex) (gid : String) (evs : List NormalizedEvent) (seen : List String)
    → HasNoBlank idx
    → AreExplained idx seen (annotate_from idx gid seen evs)
unfolding annotate_from known_cause
annotate_from-AreExplained idx gid [] seen h = tt
annotate_from-AreExplained idx gid (e ∷ evs) seen h = (
  first_seen_of-none (causes_of idx e.reason) seen (h e.reason),
  refl,
  first_seen_of-is_shared (causes_of idx e.reason) seen,
  annotate_from-AreExplained idx gid evs (add_key e.reason seen) h,
)

-- With the index of the causal edges, whatever order its construction visits them in: in an
-- annotated group an event is a root cause exactly if none of the known causes of its reason is the
-- reason of an event before it; it has a cause exactly if it is no root cause, and the cause is then
-- a known one and the reason of an event before it.
pub annotate_group-AreExplained :
    (r : Ranging (String × List String)) (gid : String) (evs : List NormalizedEvent)
    → AreExplained (caused_by_index r) [] (annotate_group (caused_by_index r) gid evs)
unfolding annotate_group
annotate_group-AreExplained r gid evs =
    annotate_from-AreExplained (caused_by_index r) gid evs [] (caused_by_index-HasNoBlank r)

-- ===== src/Planner/Steps.antt =====
-- Which queries have a plan, and what its steps ask.
use mcp_k8s.Planner.{namespace_overview_steps, explain_object_issue_steps, heuristic}
use mcp_k8s.Base.{
  String, ◌≡◌, refl, subst, ◌∙◌, ◌≢◌, inl, inr, Bool, true, not, ◌&&◌, ◌||◌, List, [], ◌∷◌, arith,
  Bool-cases, ◌==◌, num_keys, text_keys, All,
}
use mcp_k8s.Base.Result.{Result, ok, err, ◌>>=◌, is_ok}
use mcp_k8s.Planner.{
  Intent, unknown, namespace_overview, explain_object_issue, explain_restarts, build_timeline,
  Query, Method, list_events, get_events_for_object, get_namespace_summary, resolve_owner_chain,
  get_object_snapshot, Step, Plan, restart_steps, restart_reasons, steps_for, plan,
}

-- Whether the query names an object, and what each intent requires.
abbrev pub names_object : Query → Bool
names_object q = not (q.object_kind == "") && not (q.object_name == "")

abbrev pub is_served : Query → Intent → Bool
is_served q explain_object_issue = names_object q
is_served q unknown = names_object q || not (q.namespace == "")
is_served q _ = true

steps_for-is_ok : (q : Query) (i : Intent) → is_ok (steps_for q i) ≡ is_served q i
unfolding steps_for
steps_for-is_ok q unknown = ground arith
steps_for-is_ok q namespace_overview = refl
steps_for-is_ok q explain_object_issue = ground arith
steps_for-is_ok q explain_restarts = refl
steps_for-is_ok q build_timeline = refl

bind-is_ok {ℓ κ} :
    {A : Type ℓ} {B : Type κ} (m : Result A) (f : A → B) → is_ok (m >>= λ a. ok (f a)) ≡ is_ok m
bind-is_ok (ok a) f = refl
bind-is_ok (err e) f = refl

-- `Plan` succeeds exactly on the queries that name a cluster and what their intent requires: an
-- object for `explain_object_issue`, an object or a namespace for an unknown intent, nothing for
-- the others.
pub plan-is_ok : (q : Query) → is_ok (plan q) ≡ (not (q.cluster_name == "") && is_served q q.intent)
unfolding plan
plan-is_ok q = elim (Bool-cases (q.cluster_name == "")) [
  | inl unnamed ↦ rw unnamed
  | inr named ↦ rw named (bind-is_ok (steps_for q q.intent) _ ∙ steps_for-is_ok q q.intent)
]

-- What a step of a plan may be: a read of events or of the summary with the query's time bound,
-- or a call about the query's object, always in the query's namespace.
abbrev pub Asks : Query → Step → Method → Type 0
Asks q s list_events = s.since ≡ q.since
Asks q s get_namespace_summary = s.since ≡ q.since
Asks q s get_events_for_object = (s.kind ≡ q.object_kind) × (s.name ≡ q.object_name)
Asks q s resolve_owner_chain = (s.kind ≡ q.object_kind) × (s.name ≡ q.object_name)
Asks q s get_object_snapshot = (s.kind ≡ q.object_kind) × (s.name ≡ q.object_name)
Asks q s _ = ⊥

abbrev pub IsStepOf : Query → Step → Type 0
IsStepOf q s = (s.namespace ≡ q.namespace) × Asks q s s.method

-- The steps are of the query, and there is one.
abbrev pub AreStepsOf : Query → List Step → Type 0
AreStepsOf q steps = All (IsStepOf q) steps × (steps ≢ [])

abbrev Ensures {ℓ κ} : {A : Type ℓ} → (A → Type κ) → Result A → Type κ
Ensures P (ok a) = P a
Ensures P (err e) = Unit

restart_steps-IsStepOf :
    (q : Query) (reasons : List String) → All (IsStepOf q) (restart_steps q reasons)
unfolding restart_steps
restart_steps-IsStepOf q [] = tt
restart_steps-IsStepOf q (r ∷ reasons) = ((refl, refl), restart_steps-IsStepOf q reasons)

namespace_overview-AreStepsOf : (q : Query) → AreStepsOf q (namespace_overview_steps q)
unfolding namespace_overview_steps
namespace_overview-AreStepsOf q = (((refl, refl), ((refl, refl), tt)), λ e. cc)

explain_object_issue-AreStepsOf :
    (q : Query) → Ensures (AreStepsOf q) (explain_object_issue_steps q)
unfolding explain_object_issue_steps
explain_object_issue-AreStepsOf q = elim (Bool-cases (q.object_kind == "" || q.object_name == "")) [
  | inl unnamed ↦ rw unnamed tt
  | inr named ↦
      rw named (((refl, (refl, refl)), ((refl, (refl, refl)), ((refl, (refl, refl)), tt))), λ e. cc)
]

heuristic-AreStepsOf : (q : Query) → Ensures (AreStepsOf q) (heuristic q)
unfolding heuristic
heuristic-AreStepsOf q = elim (Bool-cases (names_object q)) [
  | inl object ↦ rw object (explain_object_issue-AreStepsOf q)
  | inr no_object ↦ elim (Bool-cases (q.namespace == "")) [
    | inl none_given ↦ rw (no_object, none_given) tt
    | inr given ↦ rw (no_object, given) (namespace_overview-AreStepsOf q)
  ]
]

steps_for-AreStepsOf : (q : Query) (i : Intent) → Ensures (AreStepsOf q) (steps_for q i)
unfolding steps_for
steps_for-AreStepsOf q unknown = heuristic-AreStepsOf q
steps_for-AreStepsOf q namespace_overview = namespace_overview-AreStepsOf q
steps_for-AreStepsOf q explain_object_issue = explain_object_issue-AreStepsOf q
steps_for-AreStepsOf q explain_restarts =
    (((refl, refl), restart_steps-IsStepOf q restart_reasons), λ e. cc)
steps_for-AreStepsOf q build_timeline = (((refl, refl), tt), λ e. cc)

-- A plan that `Plan` returns is for the query's cluster and has a step; each of its steps is in
-- the query's namespace, and reads events or the summary with the query's time bound, or Asks for
-- the events, the owners or the snapshot of the query's object.
pub plan-steps :
    (q : Query) (p : Plan)
    → plan q ≡ ok p
    → (p.cluster_name ≡ q.cluster_name) × All (IsStepOf q) p.steps × (p.steps ≢ [])
unfolding plan
plan-steps q p h = go (steps_for q q.intent) refl
  where
    go :
        (r : Result (List Step))
        → steps_for q q.intent ≡ r
        → (p.cluster_name ≡ q.cluster_name) × All (IsStepOf q) p.steps × (p.steps ≢ [])
    go (err e) same = absurd (ground (arith, same))
    go (ok steps) same =
        let (all, some_step) =
          subst (Ensures (AreStepsOf q)) same (steps_for-AreStepsOf q q.intent) in
        let here : record { cluster_name = q.cluster_name; steps = steps } ≡ p =
          ground (arith, same) in
        subst
          (λ (r : Plan).
            (r.cluster_name ≡ q.cluster_name) × All (IsStepOf q) r.steps × (r.steps ≢ []))
          here (refl, all, some_step)

-- ===== src/Executor/Planned.antt =====
-- What the calls that pkg/planner plans can bring back through the executor of internal/app/coordinator.
use Prim.Native.String.{String}
use mathlib.Core.List.{List, [], ◌∷◌, ◌++◌}
use mathlib.Core.Option.{Option, none, some}
use mathlib.Core.Path.{◌≡◌, refl, ◌∙◌, subst}
use mcp_k8s.Base.{text_keys, All}
use mcp_k8s.Base.Result.{Result, ok, err, ◌>>=◌}
use mcp_k8s.Planner.{
  Query, Plan, plan, Method, Step, list_events, get_events_for_object, get_namespace_summary,
  resolve_owner_chain, get_object_snapshot, get_container_logs, get_pod_metrics, other,
}
use mcp_k8s.Planner.Steps.{IsStepOf, Asks, plan-steps}
use mcp_k8s.Proto.{Timestamps}
use mcp_k8s.Messages.{AgentClient, PbObjectSnapshot}
use mcp_k8s.Executor.{
  ExecutionResult, object_request, empty_result, collect, run_method, run_step, run_steps, execute,
}

module _ (T : Timestamps) (client : AgentClient T) where
  -- Two results with the same logs and metrics.
  abbrev pub SamePods : ExecutionResult T → ExecutionResult T → Type 0
  SamePods a b = (a.container_logs ≡ b.container_logs) × (a.pod_metrics ≡ b.pod_metrics)

  collect-SamePods {ℓ} :
      {A : Type ℓ} (s : Step) (r : ExecutionResult T) (answer : Result A)
      (f : A → ExecutionResult T)
      → ((a : A) → SamePods (f a) r)
      → SamePods (collect T s r (answer >>= λ a. ok (f a))) r
  collect-SamePods s r (ok a) f same = same a
  collect-SamePods s r (err why) f same = (refl, refl)

  -- What a snapshot step makes of an answer.
  abbrev with_snapshot : ExecutionResult T → Option PbObjectSnapshot → ExecutionResult T
  with_snapshot r snapshot = elim snapshot [
    | none ↦ r
    | some snap ↦ record r { snapshots = r.snapshots ++ snap ∷ [] }
  ]

  with_snapshot-SamePods :
      (r : ExecutionResult T) (snapshot : Option PbObjectSnapshot)
      → SamePods (with_snapshot r snapshot) r
  with_snapshot-SamePods r none = (refl, refl)
  with_snapshot-SamePods r (some snap) = (refl, refl)

  run_method-SamePods :
      (q : Query) (m : Method) (s : Step) (r : ExecutionResult T)
      → Asks q s m
      → SamePods (collect T s r (run_method T client m s r)) r
  unfolding run_method
  run_method-SamePods q list_events s r asks = collect-SamePods s r _ _ λ a. (refl, refl)
  run_method-SamePods q get_events_for_object s r asks = collect-SamePods s r _ _ λ a. (refl, refl)
  run_method-SamePods q get_namespace_summary s r asks = collect-SamePods s r _ _ λ a. (refl, refl)
  run_method-SamePods q resolve_owner_chain s r asks = collect-SamePods s r _ _ λ a. (refl, refl)
  run_method-SamePods q get_object_snapshot s r asks =
      collect-SamePods s r (client.get_object_snapshot (object_request s)) (with_snapshot r)
        (with_snapshot-SamePods r)
  run_method-SamePods q get_container_logs s r asks = absurd asks
  run_method-SamePods q get_pod_metrics s r asks = absurd asks
  run_method-SamePods q (other name) s r asks = absurd asks

  run_steps-SamePods :
      (q : Query) (steps : List Step) (r : ExecutionResult T)
      → All (IsStepOf q) steps
      → SamePods (run_steps T client steps r) r
  unfolding run_steps run_step
  run_steps-SamePods q [] r h = (refl, refl)
  run_steps-SamePods q (s ∷ steps) r ((place, asks), rest) =
      let here = run_method-SamePods q s.method s r asks in
      let (logs, metrics) =
        run_steps-SamePods q steps (collect T s r (run_step T client s r)) rest in
      (logs ∙ here.0, metrics ∙ here.1)

module _ (T : Timestamps) (quote : String → String) where
  -- Whatever the agents answer, the result of a plan that `Plan` returns holds no container logs and
  -- no pod metrics.
  pub execute-plan :
      (q : Query) (p : Plan) (found : Result (AgentClient T)) (result : ExecutionResult T)
      → plan q ≡ ok p
      → execute T quote found p ≡ ok result
      → (result.container_logs ≡ []) × (result.pod_metrics ≡ [])
  unfolding execute
  execute-plan q p (err why) result planned executed = absurd cc
  execute-plan q p (ok client) result planned executed =
      let (cluster, steps, some_step) = plan-steps q p planned in
      let same : run_steps T client p.steps (empty_result T) ≡ result = cc in
      subst (λ r. SamePods T client r (empty_result T)) same
        (run_steps-SamePods T client q p.steps (empty_result T) steps)

-- ===== src/Executor/Partial.antt =====
-- What `Execute` of internal/app/coordinator/executor.go collects when some of its steps fail.
use mcp_k8s.Base.{
  String, ◌≡◌, sym, ap, ◌∙◌, Option, none, some, List, [], ◌∷◌, ◌++◌, num_keys, text_keys,
}
use Prim.Native.String.{◌++◌ as text_append}
use mathlib.Core.List.{append_assoc, append-nil}
use mcp_k8s.Base.Result.{Result, ok, err, ◌>>=◌}
use mcp_k8s.Planner.{
  Method, list_events, get_events_for_object, get_namespace_summary, resolve_owner_chain,
  get_object_snapshot, get_container_logs, get_pod_metrics, other, Step,
}
use mcp_k8s.Proto.{Timestamps, from_proto_events}
use mcp_k8s.Messages.{AgentClient, PbObjectSnapshot}
use mcp_k8s.Executor.{
  ExecutionResult, empty_result, step_failure, run_method, run_step, collect, run_steps,
}

module _ (T : Timestamps) where
  -- Two results, field by field one after the other.
  abbrev pub joined : ExecutionResult T → ExecutionResult T → ExecutionResult T
  joined a b = record {
    events = a.events ++ b.events;
    snapshots = a.snapshots ++ b.snapshots;
    chains = a.chains ++ b.chains;
    namespace_summaries = a.namespace_summaries ++ b.namespace_summaries;
    container_logs = a.container_logs ++ b.container_logs;
    pod_metrics = a.pod_metrics ++ b.pod_metrics;
    step_errors = a.step_errors ++ b.step_errors;
  }

  -- What one step contributes, when it is the only step.
  abbrev pub alone : AgentClient T → Step → ExecutionResult T
  alone client s = collect T s (empty_result T) (run_step T client s (empty_result T))

  abbrev pub joined_all : AgentClient T → List Step → ExecutionResult T
  joined_all client [] = empty_result T
  joined_all client (s ∷ steps) = joined (alone client s) (joined_all client steps)

  joined-empty : (r : ExecutionResult T) → joined r (empty_result T) ≡ r
  joined-empty r = λ i. record {
    events = append-nil r.events i;
    snapshots = append-nil r.snapshots i;
    chains = append-nil r.chains i;
    namespace_summaries = append-nil r.namespace_summaries i;
    container_logs = append-nil r.container_logs i;
    pod_metrics = append-nil r.pod_metrics i;
    step_errors = append-nil r.step_errors i;
  }

  joined_assoc : (a b c : ExecutionResult T) → joined (joined a b) c ≡ joined a (joined b c)
  joined_assoc a b c = λ i. record {
    events = append_assoc a.events b.events c.events i;
    snapshots = append_assoc a.snapshots b.snapshots c.snapshots i;
    chains = append_assoc a.chains b.chains c.chains i;
    namespace_summaries =
        append_assoc a.namespace_summaries b.namespace_summaries c.namespace_summaries i;
    container_logs = append_assoc a.container_logs b.container_logs c.container_logs i;
    pod_metrics = append_assoc a.pod_metrics b.pod_metrics c.pod_metrics i;
    step_errors = append_assoc a.step_errors b.step_errors c.step_errors i;
  }

  -- A result that grows by what was added to it.
  abbrev Grows :
      Step → ExecutionResult T → Result (ExecutionResult T) → Result (ExecutionResult T) → Type 0
  Grows s r after first = collect T s r after ≡ joined r (collect T s (empty_result T) first)

  module _ (s : Step) (r : ExecutionResult T) where
    err-Grows : (why : String) → Grows s r (err why) (err why)
    err-Grows why =
        ap
          (λ (b : ExecutionResult T). record b {
            step_errors = r.step_errors ++ step_failure T s why ∷ [];
          })
          (sym (joined-empty r))

    bind-Grows :
        {X : Type 0} (m : Result X) (f g : X → ExecutionResult T)
        → ((x : X) → f x ≡ joined r (g x))
        → Grows s r (m >>= λ x. ok (f x)) (m >>= λ x. ok (g x))
    bind-Grows (ok x) f g h = h x
    bind-Grows (err why) f g h = err-Grows why

    -- A result with a new value in some field.
    changed : (f : ExecutionResult T → ExecutionResult T) → f r ≡ f (joined r (empty_result T))
    changed f = ap f (sym (joined-empty r))

    snapshot-joined :
        (o : Option PbObjectSnapshot)
        → elim o [ none ↦ r | some snap ↦ record r { snapshots = r.snapshots ++ snap ∷ [] } ]
          ≡ joined r (elim o [
            | none ↦ empty_result T
            | some snap ↦ record (empty_result T) { snapshots = [] ++ snap ∷ [] }
          ])
    snapshot-joined none = sym (joined-empty r)
    snapshot-joined (some snap) = changed λ b. record b { snapshots = r.snapshots ++ snap ∷ [] }

    run_method-Grows :
        (client : AgentClient T) (m : Method)
        → Grows s r (run_method T client m s r) (run_method T client m s (empty_result T))
    unfolding run_method
    run_method-Grows client list_events =
        bind-Grows _ _ _ λ x. changed λ b. record b { events = r.events ++ from_proto_events T x }
    run_method-Grows client get_events_for_object =
        bind-Grows _ _ _ λ x. changed λ b. record b { events = r.events ++ from_proto_events T x }
    run_method-Grows client get_namespace_summary =
        bind-Grows _ _ _
          λ x. changed λ b. record b { namespace_summaries = r.namespace_summaries ++ x }
    run_method-Grows client resolve_owner_chain =
        bind-Grows _ _ _ λ x. changed λ b. record b { chains = r.chains ++ x ∷ [] }
    run_method-Grows client get_object_snapshot = bind-Grows _ _ _ λ x. snapshot-joined x
    run_method-Grows client get_container_logs = bind-Grows _ _ _ λ x. changed λ b. record b {
      container_logs =
          r.container_logs ++ record { pod = x.pod; container = x.container; logs = x.logs } ∷ [];
    }
    run_method-Grows client get_pod_metrics =
        bind-Grows _ _ _ λ x. changed λ b. record b { pod_metrics = r.pod_metrics ++ x }
    run_method-Grows client (other name) = err-Grows (text_append "unknown method: " name)

  -- Running a list of steps adds to the result, in the order of the steps, what each step
  -- contributes when it is run alone: a failed step adds its error and nothing else, and no step
  -- depends on the outcome of another.
  pub run_steps-joined_all :
      (client : AgentClient T) (steps : List Step) (r : ExecutionResult T)
      → run_steps T client steps r ≡ joined r (joined_all client steps)
  unfolding run_steps run_step
  run_steps-joined_all client [] r = sym (joined-empty r)
  run_steps-joined_all client (s ∷ steps) r =
      run_steps-joined_all client steps (collect T s r (run_step T client s r))
      ∙ ap (λ a. joined a (joined_all client steps)) (run_method-Grows s r client s.method)
      ∙ joined_assoc r (alone client s) (joined_all client steps)

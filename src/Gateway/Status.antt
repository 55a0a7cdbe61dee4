-- ===== src/Gateway/Status.antt =====
-- The status codes of the handlers of internal/app/coordinator/gateway.go.
use mcp_k8s.Base.{
  ℕ, String, ◌≡◌, refl, sym, ap, ◌∙◌, inl, inr, true, false, not, ◌&&◌, ◌||◌, List, if◌then◌else◌,
  num_eq, Bool-cases, ◌==◌, num_keys, text_keys,
}
use mcp_k8s.Base.Result.{Result, ok, err, is_ok}
use mcp_k8s.Event.{NormalizedEvent, Time}
use mcp_k8s.Planner.{Query, Plan, plan}
use mcp_k8s.Planner.Steps.{is_served, plan-is_ok, plan-steps}
use mcp_k8s.Correlation.{Timeline}
use mcp_k8s.Proto.{Timestamps}
use mcp_k8s.Messages.{AgentClient}
use mcp_k8s.Executor.{ExecutionResult, execute}
use mcp_k8s.Response.{ResponseMode, Response}
use Prim.Native.String.{◌++◌ as text_append}
use mcp_k8s.Base.{Option, none, some}
use mcp_k8s.Gateway.{
  AskRequest, Model, ask_query, handle_ask, narrated, QueryRequest, Reply, write_error, is_nil,
  response_body, parse_mode, to_query, answer_status, answer, handle_query,
}

-- What a status tells the caller.
pub data Outcome : Type 0 where
  answered refused unreachable unavailable unexpected : Outcome

abbrev pub outcome_of : ℕ → Outcome
outcome_of status =
    if num_eq status 200 || num_eq status 207
    then answered
    else if num_eq status 400
    then refused
    else if num_eq status 502
    then unreachable
    else if num_eq status 503
    then unavailable
    else unexpected

answer_status-outcome :
    {T : Timestamps} (result : ExecutionResult T) → outcome_of (answer_status result) ≡ answered
unfolding answer_status
answer_status-outcome result =
    elim (Bool-cases
      (not (is_nil result.step_errors) && is_nil result.events && is_nil result.snapshots)) [
        | inl partial ↦ rw partial refl
        | inr full ↦ rw full refl
      ]

module _ (T : Timestamps) (quote : String → String) (clients : String → Result (AgentClient T))
    (timeline_of : List NormalizedEvent → Timeline)
    (build_with : String → ResponseMode → Timeline → ExecutionResult T → Response) where
  -- The outcome for a query: it has a plan, and its cluster has a client.
  abbrev pub expected : Query → Outcome
  expected q =
      if not (q.cluster_name == "") && is_served q q.intent
      then (if is_ok (clients q.cluster_name) then answered else unreachable)
      else refused

  executed :
      (q : Query) (reply : ExecutionResult T → Reply) (p : Plan) (a : Result (AgentClient T))
      → ((result : ExecutionResult T) → outcome_of (reply result).status ≡ answered)
      → outcome_of
          (elim (execute T quote a p) as (λ _. Reply) [
            | err why ↦ write_error 502 (text_append "execution error: " why)
            | ok result ↦ reply result
          ]).status
        ≡ (if is_ok a then answered else unreachable)
  unfolding execute
  executed q reply p (err why) h = refl
  executed q reply p (ok c) h = h _

  outcome-answer :
      (q : Query) (reply : ExecutionResult T → Reply)
      → ((result : ExecutionResult T) → outcome_of (reply result).status ≡ answered)
      → outcome_of (answer T quote clients timeline_of build_with q reply).status ≡ expected q
  unfolding answer execute
  outcome-answer q reply h = go (plan q) refl
    where
      go :
          (r : Result Plan)
          → plan q ≡ r
          → outcome_of (answer T quote clients timeline_of build_with q reply).status ≡ expected q
      go (err why) same =
          let none_planned : (not (q.cluster_name == "") && is_served q q.intent) ≡ false =
            sym (plan-is_ok q) ∙ ap is_ok same in
          rw (same, answer, none_planned) refl
      go (ok p) same =
          let planned : (not (q.cluster_name == "") && is_served q q.intent) ≡ true =
            sym (plan-is_ok q) ∙ ap is_ok same in
          let here : p.cluster_name ≡ q.cluster_name = (plan-steps q p same).0 in
          rw (same, answer, planned, here) (executed q reply p (clients q.cluster_name) h)

  -- `handleQuery` answers with 200 or 207 exactly if the body decodes, the query has a plan and its
  -- cluster has a client; without a client the status is 502, and in the other cases it is 400.
  pub outcome-handle_query :
      (now : Time) (decoded : Result QueryRequest)
      → outcome_of (handle_query T quote clients timeline_of build_with now decoded).status
        ≡ elim decoded [ err why ↦ refused | ok req ↦ expected (to_query now req) ]
  unfolding handle_query to_query
  outcome-handle_query now (err why) = refl
  outcome-handle_query now (ok req) = elim (Bool-cases (req.cluster_name == "")) [
    | inl unnamed ↦ rw unnamed refl
    | inr named ↦
        let step =
          outcome-answer (to_query now req)
            (λ result. record {
              status = answer_status result;
              body = response_body (
                  build_with req.cluster_name (parse_mode req.mode) (timeline_of result.events)
                    result);
            })
            (λ result. answer_status-outcome result) in
        rw named (rw named at step)
  ]

  -- What `handleAsk` may be answered with: no model is unavailable, a bad request is refused, a
  -- model that fails is unreachable like a cluster; and otherwise it goes as for the query.
  abbrev pub expected_ask : Option Model → Time → Result AskRequest → Outcome
  expected_ask none now decoded = unavailable
  expected_ask (some llm) now (err why) = refused
  expected_ask (some llm) now (ok req) =
      if req.cluster_name == "" || req.question == ""
      then refused
      else elim (llm.chat req.question) [
        | err why ↦ unreachable
        | ok raw ↦ expected (ask_query now (llm.parsed raw) req)
      ]

  ask_answer :
      (now : Time) (llm : Model) (req : AskRequest) (chat : Result String)
      → outcome_of
          (elim chat as (λ _. Reply) [
            | err why ↦ write_error 502 (text_append "LLM error: " why)
            | ok raw ↦
                answer T quote clients timeline_of build_with
                  (ask_query now (llm.parsed raw) req)
                  (narrated T quote clients timeline_of build_with llm req)
          ]).status
        ≡ elim chat [
          | err why ↦ unreachable
          | ok raw ↦ expected (ask_query now (llm.parsed raw) req)
        ]
  unfolding narrated
  ask_answer now llm req (err why) = refl
  ask_answer now llm req (ok raw) =
      outcome-answer (ask_query now (llm.parsed raw) req) _ λ result. answer_status-outcome result

  -- `handleAsk` answers with 503 without a model, with 400 if the body does not decode or lacks the
  -- cluster or the question, with 502 if the model fails to reply; in the other cases it is as for
  -- a query made of the reply: 200 or 207 if that has a plan and its cluster a client, 502 without a
  -- client, and 400 without a plan. A failed narration does not matter.
  pub outcome-handle_ask :
      (llm : Option Model) (now : Time) (decoded : Result AskRequest)
      → outcome_of (handle_ask T quote clients timeline_of build_with llm now decoded).status
        ≡ expected_ask llm now decoded
  unfolding handle_ask
  outcome-handle_ask none now decoded = refl
  outcome-handle_ask (some llm) now (err why) = refl
  outcome-handle_ask (some llm) now (ok req) = elim (Bool-cases (req.cluster_name == "")) [
    | inl unnamed ↦ rw unnamed refl
    | inr named ↦ elim (Bool-cases (req.question == "")) [
      | inl no_question ↦ rw (named, no_question) refl
      | inr asked ↦ rw (named, asked) (ask_answer now llm req (llm.chat req.question))
    ]
  ]

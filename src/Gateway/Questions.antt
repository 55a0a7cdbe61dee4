-- ===== src/Gateway/Questions.antt =====
-- POST /ask of internal/app/coordinator/gateway.go beside POST /query.
use Prim.Native.String.{String}
use mathlib.Core.Bool.{false}
use mathlib.Core.List.{List}
use mathlib.Core.Option.{some}
use mathlib.Core.Logic.{inl, inr, ◌⊎◌}
use mathlib.Core.Path.{◌≡◌, refl, sym, ap, ◌∙◌}
use mcp_k8s.Base.{◌==◌, text_keys, if◌then◌else◌}
use mcp_k8s.Base.Result.{Result, ok, err}
use mcp_k8s.Event.{NormalizedEvent, Time}
use mcp_k8s.Planner.{Query, Plan, plan}
use mcp_k8s.Correlation.{Timeline}
use mcp_k8s.Proto.{Timestamps}
use mcp_k8s.Messages.{AgentClient}
use mcp_k8s.Executor.{ExecutionResult, execute}
use mcp_k8s.Response.{ResponseMode, Response}
use mcp_k8s.Gateway.{
  QueryRequest, AskRequest, IntentPayload, Model, Reply, response_body, ask_body, parse_intent,
  parse_mode, to_query, ask_query, payload_query, answer_status, narrative, answer, narrated,
  handle_query, handle_ask,
}

-- The request to POST /query that a question stands for: what the model's reply parses to, with the
-- namespace of the question for a missing one, or an overview of that namespace.
abbrev pub request_of : Result IntentPayload → AskRequest → QueryRequest
request_of (ok p) req = record {
  cluster_name = req.cluster_name;
  namespace = if p.namespace == "" then req.namespace else p.namespace;
  object_kind = p.object_kind;
  object_name = p.object_name;
  reason = p.reason;
  since_minutes = p.since_minutes;
  limit = 0;
  intent = p.intent;
  mode = req.mode;
}
request_of (err why) req = record {
  cluster_name = req.cluster_name;
  namespace = req.namespace;
  object_kind = "";
  object_name = "";
  reason = "";
  since_minutes = 0;
  limit = 0;
  intent = "NamespaceOverview";
  mode = req.mode;
}

to_query-request_of :
    (now : Time) (parsed : Result IntentPayload) (req : AskRequest)
    → to_query now (request_of parsed req) ≡ ask_query now parsed req
unfolding to_query ask_query payload_query parse_intent
to_query-request_of now (ok p) req = refl
to_query-request_of now (err why) req = refl

module _ (T : Timestamps) (quote : String → String) (clients : String → Result (AgentClient T))
    (timeline_of : List NormalizedEvent → Timeline)
    (build_with : String → ResponseMode → Timeline → ExecutionResult T → Response) where
  -- Two replies from the same execution, or the same error.
  abbrev Agree : (ExecutionResult T → Reply) → (ExecutionResult T → Reply) → Reply → Reply → Type 0
  Agree f g a b = (a ≡ b) ⊎ ((result : ExecutionResult T) × (a ≡ f result) × (b ≡ g result))

  answer-Agree :
      (q : Query) (f g : ExecutionResult T → Reply)
      → Agree f g
          (answer T quote clients timeline_of build_with q f)
          (answer T quote clients timeline_of build_with q g)
  unfolding answer
  answer-Agree q f g = planned (plan q) refl
    where
      executed :
          (p : Plan) (e : Result (ExecutionResult T))
          → plan q ≡ ok p
          → execute T quote (clients p.cluster_name) p ≡ e
          → Agree f g
              (answer T quote clients timeline_of build_with q f)
              (answer T quote clients timeline_of build_with q g)
      executed p (err why) made failed = rw (answer, made, failed) (inl refl)
      executed p (ok result) made done = rw (answer, made, done) (inr (result, refl, refl))

      planned :
          (a : Result Plan)
          → plan q ≡ a
          → Agree f g
              (answer T quote clients timeline_of build_with q f)
              (answer T quote clients timeline_of build_with q g)
      planned (err why) refused = rw (answer, refused) (inl refl)
      planned (ok p) made = executed p (execute T quote (clients p.cluster_name) p) made refl

  -- The reply of `handleQuery` to what is behind a question.
  abbrev pub queried_reply : AskRequest → ExecutionResult T → Reply
  queried_reply req result = record {
    status = answer_status result;
    body =
        response_body
          (build_with req.cluster_name (parse_mode req.mode) (timeline_of result.events) result);
  }

  -- The reply of `handleAsk`, with the model's narrative.
  abbrev pub asked_reply : Model → AskRequest → ExecutionResult T → Reply
  asked_reply llm req result =
      let tl = timeline_of result.events in
      let r = build_with req.cluster_name (parse_mode req.mode) tl result in
      record { status = answer_status result; body = ask_body r (narrative llm req tl r) }

  queried :
      (now : Time) (parsed : Result IntentPayload) (req : AskRequest)
      → (req.cluster_name == "") ≡ false
      → handle_query T quote clients timeline_of build_with now (ok (request_of parsed req))
        ≡ answer T quote clients timeline_of build_with
            (ask_query now parsed req)
            (queried_reply req)
  unfolding handle_query
  queried now (ok p) req named = rw named (
      ap (λ q. answer T quote clients timeline_of build_with q (queried_reply req))
        (to_query-request_of now (ok p) req))
  queried now (err why) req named = rw named (
      ap (λ q. answer T quote clients timeline_of build_with q (queried_reply req))
        (to_query-request_of now (err why) req))

  -- If a question names a cluster, and the model replies to it, then POST /ask answers as POST /query
  -- does for the request that the reply stands for: with the same error, or with the same status and
  -- response, and the narrative of the same timeline beside it.
  pub handle_ask-handle_query :
      (llm : Model) (now : Time) (req : AskRequest) (raw : String)
      → (req.cluster_name == "") ≡ false
      → (req.question == "") ≡ false
      → llm.chat req.question ≡ ok raw
      → let asked = handle_ask T quote clients timeline_of build_with (some llm) now (ok req) in
        let queried =
          handle_query T quote clients timeline_of build_with now
            (ok (request_of (llm.parsed raw) req)) in
        (asked ≡ queried)
        ⊎ ((result : ExecutionResult T) × (asked ≡ asked_reply llm req result)
            × (queried ≡ queried_reply req result))
  unfolding handle_ask narrated
  handle_ask-handle_query llm now req raw named given replied =
      let parsed = llm.parsed raw in
      let same = queried now parsed req named in
      elim (answer-Agree (ask_query now parsed req) (asked_reply llm req) (queried_reply req)) [
        | inl error ↦ inl (rw (handle_ask, named, given, replied) (error ∙ sym same))
        | inr (result, asked, told) ↦
            inr (result, rw (handle_ask, named, given, replied) asked, same ∙ told)
      ]

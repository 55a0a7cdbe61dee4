-- ===== src/Gateway.antt =====
-- internal/app/coordinator/gateway.go: the HTTP handlers that answer queries. A decoded request
-- body is an argument, `ok` of the request or the error of the decoder; a reply is the status code
-- and the body.
pub mod Status
pub mod Auth
pub mod Admin
pub mod Fences
pub mod Questions
pub mod Planned
use mcp_k8s.Base.{
  ℕ, ◌+◌, ◌-◌, ◌*◌, ◌%◌, ◌^◌, String, Bool, true, false, not, ◌&&◌, Option, none, some, List, [],
  ◌∷◌, if◌then◌else◌, leb, ◌==◌, num_keys, text_keys, set, is_pos,
}
use Prim.Native.String.{◌++◌ as text_append}
use mcp_k8s.Base.Result.{Result, ok, err}
use mcp_k8s.Event.{NormalizedEvent, Time}
use mcp_k8s.Planner.{
  Intent, unknown, namespace_overview, explain_object_issue, explain_restarts, build_timeline,
  Query, plan,
}
use mcp_k8s.Correlation.{Timeline}
use mcp_k8s.Proto.{Timestamps}
use mcp_k8s.Messages.{AgentClient}
use mcp_k8s.Executor.{ExecutionResult, execute}
use mcp_k8s.Registry.{ClusterEntry}
use mcp_k8s.Response.{ResponseMode, technical, concise, incident_summary, Response}

pub record QueryRequest : Type 0 where
  pub cluster_name : String
  pub namespace : String
  pub object_kind : String
  pub object_name : String
  pub reason : String
  pub since_minutes : ℕ
  pub limit : ℕ
  pub intent : String
  pub mode : String

pub record AskRequest : Type 0 where
  pub cluster_name : String
  pub question : String
  pub namespace : String
  pub mode : String

-- `intentPayload`, what the language model answers.
pub record IntentPayload : Type 0 where
  pub namespace : String
  pub object_kind : String
  pub object_name : String
  pub reason : String
  pub since_minutes : ℕ
  pub intent : String

pub data Body : Type 0 where
  error_body : String → Body
  response_body : Response → Body
  ask_body : Response → String → Body
  status_body : String → Body
  entries_body : List ClusterEntry → Body

pub record Reply : Type 0 where
  pub status : ℕ
  pub body : Body

abbrev pub write_error : ℕ → String → Reply
write_error code msg = record { status = code; body = error_body msg }

-- `parseIntent`
unfoldable pub parse_intent : String → Intent
parse_intent s =
    if s == "NamespaceOverview"
    then namespace_overview
    else if s == "ExplainObjectIssue"
    then explain_object_issue
    else if s == "ExplainRestarts"
    then explain_restarts
    else if s == "BuildTimeline"
    then build_timeline
    else unknown

-- `parseMode`
unfoldable pub parse_mode : String → ResponseMode
parse_mode s =
    if s == "concise"
    then concise
    else if s == "incident-summary"
    then incident_summary
    else technical

-- `now.Add(-d)` for the duration of some minutes, an int64 of nanoseconds that wraps around, as its
-- negation does; `now` is more than 2 ^ 63 nanoseconds after the zero time.
abbrev pub minutes_before : Time → ℕ → Time
minutes_before now minutes =
    let d = minutes * 60_000_000_000 % 2 ^ 64 in
    if leb d (2 ^ 63) then now - d else now + (2 ^ 64 - d)

abbrev pub since_of : Time → ℕ → Time
since_of now minutes = if is_pos minutes then minutes_before now minutes else 0

-- The query of `handleQuery`.
unfoldable pub to_query : Time → QueryRequest → Query
to_query now req = record {
  cluster_name = req.cluster_name;
  namespace = req.namespace;
  object_kind = req.object_kind;
  object_name = req.object_name;
  reason = req.reason;
  since = since_of now req.since_minutes;
  limit = req.limit;
  intent = parse_intent req.intent;
}

-- The query of `parseIntentJSON`, from the payload that its JSON holds.
unfoldable pub payload_query : Time → IntentPayload → String → String → Query
payload_query now p cluster_name fallback = record {
  cluster_name = cluster_name;
  namespace = if p.namespace == "" then fallback else p.namespace;
  object_kind = p.object_kind;
  object_name = p.object_name;
  reason = p.reason;
  since = since_of now p.since_minutes;
  limit = 0;
  intent = parse_intent p.intent;
}

-- The query that `handleAsk` falls back to.
abbrev pub overview_query : AskRequest → Query
overview_query req = record {
  cluster_name = req.cluster_name;
  namespace = req.namespace;
  object_kind = "";
  object_name = "";
  reason = "";
  since = 0;
  limit = 0;
  intent = namespace_overview;
}

-- `json.Unmarshal` on the trimmed reply of the model gives the payload or an error.
unfoldable pub ask_query : Time → Result IntentPayload → AskRequest → Query
ask_query now (ok p) req = payload_query now p req.cluster_name req.namespace
ask_query now (err why) req = overview_query req

abbrev pub is_nil {ℓ} : {A : Type ℓ} → List A → Bool
is_nil [] = true
is_nil (x ∷ xs) = false

-- The status of an answered query.
unfoldable pub answer_status : {T : Timestamps} → ExecutionResult T → ℕ
answer_status result =
    if not (is_nil result.step_errors) && is_nil result.events && is_nil result.snapshots
    then 207
    else 200

-- The language model: the reply to the extraction prompt with the payload that it parses to, and
-- the narration of a timeline.
pub record Model : Type 0 where
  pub chat : String → Result String
  pub parsed : String → Result IntentPayload
  pub summarize : String → Timeline → Result String

abbrev pub narrative : Model → AskRequest → Timeline → Response → String
narrative llm req tl structured = elim (llm.summarize req.question tl) [
  | err why ↦ structured.summary
  | ok told ↦ told
]

-- `timeline_of` is `Correlate`, `build_with` is `Build`, both with the orders that Go leaves open;
-- `clients` is what the registry answers for a cluster.
module _ (T : Timestamps) (quote : String → String) (clients : String → Result (AgentClient T))
    (timeline_of : List NormalizedEvent → Timeline)
    (build_with : String → ResponseMode → Timeline → ExecutionResult T → Response) where
  -- The part that both handlers share: plan, execute, and hand over the result.
  unfoldable pub answer : Query → (ExecutionResult T → Reply) → Reply
  answer q reply = elim (plan q) [
    | err why ↦ write_error 400 (text_append "plan error: " why)
    | ok p ↦ elim (execute T quote (clients p.cluster_name) p) [
      | err why ↦ write_error 502 (text_append "execution error: " why)
      | ok result ↦ reply result
    ]
  ]

  -- `handleQuery`
  unfoldable pub handle_query : Time → Result QueryRequest → Reply
  handle_query now (err why) = write_error 400 (text_append "invalid request body: " why)
  handle_query now (ok req) =
      if req.cluster_name == ""
      then write_error 400 "cluster_name is required"
      else answer (to_query now req) λ result. record {
        status = answer_status result;
        body =
            response_body (
              build_with req.cluster_name (parse_mode req.mode) (timeline_of result.events) result);
      }

  -- The end of `handleAsk`, behind the execution of the plan.
  unfoldable pub narrated : Model → AskRequest → ExecutionResult T → Reply
  narrated llm req result =
      let tl = timeline_of result.events in
      let structured = build_with req.cluster_name (parse_mode req.mode) tl result in
      record {
        status = answer_status result;
        body = ask_body structured (narrative llm req tl structured);
      }

  -- `handleAsk`, without a model or with one.
  unfoldable pub handle_ask : Option Model → Time → Result AskRequest → Reply
  handle_ask none now decoded = write_error 503 "LLM not configured (set OLLAMA_BASE_URL)"
  handle_ask (some llm) now (err why) = write_error 400 (text_append "invalid request body: " why)
  handle_ask (some llm) now (ok req) =
      if req.cluster_name == ""
      then write_error 400 "cluster is required"
      else if req.question == ""
      then write_error 400 "question is required"
      else elim (llm.chat req.question) [
        | err why ↦ write_error 502 (text_append "LLM error: " why)
        | ok raw ↦ answer (ask_query now (llm.parsed raw) req) (narrated llm req)
      ]

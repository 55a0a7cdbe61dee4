-- ===== src/Examples/Front.antt =====
-- Examples of the coordinator's front: the handlers of the gateway, and the language model.
use Prim.Native.String.{◌++◌ as text_append}
use mcp_k8s.Base.{String, ◌≡◌, refl, ◌↔◌, true, false, none, some, [], ◌∷◌, text_keys}
use mcp_k8s.Base.Result.{ok, err}
use mcp_k8s.Event.Normalize.{trim_space}
use mcp_k8s.Correlation.{CorrelatedEvent}
use mcp_k8s.Gateway.{AskRequest, Model, handle_ask, handle_query}
use mcp_k8s.Gateway.Questions.{request_of, asked_reply, queried_reply, handle_ask-handle_query}
use mcp_k8s.Executor.{ExecutionResult}
use mathlib.Core.Logic.{◌⊎◌}
use mcp_k8s.Gateway.Auth.{strip}
use mcp_k8s.Gateway.Status.{outcome_of, expected_ask, outcome-handle_ask}
use mcp_k8s.Gateway.Fences.{strip_fences, strip_fences_lem}
use mcp_k8s.Llm.{
  Transport, Json, Printing, OllamaClient, ChatResponse, messages_of, chat, summarize_timeline,
}
use mcp_k8s.Llm.Answers.{IsServed, chat_lem}
use mcp_k8s.Examples.{back_off, pulled, nanoseconds, clients, timeline_of, build_with}

-- A model that replies with no JSON, and fails to narrate.
abbrev vague : Model
vague = record {
  chat = λ question. ok "Let me look into that.";
  parsed = λ raw. err "invalid character 'L'";
  summarize = λ question tl. err "busy";
}

abbrev ask : AskRequest
ask = record { cluster_name = "prod"; question = "What is wrong?"; namespace = "shop"; mode = "" }

outcome-handle_ask_example :
    outcome_of
      (handle_ask nanoseconds
        (λ s. s)
        clients
        timeline_of
        build_with
        (some vague)
        0
        (ok ask)).status
    ≡ expected_ask nanoseconds (λ s. s) clients timeline_of build_with (some vague) 0 (ok ask)
outcome-handle_ask_example =
    outcome-handle_ask nanoseconds (λ s. s) clients timeline_of build_with (some vague) 0 (ok ask)

handle_ask-handle_query_example :
    let asked =
      handle_ask nanoseconds (λ s. s) clients timeline_of build_with (some vague) 0 (ok ask) in
    let queried =
      handle_query nanoseconds
        (λ s. s)
        clients
        timeline_of
        build_with
        0
        (ok (request_of (err "invalid character 'L'") ask)) in
    (asked ≡ queried)
    ⊎ ((result : ExecutionResult nanoseconds) × (asked
          ≡ asked_reply nanoseconds (λ s. s) clients timeline_of build_with vague ask result)
        × (queried ≡ queried_reply nanoseconds (λ s. s) clients timeline_of build_with ask result))
handle_ask-handle_query_example =
    handle_ask-handle_query nanoseconds (λ s. s) clients timeline_of build_with vague 0 ask
      "Let me look into that." refl refl refl

abbrev payload : String
payload = "\n{\"intent\": \"BuildTimeline\"}\n"

payload_unfenced : strip "```" (text_append payload "```") ≡ none
unfolding strip
payload_unfenced = refl

payload_unmarked : strip "json" (text_append payload "```") ≡ none
unfolding strip
payload_unmarked = refl

strip_fences_lem_example :
    (strip_fences (text_append "```json" (text_append payload "```")) ≡ trim_space payload)
    × (strip_fences (text_append "```" (text_append payload "```")) ≡ trim_space payload)
strip_fences_lem_example = strip_fences_lem payload payload_unfenced payload_unmarked

-- A server that answers every request with the same text.
abbrev net : Transport
net = record {
  Request = String;
  new_request = λ url body. ok url;
  send = λ req. ok (record { status_code = 200; read_all = ok "The pod restarts." });
}

abbrev json : Json
json = record {
  of_generate = λ r. r.prompt;
  of_chat = λ r. r.model;
  to_generate = λ text. ok (record { response = text });
  to_chat = λ text. ok (record { message = record { role = "assistant"; content = text } });
}

abbrev llama : OllamaClient
llama = record { base_url = "http://ollama:11434"; model = "llama3" }

chat_lem_example : (chat net json (λ n. "200") llama "system" "user" ≡ ok "The pod restarts.") ↔ (
    (reply : String) × (a : ChatResponse) × IsServed net json
      (λ n. "200")
      llama
      "/api/chat"
      (json.of_chat
        (record { model = "llama3"; messages = messages_of "system" "user"; stream = false }))
      reply
    × (json.to_chat reply ≡ ok a)
    × (a.message.content ≡ "The pod restarts."))
chat_lem_example = chat_lem net json (λ n. "200") llama "system" "user" "The pod restarts."

abbrev plain : Printing
plain = record { rfc3339 = λ t. "2026-01-02T03:04:05Z"; quoted = λ s. s; count = λ n. "3" }

abbrev cause : CorrelatedEvent
cause = record { event = pulled; group_id = "u1"; is_root_cause = true; caused_by = "" }

abbrev effect : CorrelatedEvent
effect = record { event = back_off; group_id = "u1"; is_root_cause = false; caused_by = "Pulled" }

abbrev told : String
told =
    summarize_timeline plain "What is wrong?"
      (record { events = cause ∷ effect ∷ []; root_causes = cause ∷ [] })

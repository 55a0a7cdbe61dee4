-- ===== src/Llm.antt =====
-- pkg/llm: the prompts (prompt.go) and the client of an Ollama server (ollama.go). net/http and
-- encoding/json are parameters; texts stand for the byte slices that pass between them.
pub mod Answers
pub mod Prompts
use Prim.Native.Nat.{ℕ}
use Prim.Native.String.{String, ◌++◌}
use mathlib.Core.Bool.{Bool, false}
use mathlib.Core.List.{List, [], ◌∷◌}
use mcp_k8s.Base.{◌==◌, text_keys, leb, if◌then◌else◌}
use mcp_k8s.Base.Result.{Result, ok, err, ◌>>=◌}
use mcp_k8s.Event.{Time}
use mcp_k8s.Correlation.{CorrelatedEvent, Timeline}

-- `llm.Client`
pub record Client : Type 0 where
  pub summarize : String → Result String
  pub chat : String → String → Result String

pub record GenerateRequest : Type 0 where
  pub model : String
  pub prompt : String
  pub stream : Bool

pub record GenerateResponse : Type 0 where
  pub response : String

pub record ChatMessage : Type 0 where
  pub role : String
  pub content : String

pub record ChatRequest : Type 0 where
  pub model : String
  pub messages : List ChatMessage
  pub stream : Bool

pub record ChatResponse : Type 0 where
  pub message : ChatMessage

-- A response of the server: its status, and what reading its body gives.
pub record HttpReply : Type 0 where
  pub status_code : ℕ
  pub read_all : Result String

-- net/http: making a POST request of an address and a body, and sending it.
pub record Transport : Type 1 where
  pub Request : Type 0
  pub new_request : String → String → Result Request
  pub send : Request → Result HttpReply

-- encoding/json on the types above; `json.Marshal` does not fail on them.
pub record Json : Type 0 where
  pub of_generate : GenerateRequest → String
  pub of_chat : ChatRequest → String
  pub to_generate : String → Result GenerateResponse
  pub to_chat : String → Result ChatResponse

-- `fmt.Errorf("ollama %s…: %w", path, err)`
abbrev pub ollama_error {ℓ} : {A : Type ℓ} → String → String → String → Result A
ollama_error path middle why = err ("ollama " ++ path ++ middle ++ ": " ++ why)

abbrev pub in_context {ℓ} : {A : Type ℓ} → String → Result A → Result A
in_context what (ok a) = ok a
in_context what (err why) = err (what ++ why)

-- `OllamaClient`
pub record OllamaClient : Type 0 where
  pub base_url : String
  pub model : String

-- `NewOllamaFromEnv`
unfoldable pub new_ollama_from_env : (String → String) → OllamaClient
new_ollama_from_env getenv =
    let base_url = getenv "OLLAMA_BASE_URL" in
    let model = getenv "OLLAMA_MODEL" in
    record {
      base_url = if base_url == "" then "http://localhost:11434" else base_url;
      model = if model == "" then "llama3" else model;
    }

-- The two turns that `Chat` sends.
abbrev pub messages_of : String → String → List ChatMessage
messages_of system user =
    record { role = "system"; content = system } ∷ record { role = "user"; content = user } ∷ []

-- `decimal` writes the status code.
module _ (net : Transport) (json : Json) (decimal : ℕ → String) where
  -- The end of `post`: the body is read before the status is looked at.
  unfoldable pub check_reply : String → HttpReply → Result String
  check_reply path reply = in_context ("ollama " ++ path ++ " read: ") reply.read_all >>= λ body.
      if leb 300 reply.status_code
      then ollama_error path (" status " ++ decimal reply.status_code) body
      else ok body

  -- `post`
  unfoldable pub post : OllamaClient → String → String → Result String
  post c path body = net.new_request (c.base_url ++ path) body >>= λ req.
      in_context ("ollama " ++ path ++ ": ") (net.send req) >>= check_reply path

  -- `Summarize`
  unfoldable pub summarize : OllamaClient → String → Result String
  summarize c prompt =
      let body = json.of_generate (record { model = c.model; prompt = prompt; stream = false }) in
      post c "/api/generate" body >>= λ resp.
      in_context "ollama generate decode: " (json.to_generate resp) >>= λ gr. ok gr.response

  -- `Chat`
  unfoldable pub chat : OllamaClient → String → String → Result String
  chat c system user =
      let body =
        json.of_chat
          (record { model = c.model; messages = messages_of system user; stream = false }) in
      post c "/api/chat" body >>= λ resp.
      in_context "ollama chat decode: " (json.to_chat resp) >>= λ cr. ok cr.message.content

  -- `*OllamaClient` as a `llm.Client`.
  unfoldable pub client_of : OllamaClient → Client
  client_of c = record { summarize = summarize c; chat = chat c }

-- `time.Format(time.RFC3339)` in UTC, `%q` and `%d`.
pub record Printing : Type 0 where
  pub rfc3339 : Time → String
  pub quoted : String → String
  pub count : ℕ → String

-- `ExtractIntentSystem`
abbrev pub extract_intent_system : String
extract_intent_system =
    "You are a Kubernetes observability assistant.\n"
    ++ "Extract structured query parameters from the user's question and reply with a\n"
    ++ "JSON object only — no explanation, no markdown fences.\n" ++ "\n" ++ "JSON schema:\n"
    ++ "{\n" ++ "  \"namespace\":    string,  // Kubernetes namespace; empty = all\n"
    ++ "  \"object_kind\":  string,  // e.g. \"Pod\", \"Deployment\"; empty if not specified\n"
    ++ "  \"object_name\":  string,  // specific resource name; empty if not specified\n"
    ++ "  \"reason\":       string,  // Kubernetes event Reason filter; empty if not specified\n"
    ++ "  \"since_minutes\": number, // look-back window; 0 = no bound; default 60\n"
    ++ "  \"intent\":       string   // one of: NamespaceOverview | ExplainObjectIssue | ExplainRestarts | BuildTimeline\n"
    ++ "}\n" ++ "\n" ++ "Intent rules:\n"
    ++ "- NamespaceOverview  — broad \"what's wrong in <namespace>\" questions\n"
    ++ "- ExplainObjectIssue — questions about a specific named resource\n"
    ++ "- ExplainRestarts    — questions about pod restarts / CrashLoopBackOff\n"
    ++ "- BuildTimeline      — questions asking for an event timeline or history"

-- `ExtractIntentUser`
abbrev pub extract_intent_user : String → String
extract_intent_user question = question

-- `[time] kind/name — reason: message`, the part that both lists of the prompt print.
abbrev pub about_event : Printing → CorrelatedEvent → String
about_event p e =
    "  ["
    ++ p.rfc3339 e.last_seen
    ++ "] "
    ++ e.involved_object_kind
    ++ "/"
    ++ e.involved_object_name
    ++ " — "
    ++ e.reason
    ++ ": "
    ++ e.message

abbrev pub cause_line : Printing → CorrelatedEvent → String
cause_line p e = about_event p e ++ "\n"

abbrev pub marker_of : CorrelatedEvent → String
marker_of e =
    if e.is_root_cause
    then " [ROOT CAUSE]"
    else if e.caused_by == ""
    then ""
    else " [caused by " ++ e.caused_by ++ "]"

unfoldable pub event_line : Printing → CorrelatedEvent → String
event_line p e = about_event p e ++ " (count=" ++ p.count e.count ++ ")" ++ marker_of e ++ "\n"

unfoldable pub cause_lines : Printing → List CorrelatedEvent → String
cause_lines p [] = ""
cause_lines p (e ∷ es) = cause_line p e ++ cause_lines p es

unfoldable pub event_lines : Printing → List CorrelatedEvent → String
event_lines p [] = ""
event_lines p (e ∷ es) = event_line p e ++ event_lines p es

abbrev pub causes_part : Printing → List CorrelatedEvent → String
causes_part p [] = ""
causes_part p (e ∷ es) = "ROOT CAUSES:\n" ++ cause_lines p (e ∷ es) ++ "\n"

abbrev pub instructions : String
instructions =
    "\nUsing only the information above, provide a clear, concise diagnosis. "
    ++ "Explain the root cause(s), the downstream effects, and suggest a remediation step if obvious. "
    ++ "Do not invent information not present in the events."

abbrev pub prompt_of : Printing → String → List CorrelatedEvent → List CorrelatedEvent → String
prompt_of p question [] causes =
    "The user asked: "
    ++ p.quoted question
    ++ "\n\nNo Kubernetes events were found for this query. "
    ++ "Reply with a brief, helpful message explaining that no issues were detected."
prompt_of p question (e ∷ es) causes =
    "The user asked: "
    ++ p.quoted question
    ++ "\n\n"
    ++ "Here is a structured summary of relevant Kubernetes events:\n\n"
    ++ causes_part p causes
    ++ "EVENT TIMELINE (chronological):\n"
    ++ event_lines p (e ∷ es)
    ++ instructions

-- `SummarizeTimeline`
unfoldable pub summarize_timeline : Printing → String → Timeline → String
summarize_timeline p question tl = prompt_of p question tl.events tl.root_causes

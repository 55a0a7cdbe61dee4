-- ===== src/Llm/Answers.antt =====
-- When `Chat` and `Summarize` of pkg/llm/ollama.go return a text, and which.
use Prim.Native.Nat.{ℕ, ◌<◌}
use Prim.Native.String.{String, ◌++◌}
use mathlib.Core.Bool.{false}
use mathlib.Core.Path.{◌≡◌, refl, ◌∙◌}
use mathlib.Core.Logic.{◌⊎◌, inl, inr, ◌↔◌}
use mcp_k8s.Base.{leb, Bool-cases, arith}
use mcp_k8s.Base.Result.{Result, ok, err, ◌>>=◌}
use mcp_k8s.Llm.{
  HttpReply, Transport, Json, GenerateResponse, ChatResponse, OllamaClient, ollama_error,
  in_context, check_reply, post, summarize, chat, messages_of,
}

abbrev pub Result-cases {ℓ} :
    {A : Type ℓ} (r : Result A) → ((a : A) × (r ≡ ok a)) ⊎ ((why : String) × (r ≡ err why))
Result-cases (ok a) = inl (a, refl)
Result-cases (err why) = inr (why, refl)

bind_ok {ℓ κ} :
    {A : Type ℓ} {B : Type κ} (r : Result A) (f : A → Result B) (b : B)
    → r >>= f ≡ ok b
    → (a : A) × (r ≡ ok a) × (f a ≡ ok b)
bind_ok (ok a) f b h = (a, refl, h)
bind_ok (err why) f b h = absurd cc

in_context_ok {ℓ} :
    {A : Type ℓ} (what : String) (r : Result A) (a : A) → in_context what r ≡ ok a → r ≡ ok a
in_context_ok what (ok x) a h = h
in_context_ok what (err why) a h = absurd cc

module _ (net : Transport) (json : Json) (decimal : ℕ → String) where
  -- The server took the request and answered it with a body, under a status below 300.
  abbrev pub IsServed : OllamaClient → String → String → String → Type 0
  IsServed c path body reply =
      (req : net.Request) × (got : HttpReply) × (net.new_request (c.base_url ++ path) body ≡ ok req)
      × (net.send req ≡ ok got)
      × (got.read_all ≡ ok reply)
      × (got.status_code < 300)

  check_reply_ok :
      (path : String) (got : HttpReply) (data' : String)
      → check_reply net json decimal path got ≡ ok data'
      → (got.read_all ≡ ok data') × (got.status_code < 300)
  unfolding check_reply
  check_reply_ok path got data' h =
      let (body, read, rest) = bind_ok _ _ data' h in
      let here = in_context_ok _ got.read_all body read in
      elim (Bool-cases (leb 300 got.status_code)) [
        | inl high ↦
            let no : ollama_error path (" status " ++ decimal got.status_code) body ≡ ok data' =
              rw high at rest in
            absurd cc
        | inr low ↦ let same : ok body ≡ ok data' = rw low at rest in (here ∙ same, ground arith)
      ]

  post_ok :
      (c : OllamaClient) (path body reply : String)
      → post net json decimal c path body ≡ ok reply
      → IsServed c path body reply
  unfolding post
  post_ok c path body reply h =
      let (req, made, sent) = bind_ok _ _ reply h in
      let (got, answered, rest) = bind_ok _ _ reply sent in
      let (read, low) = check_reply_ok path got reply rest in
      (req, got, made, in_context_ok _ (net.send req) got answered, read, low)

  post_served :
      (c : OllamaClient) (path body reply : String)
      → IsServed c path body reply
      → post net json decimal c path body ≡ ok reply
  unfolding post check_reply
  post_served c path body reply (req, got, made, sent, read, low) =
      let not_high : leb 300 got.status_code ≡ false = ground arith in
      rw (made, sent, read, not_high) refl

  -- What the two calls have in common: a request, then the decoding of the body of its reply.
  decoded_ok {ℓ} :
      {A : Type ℓ} (c : OllamaClient) (path body what : String) (decode : String → Result A)
      (text_of : A → String) (text : String)
      → (post net json decimal c path body >>= λ resp.
          in_context what (decode resp) >>= λ a. ok (text_of a))
        ≡ ok text
      → (reply : String) × (a : A) × IsServed c path body reply
        × (decode reply ≡ ok a)
        × (text_of a ≡ text)
  decoded_ok c path body what decode text_of text h =
      let (reply, posted, rest) = bind_ok _ _ text h in
      let (a, read, same) = bind_ok _ _ text rest in
      (reply, a, post_ok c path body reply posted, in_context_ok what (decode reply) a read, cc)

  -- `Chat` returns a text exactly when the server takes the two messages at /api/chat, its response
  -- can be read, has a status below 300 and decodes, and the text is the content of its message.
  pub chat_lem :
      (c : OllamaClient) (system user text : String)
      → (chat net json decimal c system user ≡ ok text) ↔ (
          (reply : String) × (a : ChatResponse) × IsServed c "/api/chat"
            (json.of_chat
              (record { model = c.model; messages = messages_of system user; stream = false }))
            reply
          × (json.to_chat reply ≡ ok a)
          × (a.message.content ≡ text))
  unfolding chat
  chat_lem c system user text = (
    decoded_ok c "/api/chat" _ "ollama chat decode: " json.to_chat (λ a. a.message.content) text,
    λ (reply, a, served, read, same).
        rw (post_served c "/api/chat" _ reply served, read, same) refl,
  )

  -- `Summarize` returns a text exactly when the server takes the prompt at /api/generate, its
  -- response can be read, has a status below 300 and decodes, and the text is its response.
  pub summarize_lem :
      (c : OllamaClient) (prompt text : String)
      → (summarize net json decimal c prompt ≡ ok text) ↔ (
          (reply : String) × (a : GenerateResponse) × IsServed c "/api/generate"
            (json.of_generate (record { model = c.model; prompt = prompt; stream = false }))
            reply
          × (json.to_generate reply ≡ ok a)
          × (a.response ≡ text))
  unfolding summarize
  summarize_lem c prompt text = (
    decoded_ok c "/api/generate" _ "ollama generate decode: " json.to_generate (λ a. a.response)
        text,
    λ (reply, a, served, read, same).
        rw (post_served c "/api/generate" _ reply served, read, same) refl,
  )

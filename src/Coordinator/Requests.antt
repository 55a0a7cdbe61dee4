-- ===== src/Coordinator/Requests.antt =====
-- What sequences of requests to the coordinator, internal/app/coordinator, keep of its registry.
use Prim.Native.Nat.{ℕ, ◌+◌}
use Prim.Native.String.{String}
use mathlib.Core.Bool.{false}
use mathlib.Core.List.{List, [], ◌∷◌}
use mathlib.Core.Option.{Option, none, some}
use mathlib.Core.Logic.{inl, inr}
use mathlib.Core.Path.{◌≡◌, refl, sym, subst, ◌∙◌}
use mcp_k8s.Base.{◌==◌, text_keys, Bool-cases, All, lookup, length}
use mcp_k8s.Base.Result.{Result, ok, err}
use mcp_k8s.Event.{Time}
use mcp_k8s.Planner.{Query, Plan, plan}
use mcp_k8s.Proto.{Timestamps}
use mcp_k8s.Registry.{ClusterEntry, ClientConn, Registry, Codec, Read, new_registry, load, client}
use mcp_k8s.Registry.Safety.{Reaches, IsConsistent}
use mcp_k8s.Registry.Reaching.{answered, client_lem}
use mcp_k8s.Config.{CoordinatorConfig}
use mcp_k8s.Gateway.{QueryRequest, AskRequest, Model, to_query, ask_query}
use mcp_k8s.Gateway.Auth.{require_token}
use mcp_k8s.Gateway.Admin.{
  handle_register, handle_unregister, handle_register-IsGuarded, handle_unregister-IsGuarded,
}
use mcp_k8s.Coordinator.{
  or_fresh, started, touched, after_reply, Request, health, query, ask, register_cluster,
  unregister_cluster, list_registry, Gateway, touch, after_query, after_ask, serve, serve_all,
}

-- A registry without connections is consistent.
no_conns-IsConsistent : (r : Registry) → r.conns ≡ [] → IsConsistent r
unfolding lookup
no_conns-IsConsistent r none_open =
    λ k. subst (λ conns. Reaches (lookup k r.entries) (lookup k conns)) (sym none_open) tt

-- Two registries with the same connections, open and closed.
abbrev pub SameConns : Registry → Registry → Type 0
SameConns r t = (t.conns ≡ r.conns) × (t.closed ≡ r.closed)

parsed_conns :
    (codec : Codec) (content : String) (r : Registry) (a : Result (List ClusterEntry))
    → codec.parsed content ≡ a
    → SameConns r (or_fresh (load codec (some (ok content)) r) r)
unfolding load
parsed_conns codec content r (err why) same = elim (Bool-cases (r.file_path == "")) [
  | inl memory ↦ rw memory (refl, refl)
  | inr kept ↦ rw (kept, same) (refl, refl)
]
parsed_conns codec content r (ok es) same = elim (Bool-cases (r.file_path == "")) [
  | inl memory ↦ rw memory (refl, refl)
  | inr kept ↦ rw (kept, same) (refl, refl)
]

pub loaded_conns :
    (codec : Codec) (read : Read) (r : Registry) → SameConns r (or_fresh (load codec read r) r)
unfolding load
loaded_conns codec none r = elim (Bool-cases (r.file_path == "")) [
  | inl memory ↦ rw memory (refl, refl)
  | inr kept ↦ rw kept (refl, refl)
]
loaded_conns codec (some (err why)) r = elim (Bool-cases (r.file_path == "")) [
  | inl memory ↦ rw memory (refl, refl)
  | inr kept ↦ rw kept (refl, refl)
]
loaded_conns codec (some (ok content)) r = parsed_conns codec content r (codec.parsed content) refl

pub started-IsConsistent :
    (codec : Codec) (file : Option String) (read : Read) (cfg : CoordinatorConfig)
    → IsConsistent (started codec file read cfg)
unfolding started new_registry
started-IsConsistent codec file read cfg =
    no_conns-IsConsistent (started codec file read cfg)
      (loaded_conns codec read (new_registry cfg.registry_file file)).0

-- A request with which the token check would not let a change of the registry pass.
abbrev pub IsRefused : String → Request → Type 0
IsRefused token health = Unit
IsRefused token (query now decoded) = Unit
IsRefused token (ask now decoded) = Unit
IsRefused token (register_cluster auth decoded) = require_token token auth ≡ false
IsRefused token (unregister_cluster auth cluster) = require_token token auth ≡ false
IsRefused token list_registry = Unit

-- What a request may do to the registry when it has no access to it: open a connection.
abbrev pub Keeps : Registry → Registry → Type 0
Keeps r t = IsConsistent t × (t.entries ≡ r.entries)

module _ {T : Timestamps} (g : Gateway T)
    (dials : (n : ℕ) (endpoint : String) (conn : ClientConn)
      → (g.world n).new_client endpoint ≡ ok conn
      → conn.endpoint ≡ endpoint) where
  touched-Keeps :
      (n : ℕ) (a : Result Plan) (r : Registry) → IsConsistent r → Keeps r (touched g n a r)
  touched-Keeps n (err why) r h = (h, refl)
  touched-Keeps n (ok p) r h =
      let (kept, same, reaches) = client_lem (g.world n) g.quote p.cluster_name r (dials n) h in
      (kept, same)

  touch-Keeps : (n : ℕ) (q : Query) (r : Registry) → IsConsistent r → Keeps r (touch g n q r)
  unfolding touch
  touch-Keeps n q r h = touched-Keeps n (plan q) r h

  pub after_query-Keeps :
      (n : ℕ) (now : Time) (decoded : Result QueryRequest) (r : Registry)
      → IsConsistent r
      → Keeps r (after_query g n now decoded r)
  unfolding after_query
  after_query-Keeps n now (err why) r h = (h, refl)
  after_query-Keeps n now (ok req) r h = elim (Bool-cases (req.cluster_name == "")) [
    | inl unnamed ↦ rw unnamed (h, refl)
    | inr named ↦ rw named (touch-Keeps n (to_query now req) r h)
  ]

  after_reply-Keeps :
      (n : ℕ) (llm : Model) (now : Time) (req : AskRequest) (a : Result String) (r : Registry)
      → IsConsistent r
      → Keeps r (after_reply g n llm now req a r)
  after_reply-Keeps n llm now req (err why) r h = (h, refl)
  after_reply-Keeps n llm now req (ok raw) r h =
      touch-Keeps n (ask_query now (llm.parsed raw) req) r h

  pub after_ask-Keeps :
      (n : ℕ) (llm : Option Model) (now : Time) (decoded : Result AskRequest) (r : Registry)
      → IsConsistent r
      → Keeps r (after_ask g n llm now decoded r)
  unfolding after_ask
  after_ask-Keeps n none now decoded r h = (h, refl)
  after_ask-Keeps n (some llm) now (err why) r h = (h, refl)
  after_ask-Keeps n (some llm) now (ok req) r h = elim (Bool-cases (req.cluster_name == "")) [
    | inl unnamed ↦ rw unnamed (h, refl)
    | inr named ↦ elim (Bool-cases (req.question == "")) [
      | inl empty ↦ rw (named, empty) (h, refl)
      | inr asked ↦ rw (named, asked) (after_reply-Keeps n llm now req (llm.chat req.question) r h)
    ]
  ]

  pub serve-IsConsistent :
      (n : ℕ) (req : Request) (r : Registry) → IsConsistent r → IsConsistent (serve g n req r).0
  unfolding serve
  serve-IsConsistent n health r h = h
  serve-IsConsistent n (query now decoded) r h = (after_query-Keeps n now decoded r h).0
  serve-IsConsistent n (ask now decoded) r h = (after_ask-Keeps n g.llm now decoded r h).0
  serve-IsConsistent n (register_cluster auth decoded) r h =
      (handle_register-IsGuarded (g.world n) g.token auth decoded r h).0
  serve-IsConsistent n (unregister_cluster auth cluster) r h =
      (handle_unregister-IsGuarded (g.world n) g.token auth cluster r h).0
  serve-IsConsistent n list_registry r h = h

  run-IsConsistent :
      (n : ℕ) (reqs : List Request) (r : Registry)
      → IsConsistent r
      → IsConsistent (serve_all g n reqs r)
  unfolding serve_all
  run-IsConsistent n [] r h = h
  run-IsConsistent n (req ∷ reqs) r h =
      run-IsConsistent (n + 1) reqs (serve g n req r).0 (serve-IsConsistent n req r h)

  -- If a new connection goes to the endpoint that it is made for, then whatever the file held at the
  -- start and whatever requests the coordinator has served, every open connection goes to the
  -- endpoint that is registered for its cluster, and so does one that `Client` answers with in the
  -- next request.
  pub serve_all-IsConsistent :
      (codec : Codec) (file : Option String) (read : Read) (cfg : CoordinatorConfig)
      (reqs : List Request) (name : String)
      → let r = serve_all g 0 reqs (started codec file read cfg) in
        let n = length reqs in
        IsConsistent r
        × Reaches (lookup name r.entries) (answered (client (g.world n) g.quote name r).1)
  serve_all-IsConsistent codec file read cfg reqs name =
      let h =
        run-IsConsistent 0 reqs (started codec file read cfg)
          (started-IsConsistent codec file read cfg) in
      let n = length reqs in
      (
        h,
        (client_lem (g.world n) g.quote name (serve_all g 0 reqs (started codec file read cfg))
            (dials n) h).2,
      )

  serve-entries :
      (n : ℕ) (req : Request) (r : Registry)
      → IsConsistent r
      → IsRefused g.token req
      → (serve g n req r).0.entries ≡ r.entries
  unfolding serve handle_register handle_unregister
  serve-entries n health r h refused = refl
  serve-entries n (query now decoded) r h refused = (after_query-Keeps n now decoded r h).1
  serve-entries n (ask now decoded) r h refused = (after_ask-Keeps n g.llm now decoded r h).1
  serve-entries n (register_cluster auth decoded) r h refused = rw refused refl
  serve-entries n (unregister_cluster auth cluster) r h refused = rw refused refl
  serve-entries n list_registry r h refused = refl

  -- Requests that change no registration, or try to and fail the token check, leave the registered
  -- clusters as they are, if open connections go to registered endpoints at the start and a new
  -- connection goes to the endpoint that it is made for.
  pub serve_all-entries :
      (n : ℕ) (reqs : List Request) (r : Registry)
      → IsConsistent r
      → All (IsRefused g.token) reqs
      → (serve_all g n reqs r).entries ≡ r.entries
  unfolding serve_all
  serve_all-entries n [] r h refused = refl
  serve_all-entries n (req ∷ reqs) r h (here, rest) =
      serve_all-entries (n + 1) reqs (serve g n req r).0 (serve-IsConsistent n req r h) rest
      ∙ serve-entries n req r h here

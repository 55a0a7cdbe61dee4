-- ===== src/Coordinator/Connections.antt =====
-- What sequences of requests to the coordinator, internal/app/coordinator, do with connections.
use Prim.Native.Nat.{ℕ, ◌+◌, ◌<◌}
use Prim.Native.String.{String}
use mathlib.Core.Bool.{◌||◌}
use mathlib.Core.List.{List, [], ◌∷◌}
use mathlib.Core.Option.{Option, none, some}
use mathlib.Core.Logic.{inl, inr}
use mathlib.Core.Path.{◌≡◌, sym, subst}
use mcp_k8s.Base.{◌==◌, text_keys, Bool-cases, lookup, length, All, arith, num_keys}
use mcp_k8s.Base.Result.{Result, ok, err}
use mcp_k8s.Event.{Time}
use mcp_k8s.Planner.{Query, Plan, plan}
use mcp_k8s.Proto.{Timestamps}
use mcp_k8s.Registry.{ClientConn, Registry, World, Codec, Read, new_registry, client}
use mcp_k8s.Registry.Connections.{AreOwned, AreDistinct, later-AreOwned}
use mcp_k8s.Registry.Handing.{register-AreOwned, unregister-AreOwned, Hands, client-Hands}
use mcp_k8s.Config.{CoordinatorConfig}
use mcp_k8s.Gateway.{QueryRequest, AskRequest, Model, to_query, ask_query}
use mcp_k8s.Gateway.Auth.{require_token}
use mcp_k8s.Gateway.Admin.{
  RegisterRequest, entry_of, admit_register, handle_register, handle_unregister,
}
use mcp_k8s.Coordinator.{
  started, touched, after_reply, Request, health, query, ask, register_cluster, unregister_cluster,
  list_registry, Gateway, touch, after_query, after_ask, serve, serve_all,
}
use mcp_k8s.Coordinator.Requests.{loaded_conns}

no_conns-AreOwned : (r : Registry) → r.conns ≡ [] → r.closed ≡ [] → AreOwned 0 r
unfolding lookup
no_conns-AreOwned r none_open none_closed =
    let missing : (k : String) (c : ClientConn) → lookup k r.conns ≡ some c → ⊥ = λ k c found.
      let no : none ≡ some c = subst (λ conns. lookup k conns ≡ some c) none_open found in cc in
    record {
      below = λ k c found. absurd (missing k c found);
      closed_below = subst (All (λ c. c.number < 0)) (sym none_closed) tt;
      live = λ k c found. absurd (missing k c found);
      alone = λ j k c d one two same. absurd (missing j c one);
      once = subst AreDistinct (sym none_closed) tt;
    }

started-AreOwned :
    (codec : Codec) (file : Option String) (read : Read) (cfg : CoordinatorConfig)
    → AreOwned 0 (started codec file read cfg)
unfolding started new_registry
started-AreOwned codec file read cfg =
    let (conns, closed) = loaded_conns codec read (new_registry cfg.registry_file file) in
    no_conns-AreOwned (started codec file read cfg) conns closed

module _ {T : Timestamps} (g : Gateway T)
    (numbers : (n : ℕ) (endpoint : String) (conn : ClientConn)
      → (g.world n).new_client endpoint ≡ ok conn
      → conn.number ≡ n) where
  touched-AreOwned :
      (n : ℕ) (a : Result Plan) (r : Registry) → AreOwned n r → AreOwned (n + 1) (touched g n a r)
  touched-AreOwned n (err why) r h = later-AreOwned n r h
  touched-AreOwned n (ok p) r h =
      (client-Hands n (g.world n) g.quote p.cluster_name r (numbers n) h).0

  touch-AreOwned :
      (n : ℕ) (q : Query) (r : Registry) → AreOwned n r → AreOwned (n + 1) (touch g n q r)
  unfolding touch
  touch-AreOwned n q r h = touched-AreOwned n (plan q) r h

  after_query-AreOwned :
      (n : ℕ) (now : Time) (decoded : Result QueryRequest) (r : Registry)
      → AreOwned n r
      → AreOwned (n + 1) (after_query g n now decoded r)
  unfolding after_query
  after_query-AreOwned n now (err why) r h = later-AreOwned n r h
  after_query-AreOwned n now (ok req) r h = elim (Bool-cases (req.cluster_name == "")) [
    | inl unnamed ↦ rw (after_query, unnamed) (later-AreOwned n r h)
    | inr named ↦ rw (after_query, named) (touch-AreOwned n (to_query now req) r h)
  ]

  after_reply-AreOwned :
      (n : ℕ) (llm : Model) (now : Time) (req : AskRequest) (a : Result String) (r : Registry)
      → AreOwned n r
      → AreOwned (n + 1) (after_reply g n llm now req a r)
  after_reply-AreOwned n llm now req (err why) r h = later-AreOwned n r h
  after_reply-AreOwned n llm now req (ok raw) r h =
      touch-AreOwned n (ask_query now (llm.parsed raw) req) r h

  after_ask-AreOwned :
      (n : ℕ) (llm : Option Model) (now : Time) (decoded : Result AskRequest) (r : Registry)
      → AreOwned n r
      → AreOwned (n + 1) (after_ask g n llm now decoded r)
  unfolding after_ask
  after_ask-AreOwned n none now decoded r h = later-AreOwned n r h
  after_ask-AreOwned n (some llm) now (err why) r h = later-AreOwned n r h
  after_ask-AreOwned n (some llm) now (ok req) r h = elim (Bool-cases (req.cluster_name == "")) [
    | inl unnamed ↦ rw (after_ask, unnamed) (later-AreOwned n r h)
    | inr named ↦ elim (Bool-cases (req.question == "")) [
      | inl empty ↦ rw (after_ask, named, empty) (later-AreOwned n r h)
      | inr asked ↦
          rw (after_ask, named, asked)
            (after_reply-AreOwned n llm now req (llm.chat req.question) r h)
    ]
  ]

  admit_register-AreOwned :
      (n : ℕ) (w : World) (decoded : Result RegisterRequest) (r : Registry)
      → AreOwned n r
      → AreOwned n (admit_register w decoded r).0
  unfolding admit_register
  admit_register-AreOwned n w (err why) r h = h
  admit_register-AreOwned n w (ok req) r h =
      elim (Bool-cases (req.cluster_name == "" || req.grpc_endpoint == "")) [
        | inl missing ↦ rw (admit_register, missing) h
        | inr given ↦ rw (admit_register, given) (register-AreOwned n w (entry_of req) r h)
      ]

  serve-AreOwned :
      (n : ℕ) (req : Request) (r : Registry) → AreOwned n r → AreOwned (n + 1) (serve g n req r).0
  unfolding serve handle_register handle_unregister
  serve-AreOwned n health r h = later-AreOwned n r h
  serve-AreOwned n (query now decoded) r h = after_query-AreOwned n now decoded r h
  serve-AreOwned n (ask now decoded) r h = after_ask-AreOwned n g.llm now decoded r h
  serve-AreOwned n (register_cluster auth decoded) r h =
      elim (Bool-cases (require_token g.token auth)) [
        | inl passed ↦
            rw passed (later-AreOwned n _ (admit_register-AreOwned n (g.world n) decoded r h))
        | inr refused ↦ rw refused (later-AreOwned n r h)
      ]
  serve-AreOwned n (unregister_cluster auth cluster) r h =
      elim (Bool-cases (require_token g.token auth)) [
        | inl passed ↦
            rw passed (later-AreOwned n _ (unregister-AreOwned n (g.world n) cluster r h))
        | inr refused ↦ rw refused (later-AreOwned n r h)
      ]
  serve-AreOwned n list_registry r h = later-AreOwned n r h

  run-AreOwned :
      (n : ℕ) (reqs : List Request) (r : Registry)
      → AreOwned n r
      → AreOwned (n + length reqs) (serve_all g n reqs r)
  unfolding serve_all
  run-AreOwned n [] r h = subst (λ k. AreOwned k r) (omega arith) h
  run-AreOwned n (req ∷ reqs) r h =
      subst (λ k. AreOwned k (serve_all g (n + 1) reqs (serve g n req r).0)) (omega arith)
        (run-AreOwned (n + 1) reqs (serve g n req r).0 (serve-AreOwned n req r h))

  -- If each new connection has the number of the request that makes it, then whatever the file held
  -- at the start and whatever requests the coordinator has served, no connection is open under two
  -- names, none that is open was closed, none was closed twice, and a connection that `Client`
  -- answers with in the next request is open under the cluster's name.
  pub serve_all-AreOwned :
      (codec : Codec) (file : Option String) (read : Read) (cfg : CoordinatorConfig)
      (reqs : List Request) (name : String)
      → let r = serve_all g 0 reqs (started codec file read cfg) in
        AreOwned (length reqs) r
        × Hands (length reqs + 1) name (client (g.world (length reqs)) g.quote name r)
  serve_all-AreOwned codec file read cfg reqs name =
      let r = started codec file read cfg in
      let h =
        subst (λ k. AreOwned k (serve_all g 0 reqs r)) (omega arith)
          (run-AreOwned 0 reqs r (started-AreOwned codec file read cfg)) in
      (
        h,
        client-Hands (length reqs) (g.world (length reqs)) g.quote name (serve_all g 0 reqs r)
            (numbers (length reqs)) h,
      )

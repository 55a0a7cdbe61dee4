-- ===== src/Coordinator/Restart.antt =====
-- A restart of the coordinator, internal/app/coordinator: what comes back of the registrations that
-- its requests made.
use Prim.Native.Nat.{ℕ, ◌+◌}
use Prim.Native.String.{String}
use mathlib.Core.Bool.{false, ◌||◌}
use mathlib.Core.List.{List, [], ◌∷◌}
use mathlib.Core.Option.{Option, none, some}
use mathlib.Core.Logic.{inl, inr}
use mathlib.Core.Path.{◌≡◌, refl, sym, subst}
use mcp_k8s.Base.{
  ◌==◌, text_keys, Bool-cases, lookup, insert, delete, Distinct, insert-Distinct, delete-Distinct,
  lookup-insert, lookup-delete, eq_of_test,
}
use mcp_k8s.Base.Result.{Result, ok, err}
use mcp_k8s.Proto.{Timestamps}
use mcp_k8s.Registry.{
  ClusterEntry, ClientConn, Registry, World, Codec, Read, values, new_registry, enter_all, load,
  save,
}
use mcp_k8s.Registry.Safety.{IsConsistent, register-entries, unregister-entries}
use mcp_k8s.Registry.Restart.{IsNamed, IsWorking, read_back, load-save}
use mcp_k8s.Config.{CoordinatorConfig}
use mcp_k8s.Gateway.Auth.{require_token}
use mcp_k8s.Gateway.Admin.{
  RegisterRequest, entry_of, admit_register, handle_register, handle_unregister,
}
use mcp_k8s.Coordinator.{
  or_fresh, started, Request, health, query, ask, register_cluster, unregister_cluster,
  list_registry, Gateway, serve, serve_all,
}
use mcp_k8s.Coordinator.Requests.{
  after_query-Keeps, after_ask-Keeps, serve-IsConsistent, started-IsConsistent,
}

-- A map of entries under their own names, no name twice.
abbrev pub IsTidy : List (String × ClusterEntry) → Type 0
IsTidy m = Distinct m × IsNamed m

insert-IsTidy :
    (e : ClusterEntry) (m : List (String × ClusterEntry))
    → IsTidy m
    → IsTidy (insert e.cluster_name e m)
insert-IsTidy e m (d, named) = (
  insert-Distinct e.cluster_name e m d,
  λ k x found. elim (Bool-cases (e.cluster_name == k)) [
    | inl here ↦
        let same : some e ≡ some x = rw (lookup-insert e.cluster_name k e m, here) at found in
        let equal : e ≡ x = cc in
        subst (λ x. x.cluster_name ≡ k) equal (eq_of_test e.cluster_name k here)
    | inr there ↦
        let old : lookup k m ≡ some x = rw (lookup-insert e.cluster_name k e m, there) at found in
        named k x old
  ],
)

delete-IsTidy :
    (name : String) (m : List (String × ClusterEntry)) → IsTidy m → IsTidy (delete name m)
delete-IsTidy name m (d, named) = (
  delete-Distinct name m d,
  λ k x found. elim (Bool-cases (name == k)) [
    | inl here ↦ let no : none ≡ some x = rw (lookup-delete name k m, here) at found in absurd cc
    | inr there ↦
        let old : lookup k m ≡ some x = rw (lookup-delete name k m, there) at found in named k x old
  ],
)

enter_all-IsTidy :
    (es : List ClusterEntry) (m : List (String × ClusterEntry)) → IsTidy m → IsTidy (enter_all m es)
unfolding enter_all
enter_all-IsTidy [] m h = h
enter_all-IsTidy (e ∷ es) m h =
    enter_all-IsTidy es (insert e.cluster_name e m) (insert-IsTidy e m h)

parsed-IsTidy :
    (codec : Codec) (content : String) (r : Registry) (a : Result (List ClusterEntry))
    → codec.parsed content ≡ a
    → IsTidy r.entries
    → IsTidy (or_fresh (load codec (some (ok content)) r) r).entries
unfolding load
parsed-IsTidy codec content r (err why) same h = elim (Bool-cases (r.file_path == "")) [
  | inl memory ↦ rw memory h
  | inr kept ↦ rw (kept, same) h
]
parsed-IsTidy codec content r (ok es) same h = elim (Bool-cases (r.file_path == "")) [
  | inl memory ↦ rw memory h
  | inr kept ↦ rw (kept, same) (enter_all-IsTidy es r.entries h)
]

loaded-IsTidy :
    (codec : Codec) (read : Read) (r : Registry)
    → IsTidy r.entries
    → IsTidy (or_fresh (load codec read r) r).entries
unfolding load
loaded-IsTidy codec none r h = elim (Bool-cases (r.file_path == "")) [
  | inl memory ↦ rw memory h
  | inr kept ↦ rw kept h
]
loaded-IsTidy codec (some (err why)) r h = elim (Bool-cases (r.file_path == "")) [
  | inl memory ↦ rw memory h
  | inr kept ↦ rw kept h
]
loaded-IsTidy codec (some (ok content)) r h =
    parsed-IsTidy codec content r (codec.parsed content) refl h

no_entries-IsTidy : IsTidy []
unfolding lookup
no_entries-IsTidy = (tt, λ k e found. absurd cc)

started-IsTidy :
    (codec : Codec) (file : Option String) (read : Read) (cfg : CoordinatorConfig)
    → IsTidy (started codec file read cfg).entries
unfolding started new_registry
started-IsTidy codec file read cfg =
    loaded-IsTidy codec read (new_registry cfg.registry_file file) no_entries-IsTidy

admit_register-IsTidy :
    (w : World) (decoded : Result RegisterRequest) (r : Registry)
    → IsTidy r.entries
    → IsTidy (admit_register w decoded r).0.entries
unfolding admit_register
admit_register-IsTidy w (err why) r h = h
admit_register-IsTidy w (ok req) r h =
    elim (Bool-cases (req.cluster_name == "" || req.grpc_endpoint == "")) [
      | inl lacking ↦ rw lacking h
      | inr given ↦ rw given (
          subst IsTidy (sym (register-entries w (entry_of req) r))
            (insert-IsTidy (entry_of req) r.entries h))
    ]

module _ {T : Timestamps} (g : Gateway T)
    (dials : (n : ℕ) (endpoint : String) (conn : ClientConn)
      → (g.world n).new_client endpoint ≡ ok conn
      → conn.endpoint ≡ endpoint) where
  serve-IsTidy :
      (n : ℕ) (req : Request) (r : Registry)
      → IsConsistent r
      → IsTidy r.entries
      → IsTidy (serve g n req r).0.entries
  unfolding serve handle_register handle_unregister
  serve-IsTidy n health r h tidy = tidy
  serve-IsTidy n (query now decoded) r h tidy =
      subst IsTidy (sym (after_query-Keeps g dials n now decoded r h).1) tidy
  serve-IsTidy n (ask now decoded) r h tidy =
      subst IsTidy (sym (after_ask-Keeps g dials n g.llm now decoded r h).1) tidy
  serve-IsTidy n (register_cluster auth decoded) r h tidy =
      elim (Bool-cases (require_token g.token auth)) [
        | inl passed ↦ rw passed (admit_register-IsTidy (g.world n) decoded r tidy)
        | inr refused ↦ rw refused tidy
      ]
  serve-IsTidy n (unregister_cluster auth cluster) r h tidy =
      elim (Bool-cases (require_token g.token auth)) [
        | inl passed ↦ rw passed (
            subst IsTidy (sym (unregister-entries (g.world n) cluster r))
              (delete-IsTidy cluster r.entries tidy))
        | inr refused ↦ rw refused tidy
      ]
  serve-IsTidy n list_registry r h tidy = tidy

  serve_all-IsTidy :
      (n : ℕ) (reqs : List Request) (r : Registry)
      → IsConsistent r
      → IsTidy r.entries
      → IsTidy (serve_all g n reqs r).entries
  unfolding serve_all
  serve_all-IsTidy n [] r h tidy = tidy
  serve_all-IsTidy n (req ∷ reqs) r h tidy =
      serve_all-IsTidy (n + 1) reqs (serve g n req r).0 (serve-IsConsistent g dials n req r h)
        (serve-IsTidy n req r h tidy)

  -- Whatever the coordinator started with and whatever requests it has served, if the registry that
  -- it has then is saved to its file, every step of the write succeeds, the content parses back to
  -- the entries that it encodes, and a new connection goes to the endpoint that it is made for, then
  -- a registry that is loaded from the file has the same entry, or none, under every name.
  pub load-serve_all :
      (w : World) (codec : Codec) (file : Option String) (read : Read) (cfg : CoordinatorConfig)
      (reqs : List Request) (r : Registry) (content : String)
      → serve_all g 0 reqs (started codec file read cfg) ≡ r
      → (r.file_path == "") ≡ false
      → IsWorking w.disk
      → w.codec.indented (w.range.order (values r.entries)) ≡ ok content
      → w.codec.parsed content ≡ ok (w.range.order (values r.entries))
      → (t : Registry) × (load w.codec
            (read_back (save w r).file)
            (new_registry r.file_path (save w r).file)
          ≡ ok t)
        × ((k : String) → lookup k t.entries ≡ lookup k r.entries)
  load-serve_all w codec file read cfg reqs r content reached on_disk disk encoded parsed =
      let tidy : IsTidy r.entries =
        subst (λ r. IsTidy r.entries) reached
          (serve_all-IsTidy 0 reqs (started codec file read cfg)
            (started-IsConsistent codec file read cfg) (started-IsTidy codec file read cfg)) in
      load-save w r content tidy.0 tidy.1 on_disk disk encoded parsed

-- ===== src/Gateway/Admin.antt =====
-- internal/app/coordinator/gateway.go: the handlers of the registry, and the health check.
use mcp_k8s.Base.{
  String, ◌≡◌, refl, ◌⊎◌, inl, inr, true, ◌||◌, List, if◌then◌else◌, Bool-cases, ◌==◌, num_keys,
  text_keys, Ranging,
}
use mcp_k8s.Base.Result.{Result, ok, err}
use Prim.Native.String.{◌++◌ as text_append}
use mcp_k8s.Registry.{ClusterEntry, Registry, World, register, unregister, list_entries}
use mcp_k8s.Registry.Safety.{IsConsistent, register_lem, unregister_lem}
use mcp_k8s.Gateway.{status_body, entries_body, Reply, write_error}
use mcp_k8s.Gateway.Auth.{require_token}

pub record RegisterRequest : Type 0 where
  pub cluster_name : String
  pub grpc_endpoint : String
  pub labels : List (String × String)

-- `handleHealth`
abbrev pub handle_health : Reply
handle_health = record { status = 200; body = status_body "ok" }

abbrev pub entry_of : RegisterRequest → ClusterEntry
entry_of req = record {
  cluster_name = req.cluster_name;
  grpc_endpoint = req.grpc_endpoint;
  labels = req.labels;
}

-- `handleRegister` behind the token check; `decoded` is the request body, or the decoder's error.
unfoldable pub admit_register : World → Result RegisterRequest → Registry → Registry × Reply
admit_register w (err why) r = (r, write_error 400 (text_append "invalid request body: " why))
admit_register w (ok req) r =
    if req.cluster_name == "" || req.grpc_endpoint == ""
    then (r, write_error 400 "cluster_name and grpc_endpoint are required")
    else (register w (entry_of req) r, record { status = 200; body = status_body "registered" })

-- `handleRegister`; `token` is the configured one, `auth` the header.
unfoldable pub handle_register :
    World → String → String → Result RegisterRequest → Registry → Registry × Reply
handle_register w token auth decoded r =
    if require_token token auth
    then admit_register w decoded r
    else (r, write_error 401 "invalid or missing token")

-- `handleUnregister`
unfoldable pub handle_unregister : World → String → String → String → Registry → Registry × Reply
handle_unregister w token auth cluster r =
    if require_token token auth
    then (unregister w cluster r, record { status = 200; body = status_body "unregistered" })
    else (r, write_error 401 "invalid or missing token")

-- `handleListRegistry`
unfoldable pub handle_list_registry : Ranging ClusterEntry → Registry → Reply
handle_list_registry range r = record { status = 200; body = entries_body (list_entries range r) }

-- A registry after a request: it is as before, or the request was accepted with the token and
-- answered with 200; and open connections go to registered endpoints if they did before.
abbrev pub IsGuarded : String → String → Registry → Registry × Reply → Type 0
IsGuarded token auth r a =
    IsConsistent a.0 × ((a.0 ≡ r) ⊎ ((require_token token auth ≡ true) × (a.1.status ≡ 200)))

admit_register-IsConsistent :
    (w : World) (decoded : Result RegisterRequest) (r : Registry)
    → IsConsistent r
    → IsConsistent (admit_register w decoded r).0
      × (((admit_register w decoded r).0 ≡ r) ⊎ ((admit_register w decoded r).1.status ≡ 200))
unfolding admit_register
admit_register-IsConsistent w (err why) r h = (h, inl refl)
admit_register-IsConsistent w (ok req) r h =
    elim (Bool-cases (req.cluster_name == "" || req.grpc_endpoint == "")) [
      | inl missing ↦ rw missing (h, inl refl)
      | inr given ↦ rw given ((register_lem w (entry_of req) r h).0, inr refl)
    ]

-- If open connections go to registered endpoints, they do after `handleRegister`, and the registry
-- changes only on a request that passes the token check and is answered with 200.
pub handle_register-IsGuarded :
    (w : World) (token auth : String) (decoded : Result RegisterRequest) (r : Registry)
    → IsConsistent r
    → IsGuarded token auth r (handle_register w token auth decoded r)
unfolding handle_register
handle_register-IsGuarded w token auth decoded r h = elim (Bool-cases (require_token token auth)) [
  | inl passed ↦
      let (kept, change) = admit_register-IsConsistent w decoded r h in
      rw passed (kept, elim change [ inl same ↦ inl same | inr accepted ↦ inr (refl, accepted) ])
  | inr refused ↦ rw refused (h, inl refl)
]

-- If open connections go to registered endpoints, they do after `handleUnregister`, and the
-- registry changes only on a request that passes the token check and is answered with 200.
pub handle_unregister-IsGuarded :
    (w : World) (token auth cluster : String) (r : Registry)
    → IsConsistent r
    → IsGuarded token auth r (handle_unregister w token auth cluster r)
unfolding handle_unregister
handle_unregister-IsGuarded w token auth cluster r h =
    elim (Bool-cases (require_token token auth)) [
      | inl passed ↦ rw passed ((unregister_lem w cluster r h).0, inr (refl, refl))
      | inr refused ↦ rw refused (h, inl refl)
    ]

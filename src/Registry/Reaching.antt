-- ===== src/Registry/Reaching.antt =====
-- Where the connections go that `Client` of internal/app/coordinator/registry.go answers with.
use mcp_k8s.Base.{
  String, ◌≡◌, refl, sym, subst, inl, inr, Option, none, some, Bool-cases, ◌==◌, num_keys,
  text_keys, eq_of_test, lookup, insert, lookup-insert,
}
use mcp_k8s.Base.Result.{Result, ok, err}
use mcp_k8s.Registry.{ClusterEntry, ClientConn, Registry, World, dial, client}
use mcp_k8s.Registry.Safety.{Reaches, IsConsistent}

abbrev pub answered : Result ClientConn → Option ClientConn
answered (ok conn) = some conn
answered (err why) = none

abbrev Connected : String → Registry → Registry × Result ClientConn → Type 0
Connected name r a =
    IsConsistent a.0 × (a.0.entries ≡ r.entries) × Reaches (lookup name r.entries) (answered a.1)

-- A new connection under the name of an entry.
dial-IsConsistent :
    (name : String) (e : ClusterEntry) (conn : ClientConn) (r : Registry)
    → IsConsistent r
    → lookup name r.entries ≡ some e
    → conn.endpoint ≡ e.grpc_endpoint
    → IsConsistent (record r { conns = insert name conn r.conns })
dial-IsConsistent name e conn r h found reaches = λ k. elim (Bool-cases (name == k)) [
  | inl here ↦
      let at : lookup k r.entries ≡ some e =
        subst (λ j. lookup j r.entries ≡ some e) (eq_of_test name k here) found in
      rw (lookup-insert name k conn r.conns, here, at) reaches
  | inr there ↦ rw (lookup-insert name k conn r.conns, there) (h k)
]

module _ (w : World) (quote : String → String) (name : String) (r : Registry)
    (dials : (endpoint : String) (conn : ClientConn)
      → w.new_client endpoint ≡ ok conn
      → conn.endpoint ≡ endpoint)
    (h : IsConsistent r) where
  dialled :
      (e : ClusterEntry)
      → lookup name r.entries ≡ some e
      → (a : Result ClientConn) → w.new_client e.grpc_endpoint ≡ a
      → Connected name r (dial w name e r)
  unfolding dial
  dialled e found (err why) same = rw (same, dial) (h, refl, tt)
  dialled e found (ok conn) same =
      let reaches : conn.endpoint ≡ e.grpc_endpoint = dials e.grpc_endpoint conn same in
      rw (same, dial, found) (dial-IsConsistent name e conn r h found reaches, refl, reaches)

  entered :
      (o : Option ClusterEntry)
      → lookup name r.entries ≡ o
      → lookup name r.conns ≡ none
      → Connected name r (client w quote name r)
  unfolding client
  entered none unknown no_conn = rw (no_conn, client, unknown) (h, refl, tt)
  entered (some e) found no_conn =
      let same : client w quote name r ≡ dial w name e r = rw (no_conn, client, found) refl in
      subst (Connected name r) (sym same) (dialled e found (w.new_client e.grpc_endpoint) refl)

  connected :
      (o : Option ClientConn) → lookup name r.conns ≡ o → Connected name r (client w quote name r)
  unfolding client
  connected none no_conn = entered (lookup name r.entries) refl no_conn
  connected (some conn) open_conn =
      rw (open_conn, client) (h, refl, subst (Reaches (lookup name r.entries)) open_conn (h name))

  -- If a new connection goes to the endpoint that it is made for, and every open connection to the
  -- registered one, then after `Client` every open connection still does, the entries are the same,
  -- and a connection that is returned goes to the registered endpoint of the cluster.
  pub client_lem :
      IsConsistent (client w quote name r).0
      × ((client w quote name r).0.entries ≡ r.entries)
      × Reaches (lookup name r.entries) (answered (client w quote name r).1)
  client_lem = connected (lookup name r.conns) refl

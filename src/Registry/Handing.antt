-- ===== src/Registry/Handing.antt =====
-- What the operations of internal/app/coordinator/registry.go do with connections: none is handed out
-- after its close.
use Prim.Native.Nat.{ℕ, ◌+◌}
use Prim.Native.String.{String}
use mathlib.Core.Bool.{false}
use mathlib.Core.List.{List}
use mathlib.Core.Option.{some}
use mathlib.Core.Logic.{inl, inr}
use mathlib.Core.Path.{◌≡◌, refl}
use mcp_k8s.Base.{
  ◌==◌, num_keys, text_keys, Bool-cases, Option-cases, lookup, insert, delete, lookup-insert_self,
}
use mcp_k8s.Base.Result.{Result, ok, err}
use mcp_k8s.Registry.{
  ClusterEntry, ClientConn, Registry, World, values, save, drop_conn, register, unregister, dial,
  client,
}
use mcp_k8s.Registry.Connections.{
  AreOwned, same-AreOwned, later-AreOwned, close_conn-AreOwned, open_conn-AreOwned,
}

saved_conns :
    (w : World) (r : Registry) (a : Result String)
    → w.codec.indented (w.range.order (values r.entries)) ≡ a
    → ((save w r).conns ≡ r.conns) × ((save w r).closed ≡ r.closed)
unfolding save
saved_conns w r a same = elim (Bool-cases (r.file_path == "")) [
  | inl memory ↦ rw memory (refl, refl)
  | inr kept ↦ go a same kept
]
  where
    go :
        (a : Result String)
        → w.codec.indented (w.range.order (values r.entries)) ≡ a
        → (r.file_path == "") ≡ false
        → ((save w r).conns ≡ r.conns) × ((save w r).closed ≡ r.closed)
    go (err why) same kept = rw (save, kept, same) (refl, refl)
    go (ok content) same kept = rw (save, kept, same) (refl, refl)

drop_conn-AreOwned :
    (n : ℕ) (name : String) (r : Registry) → AreOwned n r → AreOwned n (drop_conn name r)
unfolding drop_conn
drop_conn-AreOwned n name r h = elim (Option-cases (lookup name r.conns)) [
  | inl missing ↦ rw (drop_conn, missing) h
  | inr (conn, open_conn) ↦
      rw (drop_conn, open_conn) (close_conn-AreOwned n name conn r open_conn h)
]

-- A save of changed entries.
save-AreOwned :
    (n : ℕ) (w : World) (r : Registry) (entries : List (String × ClusterEntry))
    → AreOwned n r
    → AreOwned n (save w (record r { entries = entries }))
save-AreOwned n w r entries h =
    let t : Registry = record r { entries = entries } in
    let (conns, closed) = saved_conns w t _ refl in same-AreOwned n r (save w t) conns closed h

pub register-AreOwned :
    (n : ℕ) (w : World) (e : ClusterEntry) (r : Registry)
    → AreOwned n r
    → AreOwned n (register w e r)
unfolding register
register-AreOwned n w e r h =
    let s = drop_conn e.cluster_name r in
    save-AreOwned n w s (insert e.cluster_name e s.entries)
      (drop_conn-AreOwned n e.cluster_name r h)

pub unregister-AreOwned :
    (n : ℕ) (w : World) (name : String) (r : Registry)
    → AreOwned n r
    → AreOwned n (unregister w name r)
unfolding unregister
unregister-AreOwned n w name r h =
    let s = drop_conn name r in
    save-AreOwned n w s (delete name s.entries) (drop_conn-AreOwned n name r h)

-- A connection that is returned is open under the name.
abbrev pub IsOpen : String → Registry → Result ClientConn → Type 0
IsOpen name r (err why) = Unit
IsOpen name r (ok conn) = lookup name r.conns ≡ some conn

abbrev pub Hands : ℕ → String → Registry × Result ClientConn → Type 0
Hands n name a = AreOwned n a.0 × IsOpen name a.0 a.1

module _ (n : ℕ) (w : World) (quote : String → String) (name : String) (r : Registry)
    (numbers : (endpoint : String) (conn : ClientConn)
      → w.new_client endpoint ≡ ok conn
      → conn.number ≡ n)
    (h : AreOwned n r) where
  dial-Hands :
      (e : ClusterEntry) (a : Result ClientConn)
      → w.new_client e.grpc_endpoint ≡ a
      → Hands (n + 1) name (dial w name e r)
  unfolding dial
  dial-Hands e (err why) same = rw (dial, same) (later-AreOwned n r h, tt)
  dial-Hands e (ok conn) same =
      rw (dial, same)
        (
          open_conn-AreOwned n name conn r (numbers e.grpc_endpoint conn same) h,
          lookup-insert_self name conn r.conns,
        )

  pub client-Hands : Hands (n + 1) name (client w quote name r)
  unfolding client
  client-Hands = elim (Option-cases (lookup name r.conns)) [
    | inr (conn, open_conn) ↦ rw (client, open_conn) (later-AreOwned n r h, open_conn)
    | inl no_conn ↦ elim (Option-cases (lookup name r.entries)) [
      | inl unknown ↦ rw (client, no_conn, unknown) (later-AreOwned n r h, tt)
      | inr (e, found) ↦
          rw (client, no_conn, found) (dial-Hands e (w.new_client e.grpc_endpoint) refl)
    ]
  ]

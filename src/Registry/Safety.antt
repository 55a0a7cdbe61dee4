-- ===== src/Registry/Safety.antt =====
-- What the operations of internal/app/coordinator/registry.go keep: an open connection goes to
-- the endpoint that is registered, and the file is never half written.
use mcp_k8s.Base.{
  String, ◌≡◌, refl, sym, ap, subst, ◌∙◌, ◌⊎◌, inl, inr, ◌&&◌, Option, none, some, List, ◌∷◌, arith,
  if◌then◌else◌, Bool-cases, ◌==◌, num_keys, text_keys, eq_of_test, test_self, lookup, insert,
  delete, lookup-insert, lookup-delete,
}
use mcp_k8s.Base.Result.{Result, ok, err}
use mcp_k8s.Registry.{
  ClusterEntry, ClientConn, Registry, Disk, write_file, World, values, save, drop_conn, register,
  unregister,
}

-- A connection under this name goes to the endpoint of the entry under the name.
abbrev pub Reaches : Option ClusterEntry → Option ClientConn → Type 0
Reaches e none = Unit
Reaches none (some conn) = ⊥
Reaches (some e) (some conn) = conn.endpoint ≡ e.grpc_endpoint

abbrev pub IsConsistent : Registry → Type 0
IsConsistent r = (k : String) → Reaches (lookup k r.entries) (lookup k r.conns)

write_file_lem :
    (d : Disk) (content : String) (file : Option String)
    → (write_file d content file ≡ file) ⊎ (write_file d content file ≡ some content)
unfolding write_file
write_file_lem d content file = elim (Bool-cases (d.creates && d.writes && d.closes && d.renames)) [
  | inl all ↦ inr (ground arith)
  | inr some_fail ↦ inl (ground arith)
]

-- What the file holds after a save: what it held, or the whole encoding of the entries.
abbrev pub IsOldOrWhole :
    World → List (String × ClusterEntry) → Option String → Option String → Type 0
IsOldOrWhole w entries old file =
    (file ≡ old)
    ⊎ ((content : String) × (w.codec.indented (w.range.order (values entries)) ≡ ok content)
        × (file ≡ some content))

abbrev Saves : World → Registry → Registry → Type 0
Saves w r t = (t.entries ≡ r.entries) × (t.conns ≡ r.conns) × IsOldOrWhole w r.entries r.file t.file

save_written :
    (w : World) (r : Registry) (a : Result String)
    → w.codec.indented (w.range.order (values r.entries)) ≡ a
    → Saves w r
        (elim a [ err why ↦ r | ok content ↦ record r { file = write_file w.disk content r.file } ])
save_written w r (err why) same = (refl, refl, inl refl)
save_written w r (ok content) same = elim (write_file_lem w.disk content r.file) [
  | inl old ↦ (refl, refl, inl old)
  | inr new ↦ (refl, refl, inr (content, same, new))
]

save_lem : (w : World) (r : Registry) → Saves w r (save w r)
unfolding save
save_lem w r = elim (Bool-cases (r.file_path == "")) [
  | inl memory ↦ rw memory (refl, refl, inl refl)
  | inr kept ↦ rw kept (save_written w r _ refl)
]

absent-if :
    (name k : String) (conns : List (String × ClientConn))
    → lookup name conns ≡ none
    → lookup k conns ≡ (if name == k then none else lookup k conns)
absent-if name k conns absent = elim (Bool-cases (name == k)) [
  | inl here ↦
      let same : name ≡ k = eq_of_test name k here in
      rw here (subst (λ j. lookup j conns ≡ none) same absent)
  | inr there ↦ rw there refl
]

Drops : String → Registry → Registry → Type 0
Drops name r t =
    (t.entries ≡ r.entries)
    × (t.file ≡ r.file)
    × ((k : String) → lookup k t.conns ≡ (if name == k then none else lookup k r.conns))

dropped :
    (name : String) (r : Registry) (o : Option ClientConn)
    → lookup name r.conns ≡ o
    → Drops name r (elim o [
      | none ↦ r
      | some conn ↦ record r { conns = delete name r.conns; closed = conn ∷ r.closed }
    ])
unfolding Drops
dropped name r none absent = (refl, refl, λ k. absent-if name k r.conns absent)
dropped name r (some conn) found = (refl, refl, λ k. lookup-delete name k r.conns)

drop_conn_lem : (name : String) (r : Registry) → Drops name r (drop_conn name r)
unfolding drop_conn
drop_conn_lem name r = dropped name r (lookup name r.conns) refl

-- A registry that differs only under one name, which has no connection.
agree-IsConsistent :
    (name : String) (o : Option ClusterEntry) (r t : Registry)
    → IsConsistent r
    → ((k : String) → lookup k t.entries ≡ (if name == k then o else lookup k r.entries))
    → ((k : String) → lookup k t.conns ≡ (if name == k then none else lookup k r.conns))
    → IsConsistent t
agree-IsConsistent name o r t h entries conns = λ k. elim (Bool-cases (name == k)) [
  | inl here ↦ rw (conns k, here) tt
  | inr there ↦ rw (entries k, conns k, there) (h k)
]

Written : World → String → Option ClusterEntry → Registry → Registry → Type 0
Written w name o r t =
    IsConsistent t
    × (lookup name t.entries ≡ o)
    × (lookup name t.conns ≡ none)
    × IsOldOrWhole w t.entries r.file t.file

-- A save after the connection is dropped and the entries are changed under its name.
save-Written :
    (w : World) (name : String) (o : Option ClusterEntry) (r : Registry)
    (entries : List (String × ClusterEntry))
    → IsConsistent r
    → ((k : String) → lookup k entries ≡ (if name == k then o else lookup k r.entries))
    → Written w name o r (save w (record (drop_conn name r) { entries = entries }))
unfolding Written Drops
save-Written w name o r entries h changed =
    let u = record (drop_conn name r) { entries = entries } in
    let (same_entries, same_conns, file) = save_lem w u in
    let (_, old_file, conns) = drop_conn_lem name r in
    let all_entries : (k : String)
        → lookup k (save w u).entries ≡ (if name == k then o else lookup k r.entries) =
      λ k. ap (lookup k) same_entries ∙ changed k in
    let all_conns : (k : String)
        → lookup k (save w u).conns ≡ (if name == k then none else lookup k r.conns) =
      λ k. ap (lookup k) same_conns ∙ conns k in
    (
      agree-IsConsistent name o r (save w u) h all_entries all_conns,
      all_entries name ∙ ap (λ b. if b then o else lookup name r.entries) (test_self name),
      all_conns name ∙ ap (λ b. if b then none else lookup name r.conns) (test_self name),
      subst (λ old. IsOldOrWhole w (save w u).entries old (save w u).file) old_file
          (subst (λ es. IsOldOrWhole w es u.file (save w u).file) (sym same_entries) file),
    )

-- If every open connection goes to the registered endpoint, then that is so after `Register`; the
-- cluster has the new entry and no connection, and the file holds what it held or the whole
-- encoding of the new entries.
pub register_lem :
    (w : World) (e : ClusterEntry) (r : Registry)
    → IsConsistent r
    → IsConsistent (register w e r)
      × (lookup e.cluster_name (register w e r).entries ≡ some e)
      × (lookup e.cluster_name (register w e r).conns ≡ none)
      × IsOldOrWhole w (register w e r).entries r.file (register w e r).file
unfolding register Written Drops
register_lem w e r h =
    save-Written w e.cluster_name (some e) r
      (insert e.cluster_name e (drop_conn e.cluster_name r).entries) h
      λ k.
        lookup-insert e.cluster_name k e (drop_conn e.cluster_name r).entries
        ∙ ap (λ es. if e.cluster_name == k then some e else lookup k es)
            (drop_conn_lem e.cluster_name r).0

-- If every open connection goes to the registered endpoint, then that is so after `Unregister`;
-- the cluster has no entry and no connection, and the file holds what it held or the whole encoding
-- of the entries that are left.
pub unregister_lem :
    (w : World) (name : String) (r : Registry)
    → IsConsistent r
    → IsConsistent (unregister w name r)
      × (lookup name (unregister w name r).entries ≡ none)
      × (lookup name (unregister w name r).conns ≡ none)
      × IsOldOrWhole w (unregister w name r).entries r.file (unregister w name r).file
unfolding unregister Written Drops
unregister_lem w name r h =
    save-Written w name none r (delete name (drop_conn name r).entries) h λ k.
      lookup-delete name k (drop_conn name r).entries
      ∙ ap (λ es. if name == k then none else lookup k es) (drop_conn_lem name r).0

pub register-entries :
    (w : World) (e : ClusterEntry) (r : Registry)
    → (register w e r).entries ≡ insert e.cluster_name e r.entries
unfolding register Drops
register-entries w e r =
    let s = drop_conn e.cluster_name r in
    (save_lem w (record s { entries = insert e.cluster_name e s.entries })).0
    ∙ ap (insert e.cluster_name e) (drop_conn_lem e.cluster_name r).0

pub unregister-entries :
    (w : World) (name : String) (r : Registry)
    → (unregister w name r).entries ≡ delete name r.entries
unfolding unregister Drops
unregister-entries w name r =
    let s = drop_conn name r in
    (save_lem w (record s { entries = delete name s.entries })).0
    ∙ ap (delete name) (drop_conn_lem name r).0

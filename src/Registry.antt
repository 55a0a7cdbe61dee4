-- ===== src/Registry.antt =====
-- internal/app/coordinator/registry.go: the registered agents, their connections, and the file
-- that keeps them. The mutex makes each operation one step.
pub mod Safety
pub mod Reaching
pub mod Restart
pub mod Saving
pub mod Connections
pub mod Handing
use mcp_k8s.Base.{
  ℕ, String, Bool, not, Option, none, some, List, [], ◌∷◌, if◌then◌else◌, ◌==◌, num_keys, text_keys,
  lookup, insert, delete, Ranging,
}
use Prim.Native.String.{◌++◌ as text_append}
use mcp_k8s.Base.Result.{Result, ok, err}

pub record ClusterEntry : Type 0 where
  pub cluster_name : String
  pub grpc_endpoint : String
  pub labels : List (String × String)

-- A connection: its endpoint, and a number that tells connections apart.
pub record ClientConn : Type 0 where
  pub endpoint : String
  pub number : ℕ

-- `closed` lists the connections that `Close` was called on. `file` is what the registry file
-- holds, if it exists.
pub record Registry : Type 0 where
  pub entries : List (String × ClusterEntry)
  pub conns : List (String × ClientConn)
  pub file_path : String
  pub file : Option String
  pub closed : List ClientConn

-- `NewRegistry`
unfoldable pub new_registry : String → Option String → Registry
new_registry file_path file = record {
  entries = [];
  conns = [];
  file_path = file_path;
  file = file;
  closed = [];
}

-- The package encoding/json on a list of entries; `indented` may fail.
pub record Codec : Type 0 where
  pub indented : List ClusterEntry → Result String
  pub parsed : String → Result (List ClusterEntry)

-- What the calls of one `save` answer: whether each step of the write succeeds.
pub record Disk : Type 0 where
  pub creates : Bool
  pub writes : Bool
  pub closes : Bool
  pub renames : Bool

-- The environment of an operation: the order in which `save` ranges over the entries, encoding
-- and disk, and what `grpc.NewClient` answers for an endpoint.
pub record World : Type 1 where
  pub range : Ranging ClusterEntry
  pub codec : Codec
  pub disk : Disk
  pub new_client : String → Result ClientConn

abbrev pub values {ℓ} : {K V : Type ℓ} → List (K × V) → List V
values [] = []
values ((k, v) ∷ m) = v ∷ values m

-- The loop of `Load` over the parsed entries.
unfoldable pub enter_all :
    List (String × ClusterEntry) → List ClusterEntry → List (String × ClusterEntry)
enter_all entries [] = entries
enter_all entries (e ∷ es) = enter_all (insert e.cluster_name e entries) es

-- What `os.ReadFile` answers: `none` when the file does not exist.
abbrev pub Read : Type 0
Read = Option (Result String)

-- `Load`
unfoldable pub load : Codec → Read → Registry → Result Registry
load codec read r = if r.file_path == "" then ok r else elim read [
  | none ↦ ok r
  | some (err why) ↦
      err (text_append "read registry file " (text_append r.file_path (text_append ": " why)))
  | some (ok content) ↦ elim (codec.parsed content) [
    | err why ↦
        err (text_append "parse registry file " (text_append r.file_path (text_append ": " why)))
    | ok es ↦ ok (record r { entries = enter_all r.entries es })
  ]
]

-- The part of `save` behind the encoding: the content goes to a temporary file, which then takes
-- the place of the old one. A step that fails leaves the old file.
unfoldable pub write_file : Disk → String → Option String → Option String
write_file d content file =
    if not d.creates
    then file
    else if not d.writes
    then file
    else if not d.closes
    then file
    else if not d.renames
    then file
    else some content

-- `save`
unfoldable pub save : World → Registry → Registry
save w r =
    if r.file_path == "" then r else elim (w.codec.indented (w.range.order (values r.entries))) [
      | err why ↦ r
      | ok content ↦ record r { file = write_file w.disk content r.file }
    ]

-- The close of a connection of this name, if there is one.
unfoldable pub drop_conn : String → Registry → Registry
drop_conn name r = elim (lookup name r.conns) [
  | none ↦ r
  | some conn ↦ record r { conns = delete name r.conns; closed = conn ∷ r.closed }
]

-- `Register`
unfoldable pub register : World → ClusterEntry → Registry → Registry
register w e r =
    let s = drop_conn e.cluster_name r in
    save w (record s { entries = insert e.cluster_name e s.entries })

-- `Unregister`
unfoldable pub unregister : World → String → Registry → Registry
unregister w name r =
    let s = drop_conn name r in save w (record s { entries = delete name s.entries })

-- `List`; the entries are ranged over in an order that Go leaves open.
unfoldable pub list_entries : Ranging ClusterEntry → Registry → List ClusterEntry
list_entries range r = range.order (values r.entries)

-- The end of `Client`: a new connection to the endpoint of the entry.
unfoldable pub dial : World → String → ClusterEntry → Registry → Registry × Result ClientConn
dial w name e r = elim (w.new_client e.grpc_endpoint) [
  | err why ↦ (r, err (text_append "dial " (text_append e.grpc_endpoint (text_append ": " why))))
  | ok conn ↦ (record r { conns = insert name conn r.conns }, ok conn)
]

-- `Client`; `quote` is the verb `%q`.
unfoldable pub client : World → (String → String) → String → Registry → Registry × Result ClientConn
client w quote name r = elim (lookup name r.conns) [
  | some conn ↦ (r, ok conn)
  | none ↦ elim (lookup name r.entries) [
    | none ↦ (r, err (text_append "cluster " (text_append (quote name) " not registered")))
    | some e ↦ dial w name e r
  ]
]

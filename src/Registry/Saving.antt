-- ===== src/Registry/Saving.antt =====
-- The write of `save` in internal/app/coordinator/registry.go, system call by system call: what
-- the file system shows between two calls, so what a process that is stopped there leaves behind. The
-- source never syncs a file, so what a crash of the machine leaves is not modelled.
use Prim.Native.String.{String}
use mathlib.Core.Bool.{Bool, true, false, not}
use mathlib.Core.List.{List, [], ◌∷◌}
use mathlib.Core.Option.{Option, none, some}
use mathlib.Core.Logic.{inl, inr, ◌⊎◌}
use mathlib.Core.Path.{◌≡◌, refl, sym, subst}
use mcp_k8s.Base.{◌==◌, text_keys, if◌then◌else◌, Bool-cases, All, lookup, Distinct}
use mcp_k8s.Base.Result.{ok}
use mcp_k8s.Registry.{
  ClusterEntry, Registry, World, Codec, Disk, new_registry, values, enter_all, load, write_file,
}
use mcp_k8s.Registry.Restart.{IsNamed, read_back, loaded_file, lookup-enter_all}

-- The registry file and the temporary file of this save, if they exist.
pub record Directory : Type 0 where
  pub file : Option String
  pub temp : Option String

-- What the system calls answer; `partial` is what a write that fails leaves in the file.
pub record Calls : Type 0 where
  pub creates : Bool
  pub writes : Bool
  pub partial : String
  pub closes : Bool
  pub renames : Bool
  pub removes : Bool

-- `_ = os.Remove(tmpName)`
abbrev pub remove_temp : Calls → Directory → Directory
remove_temp c d = record d { temp = if c.removes then none else d.temp }

-- The directory, as the file system shows it, after each call of the part of `save` behind the encoding: `CreateTemp`, `Write`,
-- `Close`, and `Rename` or, on an error, `Remove`.
unfoldable pub save_calls : Calls → String → Directory → List Directory
save_calls c content d =
    let created = record d { temp = some "" } in
    let part = record d { temp = some c.partial } in
    let full = record d { temp = some content } in
    if not c.creates
    then []
    else if not c.writes
    then created ∷ part ∷ part ∷ remove_temp c part ∷ []
    else if not c.closes
    then created ∷ full ∷ full ∷ remove_temp c full ∷ []
    else if not c.renames
    then created ∷ full ∷ full ∷ full ∷ remove_temp c full ∷ []
    else created ∷ full ∷ full ∷ record { file = some content; temp = none } ∷ []

-- The directory behind all calls.
abbrev pub at_end : Directory → List Directory → Directory
at_end d [] = d
at_end d (e ∷ ds) = at_end e ds

-- The calls as the one step of `write_file`.
abbrev pub disk_of : Calls → Disk
disk_of c = record {
  creates = c.creates;
  writes = c.writes;
  closes = c.closes;
  renames = c.renames;
}

-- A directory with the old file or with the whole new one.
abbrev pub IsEither : Option String → String → Directory → Type 0
IsEither old content d = (d.file ≡ old) ⊎ (d.file ≡ some content)

-- After each call of `save` the registry file is the old one or has the whole new content.
pub save_calls-IsEither :
    (c : Calls) (content : String) (d : Directory)
    → All (IsEither d.file content) (save_calls c content d)
unfolding save_calls
save_calls-IsEither c content d = elim (Bool-cases c.creates) [
  | inr fails ↦ rw fails tt
  | inl creates ↦ elim (Bool-cases c.writes) [
    | inr fails ↦ rw (creates, fails) (inl refl, (inl refl, (inl refl, (inl refl, tt))))
    | inl writes ↦ elim (Bool-cases c.closes) [
      | inr fails ↦ rw (creates, writes, fails) (inl refl, (inl refl, (inl refl, (inl refl, tt))))
      | inl closes ↦ elim (Bool-cases c.renames) [
        | inr fails ↦
            rw (creates, writes, closes, fails)
              (inl refl, (inl refl, (inl refl, (inl refl, (inl refl, tt)))))
        | inl renames ↦
            rw (creates, writes, closes, renames) (inl refl, (inl refl, (inl refl, (inr refl, tt))))
      ]
    ]
  ]
]

-- Together the calls do to the registry file what `write_file` does in one step, and they leave no
-- temporary file, if there is none before and `Remove` does not fail.
pub save_calls-write_file :
    (c : Calls) (content : String) (d : Directory)
    → d.temp ≡ none
    → c.removes ≡ true
    → at_end d (save_calls c content d)
      ≡ record { file = write_file (disk_of c) content d.file; temp = none }
unfolding save_calls write_file
save_calls-write_file c content d clean removes = elim (Bool-cases c.creates) [
  | inr fails ↦ rw (fails, write_file) (λ i. record { file = d.file; temp = clean i })
  | inl creates ↦ elim (Bool-cases c.writes) [
    | inr fails ↦ rw (creates, fails, removes, write_file) refl
    | inl writes ↦ elim (Bool-cases c.closes) [
      | inr fails ↦ rw (creates, writes, fails, removes, write_file) refl
      | inl closes ↦ elim (Bool-cases c.renames) [
        | inr fails ↦ rw (creates, writes, closes, fails, removes, write_file) refl
        | inl renames ↦ rw (creates, writes, closes, renames, write_file) refl
      ]
    ]
  ]
]

-- The file is the old one, or a registry that starts on it holds the saved entries, and no others.
abbrev pub Recovers :
    Codec → String → List (String × ClusterEntry) → Option String → Directory → Type 0
Recovers codec path saved old d =
    (d.file ≡ old)
    ⊎ ((t : Registry) × (load codec (read_back d.file) (new_registry path d.file) ≡ ok t)
        × ((k : String) → lookup k t.entries ≡ lookup k saved))

All-imply {ℓ κ} :
    {A : Type ℓ} {P Q : A → Type κ} (f : (a : A) → P a → Q a) (xs : List A) → All P xs → All Q xs
All-imply f [] h = tt
All-imply f (x ∷ xs) (here, rest) = (f x here, All-imply f xs rest)

-- If the entries stand under their names, no name twice, the registry has a file, and the entries
-- are encoded as a content that parses back to them, then after each call of `save`, where the process
-- may be stopped while the machine runs on, the registry file is the old one, or a registry that is
-- loaded from it has the same entry, or none, under every name.
pub save_calls-Recovers :
    (w : World) (r : Registry) (content : String) (c : Calls) (d : Directory)
    → Distinct r.entries
    → IsNamed r.entries
    → (r.file_path == "") ≡ false
    → w.codec.parsed content ≡ ok (w.range.order (values r.entries))
    → All (Recovers w.codec r.file_path r.entries d.file) (save_calls c content d)
unfolding new_registry
save_calls-Recovers w r content c d distinct named on_disk parsed =
    let es = w.range.order (values r.entries) in
    let path = r.file_path in
    All-imply
      (λ e either. elim either [
        | inl old ↦ inl old
        | inr whole ↦ inr (
          record (new_registry path (some content)) { entries = enter_all [] es },
          subst
              (λ file.
                load w.codec (read_back file) (new_registry path file)
                ≡ ok (record (new_registry path (some content)) { entries = enter_all [] es }))
              (sym whole) (loaded_file w.codec path content es on_disk parsed),
          lookup-enter_all r.entries es distinct named (w.range.order-perm (values r.entries)),
        )
      ])
      (save_calls c content d) (save_calls-IsEither c content d)

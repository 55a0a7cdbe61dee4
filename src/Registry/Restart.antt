-- ===== src/Registry/Restart.antt =====
-- What `Load` of internal/app/coordinator/registry.go finds after a restart in a file that `save`
-- wrote.
use Prim.Native.String.{String}
use mathlib.Core.Bool.{true, false}
use mathlib.Core.List.{
  List, [], ◌∷◌, Mem, Perm, eq-or-mem_of_mem-cons, mem-cons_self, mem-cons_of_mem, not-mem-nil,
}
use mathlib.Core.List.Perm
use mathlib.Core.Option.{Option, none, some}
use mathlib.Core.Logic.Or
use mathlib.Core.Logic.{inl, inr, ◌≢◌}
use mathlib.Core.Path.{◌≡◌, refl, sym, ap, subst, ◌∙◌}
use text.Mathlib.TextEquality.{IsScalar-prop}
use mcp_k8s.Base.{
  ◌==◌, text_keys, Bool-cases, Option-cases, lookup, insert, Distinct, lookup-insert, eq_of_test,
  test_self, test_ne,
}
use mcp_k8s.Base.Result.{ok}
use mcp_k8s.Registry.{
  ClusterEntry, Registry, Disk, World, Codec, Read, new_registry, values, enter_all, load,
  write_file, save,
}

entries_set : IsSet (Option ClusterEntry)
entries_set = hlevel IsScalar-prop

-- Every entry stands under its own name.
abbrev pub IsNamed : List (String × ClusterEntry) → Type 0
IsNamed m = (k : String) (e : ClusterEntry) → lookup k m ≡ some e → e.cluster_name ≡ k

-- At most one entry of the list has this name, namely this one.
abbrev IsOnly : String → ClusterEntry → List ClusterEntry → Type 0
IsOnly k e es = (x : ClusterEntry) → Mem x es → x.cluster_name ≡ k → x ≡ e

enter_all_kept :
    (k : String) (e : ClusterEntry) (es : List ClusterEntry) (acc : List (String × ClusterEntry))
    → IsOnly k e es
    → lookup k acc ≡ some e
    → lookup k (enter_all acc es) ≡ some e
unfolding enter_all
enter_all_kept k e [] acc only h = h
enter_all_kept k e (x ∷ es) acc only h =
    enter_all_kept k e es (insert x.cluster_name x acc) (λ y m. only y (mem-cons_of_mem x m))
      (elim (Bool-cases (x.cluster_name == k)) [
        | inl here ↦
            let same = only x mem-cons_self (eq_of_test x.cluster_name k here) in
            rw (lookup-insert x.cluster_name k x acc, here) (ap some same)
        | inr there ↦ rw (lookup-insert x.cluster_name k x acc, there) h
      ])

found_here :
    (k : String) (e x : ClusterEntry) (acc : List (String × ClusterEntry))
    → x ≡ e
    → e.cluster_name ≡ k
    → lookup k (insert x.cluster_name x acc) ≡ some e
found_here k e x acc same name =
    let here : x.cluster_name ≡ k = ap (λ e. e.cluster_name) same ∙ name in
    let test : (x.cluster_name == k) ≡ true =
      subst (λ j. (x.cluster_name == j) ≡ true) here (test_self x.cluster_name) in
    rw (lookup-insert x.cluster_name k x acc, test) (ap some same)

enter_all_found :
    (k : String) (e : ClusterEntry) (es : List ClusterEntry) (acc : List (String × ClusterEntry))
    → IsOnly k e es
    → e.cluster_name ≡ k
    → Mem e es
    → lookup k (enter_all acc es) ≡ some e
unfolding enter_all
enter_all_found k e [] acc only name m = absurd (not-mem-nil m)
enter_all_found k e (x ∷ es) acc only name m =
    let rest =
      enter_all_found k e es (insert x.cluster_name x acc) (λ y n. only y (mem-cons_of_mem x n))
        name in
    Or.elim (entries_set _ _) (eq-or-mem_of_mem-cons m)
      (λ same.
        let here : lookup k (insert x.cluster_name x acc) ≡ some e =
          found_here k e x acc (sym same) name in
        enter_all_kept k e es (insert x.cluster_name x acc) (λ y n. only y (mem-cons_of_mem x n))
          here)
      rest

enter_all_absent :
    (k : String) (es : List ClusterEntry) (acc : List (String × ClusterEntry))
    → ((x : ClusterEntry) → Mem x es → x.cluster_name ≢ k)
    → lookup k (enter_all acc es) ≡ lookup k acc
unfolding enter_all
enter_all_absent k [] acc h = refl
enter_all_absent k (x ∷ es) acc h =
    enter_all_absent k es (insert x.cluster_name x acc) (λ y m. h y (mem-cons_of_mem x m))
    ∙ lookup-insert x.cluster_name k x acc
    ∙ rw (test_ne x.cluster_name k (h x mem-cons_self)) refl

-- What is found behind an entry with another key is found.
lookup_behind :
    (k : String) (v : ClusterEntry) (m : List (String × ClusterEntry)) (j : String)
    (x : ClusterEntry)
    → lookup k m ≡ none
    → lookup j m ≡ some x
    → lookup j ((k, v) ∷ m) ≡ some x
unfolding lookup
lookup_behind k v m j x fresh found = elim (Bool-cases (j == k)) [
  | inl here ↦
      let absent : lookup j m ≡ none =
        subst (λ i. lookup i m ≡ none) (sym (eq_of_test j k here)) fresh in
      absurd cc
  | inr there ↦ rw there found
]

lookup_in_front :
    (k : String) (v e : ClusterEntry) (m : List (String × ClusterEntry))
    → e ≡ v
    → v.cluster_name ≡ k
    → lookup e.cluster_name ((k, v) ∷ m) ≡ some e
unfolding lookup
lookup_in_front k v e m same name =
    let here : e.cluster_name ≡ k = ap (λ e. e.cluster_name) same ∙ name in
    let test : (e.cluster_name == k) ≡ true =
      subst (λ j. (e.cluster_name == j) ≡ true) here (test_self e.cluster_name) in
    rw test (ap some (sym same))

-- An entry of a map stands under its name.
values-lookup :
    (m : List (String × ClusterEntry)) (e : ClusterEntry)
    → Distinct m
    → IsNamed m
    → Mem e (values m)
    → lookup e.cluster_name m ≡ some e
unfolding lookup
values-lookup [] e d named held = absurd (not-mem-nil held)
values-lookup ((k, v) ∷ m) e (fresh, d) named held =
    let head_named : v.cluster_name ≡ k = named k v (rw (test_self k) refl) in
    let tail_named : IsNamed m = λ j x found. named j x (lookup_behind k v m j x fresh found) in
    Or.elim (entries_set _ _) (eq-or-mem_of_mem-cons held)
      (λ same. lookup_in_front k v e m same head_named)
      (λ inside.
        let found = values-lookup m e d tail_named inside in
        lookup_behind k v m e.cluster_name e fresh found)

lookup-values :
    (m : List (String × ClusterEntry)) (k : String) (e : ClusterEntry)
    → lookup k m ≡ some e
    → Mem e (values m)
unfolding lookup
lookup-values [] k e found = absurd cc
lookup-values ((j, v) ∷ m) k e found = elim (Bool-cases (k == j)) [
  | inl here ↦
      let same : some v ≡ some e = rw here at found in
      let equal : v ≡ e = cc in subst (λ e. Mem e (v ∷ values m)) equal mem-cons_self
  | inr there ↦ mem-cons_of_mem v (lookup-values m k e (rw there at found))
]

-- The entries of a map, in whatever order they come, make the same map again.
pub lookup-enter_all :
    (m : List (String × ClusterEntry)) (es : List ClusterEntry)
    → Distinct m
    → IsNamed m
    → Perm es (values m)
    → (k : String) → lookup k (enter_all [] es) ≡ lookup k m
unfolding lookup
lookup-enter_all m es d named same k =
    let stands : (x : ClusterEntry) → Mem x es → lookup x.cluster_name m ≡ some x =
      λ x held. values-lookup m x d named ((Perm.mem_iff same).0 held) in
    elim (Option-cases (lookup k m)) [
      | inl missing ↦
          enter_all_absent k es [] (λ x held name.
            let found : lookup k m ≡ some x =
              subst (λ j. lookup j m ≡ some x) name (stands x held) in
            absurd cc)
          ∙ sym missing
      | inr (e, found) ↦
          enter_all_found k e es []
            (λ x held name.
              let also : lookup k m ≡ some x =
                subst (λ j. lookup j m ≡ some x) name (stands x held) in
              cc)
            (named k e found) ((Perm.mem_iff same).1 (lookup-values m k e found))
          ∙ sym found
    ]

-- Every step of a write to this disk succeeds.
abbrev pub IsWorking : Disk → Type 0
IsWorking d = (d.creates ≡ true) × (d.writes ≡ true) × (d.closes ≡ true) × (d.renames ≡ true)

-- Reading a file that is there succeeds.
abbrev pub read_back : Option String → Read
read_back none = none
read_back (some content) = some (ok content)

saved_file :
    (w : World) (r : Registry) (content : String)
    → (r.file_path == "") ≡ false
    → IsWorking w.disk
    → w.codec.indented (w.range.order (values r.entries)) ≡ ok content
    → (save w r).file ≡ some content
unfolding save write_file
saved_file w r content on_disk (creates, writes, closes, renames) encoded =
    rw (on_disk, encoded, creates, writes, closes, renames) refl

pub loaded_file :
    (codec : Codec) (path content : String) (es : List ClusterEntry)
    → (path == "") ≡ false
    → codec.parsed content ≡ ok es
    → load codec (some (ok content)) (new_registry path (some content))
      ≡ ok (record (new_registry path (some content)) { entries = enter_all [] es })
unfolding load new_registry
loaded_file codec path content es on_disk parsed = rw (on_disk, parsed) refl

-- If the entries stand under their names, no name twice, the registry has a file, every step of the
-- write succeeds, and the entries are encoded as a content that parses back to them, then a registry
-- that is loaded from the file after `save` has the same entry, or none, under every name.
pub load-save :
    (w : World) (r : Registry) (content : String)
    → Distinct r.entries
    → IsNamed r.entries
    → (r.file_path == "") ≡ false
    → IsWorking w.disk
    → w.codec.indented (w.range.order (values r.entries)) ≡ ok content
    → w.codec.parsed content ≡ ok (w.range.order (values r.entries))
    → (t : Registry) × (load w.codec
          (read_back (save w r).file)
          (new_registry r.file_path (save w r).file)
        ≡ ok t)
      × ((k : String) → lookup k t.entries ≡ lookup k r.entries)
unfolding new_registry
load-save w r content d named on_disk disk encoded parsed =
    let es = w.range.order (values r.entries) in
    (
      record (new_registry r.file_path (some content)) { entries = enter_all [] es },
      subst
          (λ file.
            load w.codec (read_back file) (new_registry r.file_path file)
            ≡ ok (record (new_registry r.file_path (some content)) { entries = enter_all [] es }))
          (sym (saved_file w r content on_disk disk encoded))
          (loaded_file w.codec r.file_path content es on_disk parsed),
      lookup-enter_all r.entries es d named (w.range.order-perm (values r.entries)),
    )

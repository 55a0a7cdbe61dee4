-- ===== src/Store/Summary.antt =====
-- `Store.SummarizeNamespace` of pkg/store/store.go.
use mcp_k8s.Base.{
  ℕ, String, none, some, List, [], ◌∷◌, text_keys, if◌then◌else◌, add_key, lookup, insert, keys,
  or_else, add32, Ranging,
}
use mcp_k8s.Event.{NormalizedEvent, Time, after}
use mcp_k8s.Store.{Store}
use mcp_k8s.Store.Query.{query}

pub record Group : Type 0 where
  pub count : ℕ
  pub objects : List String
  pub last_seen : Time

pub record NamespaceSummary : Type 0 where
  pub reason : String
  pub total_count : ℕ
  pub objects : List String
  pub last_seen : Time

abbrev pub new_group : Group
new_group = record { count = 0; objects = []; last_seen = 0 }

unfoldable pub add_to_group : Group → NormalizedEvent → Group
add_to_group g e = record {
  count = add32 g.count e.count;
  objects = add_key e.involved_object_name g.objects;
  last_seen = if after e.last_seen g.last_seen then e.last_seen else g.last_seen;
}

-- The loop that fills `groups`.
unfoldable pub group_events : List (String × Group) → List NormalizedEvent → List (String × Group)
group_events groups [] = groups
group_events groups (e ∷ evs) =
    group_events
      (insert e.reason (add_to_group (or_else (lookup e.reason groups) new_group) e) groups) evs

-- The loop that lists them.
unfoldable pub list_groups :
    Ranging String → List (String × Group) → List String → List NamespaceSummary
list_groups objs groups [] = []
list_groups objs groups (reason ∷ reasons) =
    let rest = list_groups objs groups reasons in
    elim (lookup reason groups) [
      | none ↦ rest
      | some g ↦
          record {
            reason = reason;
            total_count = g.count;
            objects = objs.order g.objects;
            last_seen = g.last_seen;
          }
          ∷ rest
    ]

-- `SummarizeNamespace`; three maps are ranged over, each in an order that Go leaves open.
unfoldable pub summarize_namespace :
    Ranging ℕ → Ranging String → Ranging String → Store → String → Time → List NamespaceSummary
summarize_namespace ids reasons objs s namespace since =
    let evs =
      query ids s (record {
        namespace = namespace;
        object_uid = "";
        reason = "";
        since = since;
        limit = 0;
      }) in
    let groups = group_events [] evs in list_groups objs groups (reasons.order (keys groups))

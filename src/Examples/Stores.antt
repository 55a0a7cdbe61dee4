-- ===== src/Examples/Stores.antt =====
-- Examples of the deduplicator and the store.
use mcp_k8s.Base.{
  ◌+◌, ◌≤◌, ◌≡◌, some, List, [], ◌∷◌, Perm, arith, if◌then◌else◌, num_keys, text_keys, take, keep,
  lookup, in_order, is_pos,
}
use mcp_k8s.Event.{NormalizedEvent, key_of, dedup_keys}
use mcp_k8s.Event.Dedup.{new as new_deduplicator, merge_all, merged, stream, lookup-merge_all}
use mcp_k8s.Store.{Store, add}
use mcp_k8s.Store.Query.{Filter, query}
use mcp_k8s.Store.Adds.{add-IsValid}
use mcp_k8s.Store.Invariant.{IsValid}
use mcp_k8s.Store.View.{view, add_episode}
use mcp_k8s.Store.Refinement.{view-add}
use mcp_k8s.Store.Sorting.{IsNewestFirst}
use mcp_k8s.Store.Answers.{matches, stored}
use mcp_k8s.Store.Selection.{query_lem}
use mcp_k8s.Examples.{
  back_off, back_off_again, pulled, scheduled, full_store, full_store-next_id, full_store-IsValid,
}

view-add_example :
    (t : Store) × (add full_store scheduled ≡ some t)
    × (view t ≡ add_episode full_store.max_size scheduled (view full_store))
view-add_example =
    view-add full_store scheduled full_store-IsValid (omega (arith, full_store-next_id))

add-IsValid_example :
    (t : Store) × (add full_store scheduled ≡ some t)
    × IsValid t
    × (t.next_id ≤ full_store.next_id + 1)
add-IsValid_example =
    add-IsValid full_store scheduled full_store-IsValid (omega (arith, full_store-next_id))

abbrev recent_shop : Filter
recent_shop = record {
  namespace = "shop";
  object_uid = "";
  reason = "";
  since = 3_000_000_000;
  limit = 1;
}

query_lem_example :
    (all : List NormalizedEvent) × Perm all (keep (matches recent_shop) (stored full_store.by_id))
    × IsNewestFirst all
    × (query in_order full_store recent_shop
        ≡ (if is_pos recent_shop.limit then take recent_shop.limit all else all))
query_lem_example = query_lem in_order full_store recent_shop full_store-IsValid

lookup-merge_all_example :
    lookup (key_of back_off) (merge_all new_deduplicator (back_off ∷ pulled ∷ back_off_again ∷ []))
    ≡ merged
        (lookup (key_of back_off) new_deduplicator)
        (stream (key_of back_off) (back_off ∷ pulled ∷ back_off_again ∷ []))
lookup-merge_all_example =
    lookup-merge_all new_deduplicator (back_off ∷ pulled ∷ back_off_again ∷ []) (key_of back_off)

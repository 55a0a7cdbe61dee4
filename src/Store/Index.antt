-- ===== src/Store/Index.antt =====
-- An inverted index holds, for each key, exactly the ids of the stored events with that key.
use mcp_k8s.Base.{
  ℕ, ◌≡◌, Bool, true, false, not, ◌&&◌, String, Option, none, some, List, [], ◌∷◌, ◌==◌, num_keys,
  text_keys, if◌then◌else◌, contains, add_key, remove_key, NoRepeat, lookup, insert, delete,
  lookup-insert, lookup-delete, contains-add_key, contains-remove_key, add_key-NoRepeat,
  remove_key-NoRepeat, arith,
}
use mcp_k8s.Event.{NormalizedEvent}
use mcp_k8s.Store.{Index, bucket, without, add_to_index, remove_from_index}

-- Whether a stored event has the key in the field, and the key is not the empty text.
abbrev pub has_key : (NormalizedEvent → String) → String → Option NormalizedEvent → Bool
has_key f k none = false
has_key f k (some e) = not (k == "") && f e == k

pub record IsIndex (f : NormalizedEvent → String) (by_id : List (ℕ × NormalizedEvent)) (idx : Index)
    : Type 0 where
  pub exact : (k : String) (id : ℕ) → contains id (bucket k idx) ≡ has_key f k (lookup id by_id)
  pub distinct : (k : String) → NoRepeat (bucket k idx)

contains-bucket-without :
    (idx : Index) (key k : String) (ids : List ℕ) (id : ℕ)
    → contains id (bucket k (without idx key ids))
      ≡ (if key == k then contains id ids else contains id (bucket k idx))
unfolding without
contains-bucket-without idx key k [] id = ground (arith, lookup-delete key k idx)
contains-bucket-without idx key k (x ∷ ids) id = ground (arith, lookup-insert key k (x ∷ ids) idx)

NoRepeat-bucket-without :
    (idx : Index) (key k : String) (ids : List ℕ)
    → NoRepeat ids
    → NoRepeat (bucket k idx)
    → NoRepeat (bucket k (without idx key ids))
unfolding without
NoRepeat-bucket-without idx key k [] d e = ground (arith, lookup-delete key k idx)
NoRepeat-bucket-without idx key k (x ∷ ids) d e = ground (arith, lookup-insert key k (x ∷ ids) idx)

pub contains-bucket-remove_from_index :
    (idx : Index) (key k : String) (id j : ℕ)
    → contains j (bucket k (remove_from_index idx key id))
      ≡ (if (key == k) && (id == j) then false else contains j (bucket k idx))
unfolding remove_from_index
contains-bucket-remove_from_index idx key k id j = ground (
  arith,
  contains-bucket-without idx key k (remove_key id (bucket key idx)) j,
  contains-remove_key id j (bucket key idx),
  text_keys.test_iff key k,
)

pub contains-bucket-add_to_index :
    (idx : Index) (key k : String) (id j : ℕ)
    → contains j (bucket k (add_to_index idx key id))
      ≡ (if not (key == "") && (key == k) && (id == j) then true else contains j (bucket k idx))
unfolding add_to_index
contains-bucket-add_to_index idx key k id j = ground (
  arith,
  lookup-insert key k (add_key id (bucket key idx)) idx,
  contains-add_key id j (bucket key idx),
  text_keys.test_iff key k,
)

NoRepeat-bucket-remove_from_index :
    (idx : Index) (key k : String) (id : ℕ)
    → ((j : String) → NoRepeat (bucket j idx))
    → NoRepeat (bucket k (remove_from_index idx key id))
unfolding remove_from_index
NoRepeat-bucket-remove_from_index idx key k id d = ground (
  arith,
  d k,
  NoRepeat-bucket-without idx key k (remove_key id (bucket key idx))
      (remove_key-NoRepeat id (bucket key idx) (d key)) (d k),
)

NoRepeat-bucket-add_to_index :
    (idx : Index) (key k : String) (id : ℕ)
    → ((j : String) → NoRepeat (bucket j idx))
    → NoRepeat (bucket k (add_to_index idx key id))
unfolding add_to_index
NoRepeat-bucket-add_to_index idx key k id d = ground (
  arith,
  d k,
  add_key-NoRepeat id (bucket key idx) (d key),
  lookup-insert key k (add_key id (bucket key idx)) idx,
)

module _ (f : NormalizedEvent → String) (by_id : List (ℕ × NormalizedEvent)) (idx : Index) where
  pub remove-IsIndex :
      (id : ℕ) (e : NormalizedEvent)
      → lookup id by_id ≡ some e
      → IsIndex f by_id idx
      → IsIndex f (delete id by_id) (remove_from_index idx (f e) id)
  remove-IsIndex id e found h = record {
    exact = λ k j. ground (
      arith,
      contains-bucket-remove_from_index idx (f e) k id j,
      lookup-delete id j by_id,
      h.exact k j,
      text_keys.test_iff (f e) k,
    );
    distinct = λ k. NoRepeat-bucket-remove_from_index idx (f e) k id h.distinct;
  }

  pub add-IsIndex :
      (id : ℕ) (e : NormalizedEvent)
      → lookup id by_id ≡ none
      → IsIndex f by_id idx
      → IsIndex f (insert id e by_id) (add_to_index idx (f e) id)
  add-IsIndex id e missing h = record {
    exact = λ k j. ground (
      arith,
      contains-bucket-add_to_index idx (f e) k id j,
      lookup-insert id j e by_id,
      h.exact k j,
      text_keys.test_iff (f e) k,
      text_keys.test_iff (f e) "",
      text_keys.test_iff k "",
    );
    distinct = λ k. NoRepeat-bucket-add_to_index idx (f e) k id h.distinct;
  }

  pub update-IsIndex :
      (id : ℕ) (old new : NormalizedEvent)
      → lookup id by_id ≡ some old
      → f new ≡ f old
      → IsIndex f by_id idx
      → IsIndex f (insert id new by_id) idx
  update-IsIndex id old new found same h = record {
    exact = λ k j. ground (arith, lookup-insert id j new by_id, h.exact k j);
    distinct = h.distinct;
  }

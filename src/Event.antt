-- ===== src/Event.antt =====
-- pkg/events/events.go: the event that the agent stores and the coordinator analyses.
--
-- A `time.Time` is the number of nanoseconds since Go's zero time, so the zero time is 0. An
-- int32 is its bit pattern.
pub mod Dedup
pub mod Normalize
use mcp_k8s.Base.{All, Perm, ◌≤◌, [], ◌∷◌}
use mcp_k8s.Base.{ℕ, ◌≡◌, ◌↔◌, Bool, true, ◌&&◌, String, List, arith, Eq, ◌==◌, text_keys}
use mcp_k8s.Base.{num_eq, ltb}

-- `time.Time`
abbrev pub Time : Type 0
Time = ℕ

abbrev pub is_zero : Time → Bool
is_zero t = num_eq t 0

abbrev pub before : Time → Time → Bool
before t u = ltb t u

abbrev pub after : Time → Time → Bool
after t u = ltb u t

pub record OwnerRef : Type 0 where
  pub kind : String
  pub name : String
  pub uid : String

pub record NormalizedEvent : Type 0 where
  pub cluster_name : String
  pub namespace : String
  pub involved_object_kind : String
  pub involved_object_name : String
  pub involved_object_uid : String
  pub owner_chain : List OwnerRef
  pub reason : String
  pub message : String
  pub count : ℕ
  pub first_seen : Time
  pub last_seen : Time

-- `dedupKey`: one stream of events, of one object for one reason.
pub record DedupKey : Type 0 where
  pub object_uid : String
  pub reason : String

abbrev pub key_of : NormalizedEvent → DedupKey
key_of e = record { object_uid = e.involved_object_uid; reason = e.reason }

abbrev pub key_test : DedupKey → DedupKey → Bool
key_test k j = (k.object_uid == j.object_uid) && (k.reason == j.reason)

pub key_test_iff : (k j : DedupKey) → (key_test k j ≡ true) ↔ (k ≡ j)
key_test_iff k j =
    ground
      (arith, text_keys.test_iff k.object_uid j.object_uid, text_keys.test_iff k.reason j.reason)

instance abbrev pub dedup_keys : Eq DedupKey
dedup_keys = record { test = key_test; test_iff = key_test_iff }

-- What `sort.Slice` by time gives: the same elements, oldest first. It need not be stable, so
-- any function with these laws may stand for it.
abbrev pub OldestFirst {ℓ} : {A : Type ℓ} → (A → Time) → List A → Type 0
OldestFirst time [] = Unit
OldestFirst time (x ∷ xs) = All (λ y. time x ≤ time y) xs × OldestFirst time xs

pub record Sorting {ℓ} (A : Type ℓ) (time : A → Time) : Type ℓ where
  pub sort : List A → List A
  pub sort-perm : (xs : List A) → Perm (sort xs) xs
  pub sort-OldestFirst : (xs : List A) → OldestFirst time (sort xs)

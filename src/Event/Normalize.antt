-- ===== src/Event/Normalize.antt =====
-- pkg/events/normalize.go: a Kubernetes event becomes a `NormalizedEvent`. With the functions of
-- the package strings that it calls, on texts of valid UTF-8.
pub mod Words
use Prim.Native.Char.{Char, code}
use Prim.Native.Nat.{ℕ}
use Prim.Native.String.{String, ◌++◌}
use mathlib.Core.Bool.{Bool, true, false, ◌&&◌, ◌||◌, not}
use mathlib.Core.List.{List, [], ◌∷◌}
use mcp_k8s.Base.{◌==◌, text_keys, num_keys, leb, if◌then◌else◌}
use mcp_k8s.Event.{Time, is_zero, NormalizedEvent}

-- `corev1.Event`, the fields that are read.
pub record RawEvent : Type 0 where
  pub namespace : String
  pub involved_object_kind : String
  pub involved_object_name : String
  pub involved_object_uid : String
  pub reason : String
  pub message : String
  pub count : ℕ
  pub first_timestamp : Time
  pub last_timestamp : Time
  pub event_time : Time

-- `unicode.IsSpace`
abbrev pub is_space_code : ℕ → Bool
is_space_code n =
    (leb 9 n && leb n 13)
    || n == 32
    || n == 133
    || n == 160
    || n == 5760
    || (leb 8192 n && leb n 8202)
    || n == 8232
    || n == 8233
    || n == 8239
    || n == 8287
    || n == 12288

unfoldable pub is_space : Char → Bool
is_space c = is_space_code (code c)

-- `strings.TrimSpace` from the left, and from the right.
unfoldable pub trim_left : String → String
trim_left String.[] = ""
trim_left (String.◌∷◌ c s) = let rest = trim_left s in if is_space c then rest else String.◌∷◌ c s

unfoldable pub trim_right : String → String
trim_right String.[] = ""
trim_right (String.◌∷◌ c s) =
    let rest = trim_right s in if rest == "" && is_space c then "" else String.◌∷◌ c rest

unfoldable pub trim_space : String → String
trim_space s = trim_right (trim_left s)

-- A word in front of words, if it is not empty.
abbrev pub flush : String → List String → List String
flush w ws = if w == "" then ws else w ∷ ws

-- A character in front, which ends the word before it if it is a space.
abbrev pub put_char : Bool → Char → String × List String → String × List String
put_char true c (w, ws) = ("", flush w ws)
put_char false c (w, ws) = (String.◌∷◌ c w, ws)

-- The text up to the first space, and the words behind it.
unfoldable pub words : String → String × List String
words String.[] = ("", [])
words (String.◌∷◌ c s) = put_char (is_space c) c (words s)

-- `strings.Fields`
unfoldable pub fields : String → List String
fields s = flush (words s).0 (words s).1

-- `strings.Join(parts, " ")`
unfoldable pub join_words : List String → String
join_words [] = ""
join_words (w ∷ []) = w
join_words (w ∷ v ∷ ws) = w ++ " " ++ join_words (v ∷ ws)

-- `normalizeMessage`
unfoldable pub normalize_message : String → String
normalize_message msg = join_words (fields (trim_space msg))

-- `Normalize`
unfoldable pub normalize : String → RawEvent → NormalizedEvent
normalize cluster_name e = record {
  cluster_name = cluster_name;
  namespace = e.namespace;
  involved_object_kind = e.involved_object_kind;
  involved_object_name = e.involved_object_name;
  involved_object_uid = e.involved_object_uid;
  owner_chain = [];
  reason = e.reason;
  message = normalize_message e.message;
  count = if e.count == 0 then 1 else e.count;
  first_seen =
      if not (is_zero e.event_time) && is_zero e.first_timestamp
      then e.event_time
      else e.first_timestamp;
  last_seen = if is_zero e.event_time then e.last_timestamp else e.event_time;
}

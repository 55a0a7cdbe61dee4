-- ===== src/Gateway/Fences.antt =====
-- internal/app/coordinator/gateway.go: the two calls of the language model that `handleAsk` makes,
-- and how `parseIntentJSON` cleans the first reply.
use Prim.Native.Char.{Char, code}
use Prim.Native.String.{String, ◌++◌}
use Prim.Native.String.append
use mathlib.Core.Bool.{true, false}
use mathlib.Core.Path.{◌≡◌, refl, sym, ap, ◌∙◌}
use mathlib.Core.Logic.{inl, inr}
use mathlib.Core.Option.{none, some}
use text.Mathlib.TextLemmas.{
  append_cancel_right, append_assoc, append-nil, cons≢nil, append-ne-nil_of_right_ne-nil,
}
use mcp_k8s.Base.{
  ◌==◌, text_keys, Bool-cases, if◌then◌else◌, eq_of_test, test_self, num_eq, num_eq_iff, test_ne,
}
use mcp_k8s.Base.Result.{Result}
use mcp_k8s.Event.Normalize.{is_space, trim_left, trim_right, trim_space}
use mcp_k8s.Llm.{Client, Printing, extract_intent_system, extract_intent_user, summarize_timeline}
use mcp_k8s.Gateway.{IntentPayload, Model}
use mcp_k8s.Gateway.Auth.{strip, trim_prefix}

-- `strings.TrimSuffix`
unfoldable pub trim_suffix : String → String → String
trim_suffix suffix String.[] = ""
trim_suffix suffix (String.◌∷◌ c s) =
    let rest = trim_suffix suffix s in if String.◌∷◌ c s == suffix then "" else String.◌∷◌ c rest

-- The start of `parseIntentJSON`.
unfoldable pub strip_fences : String → String
strip_fences raw =
    trim_space (trim_suffix "```" (trim_prefix "```" (trim_prefix "```json" (trim_space raw))))

-- The model of `handleAsk`, from a client of package llm and `json.Unmarshal` on the payload.
unfoldable pub model_of : Printing → (String → Result IntentPayload) → Client → Model
model_of p unmarshal client = record {
  chat = λ question. client.chat extract_intent_system (extract_intent_user question);
  parsed = λ raw. unmarshal (strip_fences raw);
  summarize = λ question tl. client.summarize (summarize_timeline p question tl);
}

trim_suffix_here :
    (c : Char) (s suffix : String)
    → (String.◌∷◌ c s == suffix) ≡ true
    → trim_suffix suffix (String.◌∷◌ c s) ≡ ""
unfolding trim_suffix
trim_suffix_here c s suffix here = rw here refl

trim_suffix_on :
    (c : Char) (s suffix : String)
    → (String.◌∷◌ c s == suffix) ≡ false
    → trim_suffix suffix (String.◌∷◌ c s) ≡ String.◌∷◌ c (trim_suffix suffix s)
unfolding trim_suffix
trim_suffix_on c s suffix differs = rw differs refl

trim_suffix-append : (suffix s : String) → trim_suffix suffix (s ++ suffix) ≡ s
unfolding trim_suffix
trim_suffix-append String.[] String.[] = refl
trim_suffix-append (String.◌∷◌ d suffix) String.[] =
    ap (trim_suffix (String.◌∷◌ d suffix)) (append.nil (String.◌∷◌ d suffix))
    ∙ trim_suffix_here d suffix (String.◌∷◌ d suffix) (test_self (String.◌∷◌ d suffix))
trim_suffix-append suffix (String.◌∷◌ c s) =
    let rest = trim_suffix-append suffix s in
    ap (trim_suffix suffix) (append.cons c s suffix)
    ∙ elim (Bool-cases (String.◌∷◌ c (s ++ suffix) == suffix)) [
      | inl same ↦
          let equal : String.◌∷◌ c (s ++ suffix) ≡ suffix =
            eq_of_test (String.◌∷◌ c (s ++ suffix)) suffix same in
          let all : String.◌∷◌ c s ++ suffix ≡ "" ++ suffix =
            append.cons c s suffix ∙ equal ∙ sym (append.nil suffix) in
          absurd (cons≢nil (append_cancel_right (String.◌∷◌ c s) "" suffix all))
      | inr differs ↦ trim_suffix_on c (s ++ suffix) suffix differs ∙ ap (String.◌∷◌ c) rest
    ]

strip_both : (front prefix s : String) → strip (front ++ prefix) (front ++ s) ≡ strip prefix s
unfolding strip
strip_both String.[] prefix s =
    ap (λ t. strip t ("" ++ s)) (append.nil prefix) ∙ ap (strip prefix) (append.nil s)
strip_both (String.◌∷◌ c front) prefix s =
    let self : num_eq (code c) (code c) ≡ true = (num_eq_iff (code c) (code c)).1 refl in
    let step : strip (String.◌∷◌ c (front ++ prefix)) (String.◌∷◌ c (front ++ s))
        ≡ strip (front ++ prefix) (front ++ s) =
      rw self refl in
    ap (λ t. strip t (String.◌∷◌ c front ++ s)) (append.cons c front prefix)
    ∙ ap (strip (String.◌∷◌ c (front ++ prefix))) (append.cons c front s)
    ∙ step
    ∙ strip_both front prefix s

strip-append : (prefix s : String) → strip prefix (prefix ++ s) ≡ some s
unfolding strip
strip-append prefix s =
    ap (λ t. strip t (prefix ++ s)) (sym (append-nil prefix)) ∙ strip_both prefix "" s

trim_right_on :
    (c : Char) (s : String)
    → (trim_right s == "") ≡ false
    → trim_right (String.◌∷◌ c s) ≡ String.◌∷◌ c (trim_right s)
unfolding trim_right
trim_right_on c s more = rw more refl

closed-ne : (s : String) → (s ++ "```" == "") ≡ false
closed-ne s = test_ne (s ++ "```") "" (append-ne-nil_of_right_ne-nil s cons≢nil)

trim_right_closed : (s : String) → trim_right (s ++ "```") ≡ s ++ "```"
unfolding trim_right is_space
trim_right_closed String.[] = refl
trim_right_closed (String.◌∷◌ c s) =
    let same = trim_right_closed s in
    ap trim_right (append.cons c s "```")
    ∙ trim_right_on c (s ++ "```") (ap (λ t. t == "") same ∙ closed-ne s)
    ∙ ap (String.◌∷◌ c) same
    ∙ sym (append.cons c s "```")

trim_space_fenced :
    (front s : String)
    → trim_left (front ++ s ++ "```") ≡ front ++ s ++ "```"
    → trim_space (front ++ s ++ "```") ≡ front ++ s ++ "```"
unfolding trim_space
trim_space_fenced front s left =
    ap trim_right (left ∙ sym (append_assoc front s "```"))
    ∙ trim_right_closed (front ++ s)
    ∙ append_assoc front s "```"

trim_prefix-append : (prefix s : String) → trim_prefix prefix (prefix ++ s) ≡ s
unfolding trim_prefix
trim_prefix-append prefix s = rw (strip-append prefix s) refl

trim_prefix_absent : (prefix s : String) → strip prefix s ≡ none → trim_prefix prefix s ≡ s
unfolding trim_prefix
trim_prefix_absent prefix s absent = rw absent refl

trim_left-append :
    (c : Char) (front t : String)
    → is_space c ≡ false
    → trim_left (String.◌∷◌ c front ++ t) ≡ String.◌∷◌ c front ++ t
unfolding trim_left
trim_left-append c front t no_space =
    let opened = append.cons c front t in
    let kept : trim_left (String.◌∷◌ c (front ++ t)) ≡ String.◌∷◌ c (front ++ t) =
      rw no_space refl in
    ap trim_left opened ∙ kept ∙ sym opened

is_space_tick : is_space "`" ≡ false
unfolding is_space
is_space_tick = refl

-- A reply in a fence with or without `json` behind it is read as the text between the fences without
-- the spaces around it, if that text does not itself begin with a fence or with `json`.
pub strip_fences_lem :
    (s : String)
    → strip "```" (s ++ "```") ≡ none
    → strip "json" (s ++ "```") ≡ none
    → (strip_fences ("```json" ++ s ++ "```") ≡ trim_space s)
      × (strip_fences ("```" ++ s ++ "```") ≡ trim_space s)
unfolding strip_fences
strip_fences_lem s no_fence no_json = (
  ap (λ t. trim_space (trim_suffix "```" (trim_prefix "```" t)))
        (ap (trim_prefix "```json") (
            trim_space_fenced "```json" s
              (trim_left-append "`" "``json" (s ++ "```") is_space_tick))
          ∙ trim_prefix-append "```json" (s ++ "```"))
      ∙ ap (λ t. trim_space (trim_suffix "```" t)) (trim_prefix_absent "```" (s ++ "```") no_fence)
      ∙ ap trim_space (trim_suffix-append "```" s),
  ap (λ t. trim_space (trim_suffix "```" (trim_prefix "```" t)))
        (ap (trim_prefix "```json")
            (trim_space_fenced "```" s (trim_left-append "`" "``" (s ++ "```") is_space_tick))
          ∙ trim_prefix_absent "```json" ("```" ++ s ++ "```")
              (strip_both "```" "json" (s ++ "```") ∙ no_json))
      ∙ ap (λ t. trim_space (trim_suffix "```" t)) (trim_prefix-append "```" (s ++ "```"))
      ∙ ap trim_space (trim_suffix-append "```" s),
)

-- ===== src/Gateway/Auth.antt =====
-- internal/app/coordinator/gateway.go: the check of the token in front of changes to the registry.
use Prim.Native.Char.{code}
use Prim.Native.String.{String, ◌++◌}
use Prim.Native.String.append
use mathlib.Core.Path.{◌≡◌, sym, ap, ◌∙◌}
use mathlib.Core.Logic.{◌⊎◌, inl, inr}
use mathlib.Core.Bool.{Bool, true, false, ◌||◌}
use mathlib.Core.Option.{Option, none, some}
use text.Mathlib.TextEquality.{Char-path}
use mcp_k8s.Base.{
  num_eq_iff, Bool-cases, Option-cases, ◌==◌, text_keys, num_keys, or_else, num_eq, if◌then◌else◌,
  eq_of_test,
}

-- The rest of a text behind a prefix, if it starts with it.
unfoldable pub strip : String → String → Option String
strip String.[] s = some s
strip (String.◌∷◌ c prefix) String.[] = none
strip (String.◌∷◌ c prefix) (String.◌∷◌ d s) =
    let rest = strip prefix s in if num_eq (code c) (code d) then rest else none

-- `strings.TrimPrefix`
unfoldable pub trim_prefix : String → String → String
trim_prefix prefix s = or_else (strip prefix s) s

-- `requireToken`
unfoldable pub require_token : String → String → Bool
require_token token auth = token == "" || trim_prefix "Bearer " auth == token

strip_sound : (prefix s t : String) → strip prefix s ≡ some t → s ≡ prefix ++ t
unfolding strip
strip_sound String.[] s t h = let same : s ≡ t = cc in same ∙ sym (append.nil t)
strip_sound (String.◌∷◌ c prefix) String.[] t h = absurd cc
strip_sound (String.◌∷◌ c prefix) (String.◌∷◌ d s) t h =
    elim (Bool-cases (num_eq (code c) (code d))) [
      | inl same ↦
          let here : c ≡ d = Char-path c d ((num_eq_iff (code c) (code d)).0 same) in
          let rest : s ≡ prefix ++ t = strip_sound prefix s t (rw same at h) in
          (λ i. String.◌∷◌ (sym here i) (rest i)) ∙ sym (append.cons c prefix t)
      | inr differs ↦ let no : none ≡ some t = rw differs at h in absurd cc
    ]

-- With a token configured, a header that `requireToken` accepts is the token behind `Bearer `, or
-- the token itself with no scheme in front.
pub require_token_lem :
    (token auth : String)
    → (token == "") ≡ false
    → require_token token auth ≡ true
    → (auth ≡ "Bearer " ++ token) ⊎ (auth ≡ token)
unfolding require_token trim_prefix
require_token_lem token auth set accepted =
    let matches : (or_else (strip "Bearer " auth) auth == token) ≡ true = rw set at accepted in
    elim (Option-cases (strip "Bearer " auth)) [
      | inl bare ↦ inr (eq_of_test auth token (rw bare at matches))
      | inr (rest, behind) ↦
          let same : rest ≡ token = eq_of_test rest token (rw behind at matches) in
          inl (strip_sound "Bearer " auth rest behind ∙ ap (◌++◌ "Bearer ") same)
    ]

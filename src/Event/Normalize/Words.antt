-- ===== src/Event/Normalize/Words.antt =====
-- Splitting a message into words and joining them, as `normalizeMessage` of
-- pkg/events/normalize.go does.
use Prim.Native.Char.{Char}
use Prim.Native.String.{String, ◌++◌}
use Prim.Native.String.append
use mathlib.Core.Bool.{Bool, true, false, ◌&&◌, not}
use mathlib.Core.List.{List, [], ◌∷◌}
use mathlib.Core.Path.{◌≡◌, refl, sym, ap, ◌∙◌}
use mathlib.Core.Logic.{inl, inr}
use text.Mathlib.TextLemmas.{append-nil}
use mcp_k8s.Base.{◌==◌, text_keys, Bool-cases, All, arith, eq_of_test}
use mcp_k8s.Event.Normalize.{
  is_space, trim_left, trim_right, trim_space, flush, put_char, words, fields, join_words,
  normalize_message,
}

abbrev pub no_space : String → Bool
no_space String.[] = true
no_space (String.◌∷◌ c s) = not (is_space c) && no_space s

-- A word is a text that is not empty and has no space.
abbrev pub IsWord : String → Type 0
IsWord w = ((w == "") ≡ false) × (no_space w ≡ true)

trim_left_space :
    (c : Char) (s : String) → is_space c ≡ true → trim_left (String.◌∷◌ c s) ≡ trim_left s
unfolding trim_left
trim_left_space c s space = rw space refl

trim_left_other :
    (c : Char) (s : String) → is_space c ≡ false → trim_left (String.◌∷◌ c s) ≡ String.◌∷◌ c s
unfolding trim_left
trim_left_other c s other = rw other refl

fields_space : (c : Char) (s : String) → is_space c ≡ true → fields (String.◌∷◌ c s) ≡ fields s
unfolding fields words
fields_space c s space = rw space refl

fields-trim_left : (s : String) → fields (trim_left s) ≡ fields s
unfolding trim_left
fields-trim_left String.[] = refl
fields-trim_left (String.◌∷◌ c s) = elim (Bool-cases (is_space c)) [
  | inl space ↦
      ap fields (trim_left_space c s space) ∙ fields-trim_left s ∙ sym (fields_space c s space)
  | inr other ↦ ap fields (trim_left_other c s other)
]

words-trim_right : (s : String) → words (trim_right s) ≡ words s
unfolding trim_right words
words-trim_right String.[] = refl
words-trim_right (String.◌∷◌ c s) = elim (Bool-cases (trim_right s == "" && is_space c)) [
  | inl cut ↦
      let empty : trim_right s ≡ "" = eq_of_test (trim_right s) "" (ground arith) in
      let space : is_space c ≡ true = ground arith in
      let none_behind : words s ≡ ("", []) = sym (words-trim_right s) ∙ ap words empty in
      rw (cut, space, none_behind) refl
  | inr kept ↦ rw kept (ap (put_char (is_space c) c) (words-trim_right s))
]

words-append : (w s : String) → no_space w ≡ true → words (w ++ s) ≡ (w ++ (words s).0, (words s).1)
unfolding words
words-append String.[] s h =
    ap words (append.nil s) ∙ ap (λ w. (w, (words s).1)) (sym (append.nil (words s).0))
words-append (String.◌∷◌ c w) s h =
    let other : is_space c ≡ false = ground arith in
    let later : no_space w ≡ true = ground arith in
    ap words (append.cons c w s)
    ∙ ap (put_char (is_space c) c) (words-append w s later)
    ∙ ap (λ b. put_char b c (w ++ (words s).0, (words s).1)) other
    ∙ ap (λ v. (v, (words s).1)) (sym (append.cons c w (words s).0))

flush-IsWord :
    (w : String) (ws : List String) → no_space w ≡ true → All IsWord ws → All IsWord (flush w ws)
flush-IsWord w ws h all = elim (Bool-cases (w == "")) [
  | inl empty ↦ rw empty all
  | inr some_text ↦ rw some_text ((some_text, h), all)
]

put_char-IsWord :
    (b : Bool) (c : Char) (v : String × List String)
    → is_space c ≡ b
    → no_space v.0 ≡ true
    → All IsWord v.1
    → (no_space (put_char b c v).0 ≡ true) × All IsWord (put_char b c v).1
put_char-IsWord true c (w, ws) same h all = (refl, flush-IsWord w ws h all)
put_char-IsWord false c (w, ws) same h all = (rw (same, h) refl, all)

words-IsWord : (s : String) → (no_space (words s).0 ≡ true) × All IsWord (words s).1
unfolding words
words-IsWord String.[] = (refl, tt)
words-IsWord (String.◌∷◌ c s) =
    put_char-IsWord (is_space c) c (words s) refl (words-IsWord s).0 (words-IsWord s).1

pub fields-IsWord : (s : String) → All IsWord (fields s)
unfolding fields
fields-IsWord s = flush-IsWord (words s).0 (words s).1 (words-IsWord s).0 (words-IsWord s).1

fields_of_words :
    (s w : String) (ws : List String) → words s ≡ (w, ws) → (w == "") ≡ false → fields s ≡ w ∷ ws
unfolding fields
fields_of_words s w ws split h = rw (split, h) refl

fields_word : (w : String) → IsWord w → fields w ≡ w ∷ []
unfolding words
fields_word w h =
    fields_of_words w w []
      (ap words (sym (append-nil w)) ∙ words-append w "" h.1 ∙ ap (λ v. (v, [])) (append-nil w)) h.0

words_behind_space : (s : String) → words (" " ++ s) ≡ ("", fields s)
unfolding words fields is_space
words_behind_space s = ap words (append.cons _ "" s) ∙ ap (λ t. ("", fields t)) (append.nil s)

fields_none : fields "" ≡ []
unfolding fields words
fields_none = refl

-- Joining words with single spaces and splitting the text gives the words back.
pub fields-join_words : (ws : List String) → All IsWord ws → fields (join_words ws) ≡ ws
unfolding join_words
fields-join_words [] h = fields_none
fields-join_words (w ∷ []) h = fields_word w h.0
fields-join_words (w ∷ v ∷ ws) h =
    let rest = fields-join_words (v ∷ ws) h.1 in
    fields_of_words (w ++ " " ++ join_words (v ∷ ws)) w (v ∷ ws)
      (words-append w (" " ++ join_words (v ∷ ws)) h.0.1
        ∙ ap (λ x. (w ++ x.0, x.1)) (words_behind_space (join_words (v ∷ ws)))
        ∙ ap (λ x. (w ++ "", x)) rest
        ∙ ap (λ x. (x, v ∷ ws)) (append-nil w))
      h.0.0

fields-trim_space : (s : String) → fields (trim_space s) ≡ fields s
unfolding trim_space fields
fields-trim_space s = ap (λ v. flush v.0 v.1) (words-trim_right (trim_left s)) ∙ fields-trim_left s

-- A normalized message stays as it is when it is normalized again.
pub normalize_message-idempotent :
    (s : String) → normalize_message (normalize_message s) ≡ normalize_message s
unfolding normalize_message
normalize_message-idempotent s = ap join_words (
    fields-trim_space (join_words (fields (trim_space s)))
    ∙ fields-join_words (fields (trim_space s)) (fields-IsWord (trim_space s)))

-- The words of a normalized message are those of the message: only the spaces between them and
-- around them change.
pub fields-normalize_message : (s : String) → fields (normalize_message s) ≡ fields s
unfolding normalize_message
fields-normalize_message s =
    fields-join_words (fields (trim_space s)) (fields-IsWord (trim_space s)) ∙ fields-trim_space s

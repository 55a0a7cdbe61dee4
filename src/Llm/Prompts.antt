-- ===== src/Llm/Prompts.antt =====
-- What the prompt of `SummarizeTimeline` of pkg/llm/prompt.go tells the model.
use Prim.Native.String.{String, ◌++◌}
use mathlib.Core.List.{List, [], ◌∷◌}
use mathlib.Core.Path.{◌≡◌, sym, ap, ◌∙◌}
use text.Mathlib.TextLemmas.{append_assoc, nil-append}
use mcp_k8s.Base.{All}
use mcp_k8s.Correlation.{CorrelatedEvent}
use mcp_k8s.Llm.{
  Printing, cause_line, cause_lines, event_line, event_lines, causes_part, instructions,
  summarize_timeline,
}

-- A text that stands in another, with what is before and behind it.
abbrev pub IsWithin : String → String → Type 0
IsWithin part whole = (front : String) × (back : String) × (whole ≡ front ++ part ++ back)

IsWithin-append_left :
    (part whole more : String) → IsWithin part whole → IsWithin part (more ++ whole)
IsWithin-append_left part whole more (front, back, same) =
    (more ++ front, back, ap (◌++◌ more) same ∙ sym (append_assoc more front (part ++ back)))

IsWithin-append_right :
    (part whole more : String) → IsWithin part whole → IsWithin part (whole ++ more)
IsWithin-append_right part whole more (front, back, same) = (
  front,
  back ++ more,
  ap (λ t. t ++ more) same
      ∙ append_assoc front (part ++ back) more
      ∙ ap (◌++◌ front) (append_assoc part back more),
)

All-IsWithin_left {ℓ} :
    {A : Type ℓ} (line : A → String) (whole more : String) (es : List A)
    → All (λ e. IsWithin (line e) whole) es
    → All (λ e. IsWithin (line e) (more ++ whole)) es
All-IsWithin_left line whole more [] h = tt
All-IsWithin_left line whole more (e ∷ es) (here, rest) =
    (IsWithin-append_left (line e) whole more here, All-IsWithin_left line whole more es rest)

All-IsWithin_right {ℓ} :
    {A : Type ℓ} (line : A → String) (whole more : String) (es : List A)
    → All (λ e. IsWithin (line e) whole) es
    → All (λ e. IsWithin (line e) (whole ++ more)) es
All-IsWithin_right line whole more [] h = tt
All-IsWithin_right line whole more (e ∷ es) (here, rest) =
    (IsWithin-append_right (line e) whole more here, All-IsWithin_right line whole more es rest)

All-event_lines :
    (p : Printing) (es : List CorrelatedEvent)
    → All (λ e. IsWithin (event_line p e) (event_lines p es)) es
unfolding event_lines
All-event_lines p [] = tt
All-event_lines p (e ∷ es) = (
  ("", event_lines p es, sym (nil-append _)),
  All-IsWithin_left (event_line p) (event_lines p es) (event_line p e) es (All-event_lines p es),
)

All-cause_lines :
    (p : Printing) (es : List CorrelatedEvent)
    → All (λ e. IsWithin (cause_line p e) (cause_lines p es)) es
unfolding cause_lines
All-cause_lines p [] = tt
All-cause_lines p (e ∷ es) = (
  ("", cause_lines p es, sym (nil-append _)),
  All-IsWithin_left (cause_line p) (cause_lines p es) (cause_line p e) es (All-cause_lines p es),
)

All-causes_part :
    (p : Printing) (es : List CorrelatedEvent)
    → All (λ e. IsWithin (cause_line p e) (causes_part p es)) es
All-causes_part p [] = tt
All-causes_part p (e ∷ es) =
    All-IsWithin_left (cause_line p) (cause_lines p (e ∷ es) ++ "\n") "ROOT CAUSES:\n" (e ∷ es) (
      All-IsWithin_right (cause_line p) (cause_lines p (e ∷ es)) "\n" (e ∷ es)
        (All-cause_lines p (e ∷ es)))

abbrev opening : Printing → String → String → String
opening p question body =
    "The user asked: "
    ++ p.quoted question
    ++ "\n\n"
    ++ "Here is a structured summary of relevant Kubernetes events:\n\n"
    ++ body

abbrev listing : Printing → List CorrelatedEvent → String
listing p es = "EVENT TIMELINE (chronological):\n" ++ event_lines p es ++ instructions

All-IsWithin-opening :
    (p : Printing) (question : String) (line : CorrelatedEvent → String) (body : String)
    (es : List CorrelatedEvent)
    → All (λ e. IsWithin (line e) body) es
    → All (λ e. IsWithin (line e) (opening p question body)) es
All-IsWithin-opening p question line body es h = All-IsWithin_left line _ "The user asked: " es (
    All-IsWithin_left line _ (p.quoted question) es (
      All-IsWithin_left line _ "\n\n" es (
        All-IsWithin_left line body
          "Here is a structured summary of relevant Kubernetes events:\n\n" es h)))

-- The prompt for a timeline with events holds the line of each of its events, with the count and the
-- mark of a root cause or of a cause, and the line of each of its root causes.
pub summarize_timeline-All :
    (p : Printing) (question : String) (first : CorrelatedEvent)
    (rest causes : List CorrelatedEvent)
    → let prompt =
        summarize_timeline p question (record { events = first ∷ rest; root_causes = causes }) in
      All (λ e. IsWithin (event_line p e) prompt) (first ∷ rest)
      × All (λ e. IsWithin (cause_line p e) prompt) causes
unfolding summarize_timeline
summarize_timeline-All p question first rest causes =
    let es = first ∷ rest in
    (
      All-IsWithin-opening p question (event_line p) (causes_part p causes ++ listing p es) es (
          All-IsWithin_left (event_line p) (listing p es) (causes_part p causes) es (
            All-IsWithin_left (event_line p) (event_lines p es ++ instructions)
              "EVENT TIMELINE (chronological):\n" es
              (All-IsWithin_right (event_line p) (event_lines p es) instructions es
                (All-event_lines p es)))),
      All-IsWithin-opening p question (cause_line p) (causes_part p causes ++ listing p es) causes (
          All-IsWithin_right (cause_line p) (causes_part p causes) (listing p es) causes
            (All-causes_part p causes)),
    )

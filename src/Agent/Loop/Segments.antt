-- ===== src/Agent/Loop/Segments.antt =====
-- What the model sees of a transcript, and the error that the loop reports (internal/agent/loop.go).
use ai_web_testing.Prelude.{
  String, Bool, true, false, List, [], ◌∷◌, ◌++◌, any, ◌≡◌, refl, ap, none, some, ◌==◌, ◌⊎◌, inl,
  inr, Bool-cases, arith,
}
use ai_web_testing.AgentService.Types.{Message}
use ai_web_testing.Agent.Types.{ModelToolSummary, Decoder, decode_model_tool_summary, succeeded}
use ai_web_testing.Agent.Loop.{
  last_segment, or_else, model_context, summary_error, content_error, last_tool_error,
  latest_tool_error,
}

abbrev pub is_boundary : Message → Bool
is_boundary message = message.segment_boundary

-- `segment` is the part of the transcript that its last boundary opens.
pub record IsLastSegment (transcript segment : List Message) : Type 0 where
  pub before : List Message
  pub opening : Message
  pub rest : List Message
  pub split : transcript ≡ before ++ opening ∷ rest
  pub shown : segment ≡ opening ∷ rest
  pub opens : is_boundary opening ≡ true
  pub closed : any is_boundary rest ≡ false

-- The search finds the last boundary, or there is none.
last_segment_cases :
    (transcript : List Message)
    → ((any is_boundary transcript ≡ false) × (last_segment transcript ≡ none))
      ⊎ ((segment : List Message) × (last_segment transcript ≡ some segment)
          × IsLastSegment transcript segment)
unfolding last_segment
last_segment_cases [] = inl (refl, refl)
last_segment_cases (message ∷ transcript) = extend (last_segment_cases transcript)
  where
    extend :
        ((any is_boundary transcript ≡ false) × (last_segment transcript ≡ none))
          ⊎ ((segment : List Message) × (last_segment transcript ≡ some segment)
              × IsLastSegment transcript segment)
        → ((any is_boundary (message ∷ transcript) ≡ false)
            × (last_segment (message ∷ transcript) ≡ none))
          ⊎ ((segment : List Message) × (last_segment (message ∷ transcript) ≡ some segment)
              × IsLastSegment (message ∷ transcript) segment)
    extend (inr (segment, found, h)) = inr (
      segment,
      rw found,
      record {
        before = message ∷ h.before;
        opening = h.opening;
        rest = h.rest;
        split = ap (λ later. message ∷ later) h.split;
        shown = h.shown;
        opens = h.opens;
        closed = h.closed;
      },
    )
    extend (inl (free, missing)) = elim (Bool-cases message.segment_boundary) [
      | inl p ↦ inr (
        message ∷ transcript,
        rw (missing, p),
        record {
          before = [];
          opening = message;
          rest = transcript;
          split = refl;
          shown = refl;
          opens = p;
          closed = free;
        },
      )
      | inr p ↦ inl (rw p free, rw (missing, p))
    ]

-- ModelContext shows the model the part of the transcript that the last segment boundary opens, from
-- the boundary to the end, and all of it if there is no boundary.
pub model_context_lem :
    (transcript : List Message)
    → ((any is_boundary transcript ≡ false) × (model_context transcript ≡ transcript))
      ⊎ IsLastSegment transcript (model_context transcript)
unfolding model_context
model_context_lem transcript = shown (last_segment_cases transcript)
  where
    shown :
        ((any is_boundary transcript ≡ false) × (last_segment transcript ≡ none))
          ⊎ ((segment : List Message) × (last_segment transcript ≡ some segment)
              × IsLastSegment transcript segment)
        → ((any is_boundary transcript ≡ false)
            × (or_else transcript (last_segment transcript) ≡ transcript))
          ⊎ IsLastSegment transcript (or_else transcript (last_segment transcript))
    shown (inl (free, missing)) = inl (free, rw missing)
    shown (inr (segment, found, h)) = inr (rw found h)

module _ (d : Decoder) where
  last_tool_error-append :
      (earlier later : List Message) (error : String)
      → last_tool_error d later ≡ some error
      → last_tool_error d (earlier ++ later) ≡ some error
  unfolding last_tool_error
  last_tool_error-append [] later error h = h
  last_tool_error-append (message ∷ earlier) later error h =
      rw (last_tool_error-append earlier later error h)

  no_tool_error :
      (later : List Message)
      → any (λ message. message.role == "tool") later ≡ false
      → last_tool_error d later ≡ none
  unfolding last_tool_error
  no_tool_error [] h = refl
  no_tool_error (message ∷ later) h = ground (arith, no_tool_error later, h)

  -- If the last message of a tool is the summary of a success, no tool error is reported, whatever
  -- failed before it.
  pub latest_tool_error-recovered :
      (earlier later : List Message) (message : Message) (summary : ModelToolSummary)
      → message.role ≡ "tool"
      → decode_model_tool_summary d message.content ≡ some summary
      → succeeded summary.success ≡ true
      → any (λ message. message.role == "tool") later ≡ false
      → latest_tool_error d (earlier ++ message ∷ later) ≡ ""
  unfolding latest_tool_error last_tool_error content_error summary_error
  latest_tool_error-recovered earlier later message summary role decoded success quiet =
      let last : last_tool_error d (message ∷ later) ≡ some "" =
        rw (no_tool_error later quiet) (rw (role, decoded, success) refl) in
      rw (last_tool_error-append earlier (message ∷ later) "" last)

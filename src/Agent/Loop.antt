-- ===== src/Agent/Loop.antt =====
-- The agent loop (internal/agent/loop.go). The model, the turn handler and the turn budget are
-- parameters: functions on a state of the caller's, which the handler changes together with the
-- transcript, and `complete` may change too.
pub mod Turns
pub mod Segments
use ai_web_testing.Prelude.{
  ℕ, zero, suc, ◌+◌, String, Bool, true, false, not, ◌&&◌, ◌||◌, Option, none, some, List, [], ◌∷◌,
  ◌++◌, leb, if◌then◌else◌, ◌==◌, trim_space, ℤ, pos, negsuc, Result, ok, err,
}
use ai_web_testing.AgentService.Types.{Message, ModelTool}
use ai_web_testing.Agent.Types.{
  PageReport, ModelToolSummary, ErrorPayload, Decoder, decode_model_tool_summary, succeeded,
}

pub record ModelResponse : Type 0 where
  pub content : String
  pub reasoning_content : String
  pub tool_calls : List ModelTool

-- ModelContext, which searches from the end: a boundary in the tail comes first.
unfoldable pub last_segment : List Message → Option (List Message)
last_segment [] = none
last_segment (message ∷ transcript) = elim (last_segment transcript) [
  | some segment ↦ some segment
  | none ↦ (if message.segment_boundary then some (message ∷ transcript) else none)
]

abbrev or_else : List Message → Option (List Message) → List Message
or_else transcript none = transcript
or_else transcript (some segment) = segment

unfoldable pub model_context : List Message → List Message
model_context transcript = or_else transcript (last_segment transcript)

-- The first text that is not blank, trimmed.
unfoldable pub first_text : List String → Option String
first_text [] = none
first_text (value ∷ values) =
    let later = first_text values in
    if trim_space value == "" then later else some (trim_space value)

abbrev failure_text : Option String → List String
failure_text none = []
failure_text (some message) = message ∷ []

action_texts : List (Option String) → List String
action_texts [] = []
action_texts (action ∷ actions) = failure_text action ++ action_texts actions

page_texts : List PageReport → List String
page_texts [] = []
page_texts (page ∷ pages) =
    failure_text page.failure ++ (action_texts page.actions ++ page_texts pages)

abbrev or_empty : Option String → String
or_empty none = ""
or_empty (some s) = s

-- the error of a summary: of its failures first, then page by page
unfoldable pub summary_error : ModelToolSummary → String
unfolding page_texts action_texts
summary_error summary =
    if succeeded summary.success
    then ""
    else or_empty (first_text (summary.failures ++ page_texts summary.pages))

payload_error : Option ErrorPayload → String
payload_error none = ""
payload_error (some payload) =
    if not (payload.status == "error") then "" else trim_space payload.message

content_error : Decoder → String → Option ModelToolSummary → String
content_error d content (some summary) = summary_error summary
content_error d content none = payload_error (d.error_payload content)

-- the loop of latestToolError, from the end: `none` if no message has the role of a tool
unfoldable pub last_tool_error : Decoder → List Message → Option String
unfolding content_error payload_error
last_tool_error d [] = none
last_tool_error d (message ∷ transcript) = elim (last_tool_error d transcript) [
  | some error ↦ some error
  | none ↦
      (if not (message.role == "tool")
        then none
        else some (content_error d message.content (decode_model_tool_summary d message.content)))
]

unfoldable pub latest_tool_error : Decoder → List Message → String
latest_tool_error d transcript = or_empty (last_tool_error d transcript)

-- max(maxTurns, turnBudget(used))
abbrev pub limit_of : ℕ → ℤ → ℕ
limit_of max_turns (pos n) = if leb n max_turns then max_turns else n
limit_of max_turns (negsuc n) = max_turns

-- NewLoop
abbrev pub clamp_turns : ℤ → ℕ
clamp_turns (pos (suc n)) = suc n
clamp_turns _ = 1

-- Why a run of the loop ended; `E` is an error of the model or of the handler. `out_of_fuel` is no
-- outcome of the source.
pub data Outcome (E : Type 0) : Type 0 where
  stopped : Outcome E
  failed : E → Outcome E
  exceeded : ℕ → String → Outcome E
  out_of_fuel : Outcome E

pub record Caller (S E : Type 0) : Type 0 where
  pub max_turns : ℕ
  pub system_prompt : String
  pub decoder : Decoder
  pub turn_budget : S → ℕ → ℤ
  pub complete : S → List Message → Result E ModelResponse × S
  pub handle : S → List Message → ModelResponse → Result E Bool × List Message × S

abbrev prompt_message : String → Message
prompt_message prompt = record {
  role = "system";
  content = prompt;
  reasoning_content = "";
  tool_call_id = "";
  tool_calls = [];
  segment_boundary = false;
}

abbrev pub assistant_message : ModelResponse → Message
assistant_message response = record {
  role = "assistant";
  content = response.content;
  reasoning_content = response.reasoning_content;
  tool_call_id = "";
  tool_calls = response.tool_calls;
  segment_boundary = false;
}

-- The result of a run: how it ended, the number of model calls that it made, the transcript and the
-- state of the caller.
pub record Finish (S E : Type 0) : Type 0 where
  pub outcome : Outcome E
  pub model_calls : ℕ
  pub transcript : List Message
  pub state : S

module _ {S E : Type 0} (caller : Caller S E) where
  finish : Outcome E → ℕ → List Message → S → Finish S E
  finish outcome calls transcript s = record {
    outcome = outcome;
    model_calls = calls;
    transcript = transcript;
    state = s;
  }

  -- after the handler: `again` is the next round
  abbrev after_handle :
      ℕ → (List Message → S → Finish S E) → Result E Bool × List Message × S → Finish S E
  after_handle calls again (ok true, transcript, s) = again transcript s
  after_handle calls again (ok false, transcript, s) = finish stopped calls transcript s
  after_handle calls again (err e, transcript, s) = finish (failed e) calls transcript s

  abbrev after_complete :
      ℕ → (List Message → S → Finish S E) → List Message → Result E ModelResponse × S → Finish S E
  after_complete used again transcript (err e, s) = finish (failed e) (suc used) transcript s
  after_complete used again transcript (ok response, s) =
      after_handle (suc used) again
        (caller.handle s (transcript ++ assistant_message response ∷ []) response)

  -- RunWithTurnBudget, with fuel
  unfoldable pub run_turns : ℕ → ℕ → List Message → S → Finish S E
  unfolding finish
  run_turns zero used transcript s = finish out_of_fuel used transcript s
  run_turns (suc fuel) used transcript s =
      let again = run_turns fuel (suc used) in
      let limit = limit_of caller.max_turns (caller.turn_budget s used) in
      if leb limit used
      then finish (exceeded limit (latest_tool_error caller.decoder transcript)) used transcript s
      else after_complete used again transcript
          (caller.complete s (prompt_message caller.system_prompt ∷ model_context transcript))

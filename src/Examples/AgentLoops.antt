-- ===== src/Examples/AgentLoops.antt =====
-- The agent loop at concrete inputs (backend-go/internal/agent/loop.go).
use ai_web_testing.Prelude.{
  ℕ, ◌+◌, String, Bool, true, false, ◌≡◌, refl, none, some, List, [], ◌∷◌, ◌++◌, any, ◌==◌,
  if◌then◌else◌, ◌⊎◌, pos, ok, trim_space, arith,
}
use ai_web_testing.AgentService.Types.{Message}
use ai_web_testing.Agent.Types.{
  ModelToolSummary, Decoder, decode_model_tool_summary, model_tool_summary_schema_v1,
}
use ai_web_testing.Agent.Loop.{
  ModelResponse, last_segment, model_context, first_text, summary_error, last_tool_error,
  latest_tool_error, clamp_turns, Caller, run_turns,
}
use ai_web_testing.Agent.Loop.Turns.{EndsWithin, run_turns-EndsWithin}
use ai_web_testing.Agent.Loop.Segments.{
  is_boundary, IsLastSegment, model_context_lem, latest_tool_error-recovered,
}

abbrev said : String → String → Bool → Message
said role content boundary = record {
  role = role;
  content = content;
  reasoning_content = "";
  tool_call_id = "";
  tool_calls = [];
  segment_boundary = boundary;
}

abbrev report : Bool → ModelToolSummary
report success = record {
  tool = "explore_page";
  success = some success;
  failures = if success then [] else " " ∷ " timeout " ∷ [];
  pages = [];
  task_plan = none;
}

-- "done" and "lost" are the summaries of a success and of a failure.
abbrev decoder : Decoder
decoder = record {
  schema_version = λ s.
      if s == "done"
      then some model_tool_summary_schema_v1
      else if s == "lost"
      then some model_tool_summary_schema_v1
      else none;
  summary = λ s. some (report (s == "done"));
  error_payload = λ s. none;
}

abbrev answer : ModelResponse
answer = record { content = "next"; reasoning_content = ""; tool_calls = [] }

-- Each turn adds a tool's message and asks for another; the state counts the turns.
abbrev caller : Caller ℕ String
caller = record {
  max_turns = 2;
  system_prompt = "test";
  decoder = decoder;
  turn_budget = λ s used. pos 3;
  complete = λ s transcript. (ok answer, s);
  handle = λ s transcript response. (ok true, transcript ++ said "tool" "lost" false ∷ [], s + 1);
}

three_turns : (run_turns caller 4 0 [] 0).model_calls ≡ 3
unfolding run_turns
three_turns = refl

no_turns : clamp_turns (pos 0) ≡ 1
no_turns = refl

run_turns-EndsWithin_example : EndsWithin caller 3 (run_turns caller 4 0 [] 0)
run_turns-EndsWithin_example = run_turns-EndsWithin caller 3 (λ s used. omega arith) [] 0

abbrev talk : List Message
talk = said "user" "a" false ∷ said "user" "b" true ∷ said "assistant" "c" false ∷ []

shows_the_tail : model_context talk ≡ said "user" "b" true ∷ said "assistant" "c" false ∷ []
unfolding model_context last_segment
shows_the_tail = refl

model_context_example :
    ((any is_boundary talk ≡ false) × (model_context talk ≡ talk))
    ⊎ IsLastSegment talk (model_context talk)
model_context_example = model_context_lem talk

reports_the_failure : latest_tool_error decoder (said "tool" "lost" false ∷ []) ≡ "timeout"
unfolding latest_tool_error last_tool_error summary_error first_text decode_model_tool_summary
    trim_space
reports_the_failure = refl

decodes_done : decode_model_tool_summary decoder "done" ≡ some (report true)
unfolding decode_model_tool_summary
decodes_done = refl

latest_tool_error-recovered_example :
    latest_tool_error decoder
      (said "tool" "lost" false ∷ said "tool" "done" false ∷ said "assistant" "c" false ∷ [])
    ≡ ""
latest_tool_error-recovered_example =
    latest_tool_error-recovered decoder (said "tool" "lost" false ∷ [])
      (said "assistant" "c" false ∷ []) (said "tool" "done" false) (report true) refl decodes_done
      refl refl

-- ===== src/Examples/HarnessPolicies.antt =====
-- The policy of tool calls at concrete inputs (backend-go/internal/harness/policy.go).
use ai_web_testing.Prelude.{
  String, Bool, true, false, ◌≡◌, refl, none, some, List, [], ◌∷◌, ◌++◌, ◌==◌, if◌then◌else◌, pos,
  lookup, insert,
}
use ai_web_testing.AgentService.Types.{Message, ModelTool, AgentRun, running, text}
use ai_web_testing.Agent.Types.{
  ModelToolSummary, Decoder, decode_model_tool_summary, model_tool_summary_schema_v1,
}
use ai_web_testing.Harness.Policy.{
  ExplorationGateConfig, with_defaults, Environment, PolicyError, BudgetCounter, gate,
  summary_matches_plan, exploration_call_signature, governance_call_signature, register_calls, scan,
  build_exploration_state, exploration_budget_summary, exploration_budget, exploration_refusal,
  before_exploration_call, scan_outcomes, governance_outcome, before_governance_call,
  before_tool_call,
}
use ai_web_testing.Harness.Policy.Scan.{is_result, calls_after}
use ai_web_testing.Harness.Policy.Budgets.{
  Session, started, spoken, explored, IsWithinBudget, session-IsWithinBudget,
}
use ai_web_testing.Harness.Policy.Reports.{exploration_budget-next}
use ai_web_testing.Harness.Policy.Repeats.{before_tool_call-repeated}

abbrev pub config : ExplorationGateConfig
config = record {
  max_explore_page_calls = pos 0;
  max_explore_flow_calls = pos 0;
  max_run_explore_page_calls = pos 0;
  max_run_explore_flow_calls = pos 0;
  max_repeated_explore_page_signature_calls = pos 2;
  max_repeated_explore_flow_signature_calls = pos 0;
  max_run_wall_time = pos 0;
  explore_reserve = pos 0;
}

abbrev report : String → Bool → ModelToolSummary
report tool success = record {
  tool = tool;
  success = some success;
  failures = [];
  pages = [];
  task_plan = none;
}

-- "page" is the summary of an exploration, "lost" that of a plan that was refused.
abbrev decoder : Decoder
decoder = record {
  schema_version = λ s.
      if s == "page"
      then some model_tool_summary_schema_v1
      else if s == "lost"
      then some model_tool_summary_schema_v1
      else none;
  summary =
      λ s. some (if s == "page" then report "explore_page" true else report "set_task_plan" false);
  error_payload = λ s. none;
}

abbrev pub env : Environment
env = record {
  now = 0;
  lower = λ ch. ch;
  unmarshal = λ s. some (text s);
  marshal = λ value. some "call";
  sha256 = λ s. s;
  decoder = decoder;
}

abbrev pub tool_call : String → ModelTool
tool_call name = record { id = "1"; name = name; arguments = "here" }

abbrev asks : String → Message
asks name = record {
  role = "assistant";
  content = "";
  reasoning_content = "";
  tool_call_id = "";
  tool_calls = tool_call name ∷ [];
  segment_boundary = false;
}

abbrev answers : String → Message
answers content = record {
  role = "tool";
  content = content;
  reasoning_content = "";
  tool_call_id = "1";
  tool_calls = [];
  segment_boundary = false;
}

abbrev pub run_of : List Message → AgentRun
run_of transcript = record {
  id = "r";
  actor_user_id = pos 1;
  conversation_id = "";
  project_id = pos 1;
  status = running;
  input = "look";
  pending_tool_call_id = none;
  pending_step_id = none;
  latest_generation_id = none;
  approved_generation_id = none;
  transcript = transcript;
  created_at = 0;
  updated_at = 0;
}

abbrev asked : List Message
asked = asks "explore_page" ∷ []

passes : before_tool_call env config (run_of asked) (tool_call "explore_page") none ≡ none
unfolding before_tool_call before_exploration_call with_defaults build_exploration_state scan
    register_calls exploration_refusal exploration_call_signature insert lookup
passes = refl

no_flow :
    is_result env "explore_flow" (answers "page") ≡ true
    → (tool_call "explore_page").name ≡ "explore_flow"
unfolding decode_model_tool_summary
no_flow flow = absurd (cc flow)

explored_once : Session env config (asked ++ answers "page" ∷ [])
explored_once =
    explored (run_of asked) (tool_call "explore_page") none (answers "page")
      (spoken [] (asks "explore_page") started refl refl asked refl) passes (λ page. refl) no_flow _
      refl

session-IsWithinBudget_example : IsWithinBudget env config (asked ++ answers "page" ∷ [])
session-IsWithinBudget_example =
    session-IsWithinBudget env config (asked ++ answers "page" ∷ []) explored_once

decoded : decode_model_tool_summary decoder "page" ≡ some (report "explore_page" true)
unfolding decode_model_tool_summary
decoded = refl

answered : lookup "1" (calls_after env asked []) ≡ some (tool_call "explore_page")
unfolding calls_after register_calls insert lookup
answered = refl

matched : summary_matches_plan (report "explore_page" true) none ≡ true
unfolding summary_matches_plan
matched = refl

exploration_budget-next_example :
    exploration_budget env config (run_of asked) none (some (tool_call "explore_page"))
    ≡ exploration_budget_summary env
        (with_defaults config)
        (build_exploration_state env (asked ++ answers "page" ∷ []) none)
        none
        (some (tool_call "explore_page"))
        false
exploration_budget-next_example =
    exploration_budget-next env config (run_of asked) none (tool_call "explore_page")
      (answers "page") (report "explore_page" true) refl refl decoded refl matched answered

-- a call of set_task_plan that failed, and the same call again
abbrev failed_once : List Message
failed_once = asks "set_task_plan" ∷ answers "lost" ∷ []

abbrev unused : BudgetCounter
unused = record { used = 0; limit = 0; remaining = 0 }

abbrev refusal : PolicyError
refusal =
    gate "repeated_set_task_plan_signature"
      (record {
        scope = "run";
        plan = none;
        explore_page = unused;
        explore_flow = unused;
        run_explore_page = unused;
        run_explore_flow = unused;
        repeated_explore_page_limit = 1;
        repeated_explore_flow_limit = 1;
        current_tool = "set_task_plan";
        current_signature_fingerprint = "call";
        current_signature_uses = none;
        current_signature_remaining = none;
      })
      "do not repeat the same set_task_plan call; change the arguments to make the call substantively different"

refused_once :
    before_tool_call env config (run_of failed_once) (tool_call "set_task_plan") none ≡ some refusal
unfolding before_tool_call before_governance_call governance_outcome scan_outcomes register_calls
    governance_call_signature exploration_call_signature decode_model_tool_summary insert lookup
refused_once = refl

before_tool_call-repeated_example :
    before_tool_call env config
      (run_of (failed_once ++ asks "generate_dsl" ∷ []))
      (record { id = "2"; name = "set_task_plan"; arguments = "here" })
      none
    ≡ some refusal
before_tool_call-repeated_example =
    before_tool_call-repeated env config (run_of failed_once)
      (run_of (failed_once ++ asks "generate_dsl" ∷ [])) (tool_call "set_task_plan") "2" none none
      (asks "generate_dsl" ∷ []) refl refl refusal refused_once

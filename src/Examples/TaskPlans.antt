-- ===== src/Examples/TaskPlans.antt =====
-- The plan service at concrete inputs (backend-go/internal/taskplan).
use ai_web_testing.Prelude.{
  All, String, true, ◌≡◌, refl, none, some, List, [], ◌∷◌, ◌==◌, ℤ, pos, ok, lookup, insert, delete,
  ◌>>=◌, trim_space, join_fields, map_runes, contains,
}
use ai_web_testing.AgentService.Types.{null}
use ai_web_testing.TaskPlan.Types.{
  StepDefinition, Definition, CreateRequest, Step, Plan, grounding, ready_for_generation,
  browser_state, step_pending, step_grounded,
}
use ai_web_testing.TaskPlan.Contract.{Contract, CaseStep}
use ai_web_testing.TaskPlan.Memory
use ai_web_testing.TaskPlan.Window.{
  first_index, check_ids, step_by_id, plan_step_ids, contiguous_pending_steps,
}
use ai_web_testing.TaskPlan.Window.Contiguous.{IsWindow, contiguous_pending_steps-IsWindow}
use ai_web_testing.TaskPlan.Rules.{
  normalize, forbidden, clean_strings, valid_action, requires_target_binding, side_effect_rank,
  valid_side_effect, matches_step_id, validate_action_parameters,
}
use ai_web_testing.TaskPlan.Validate.{
  validate_definition, clean_rules, validate_steps, check_step, trim_step, clean_conditions,
  sort_strings,
}
use ai_web_testing.TaskPlan.Probe.{
  successful_exploration_evidence, result_contains_step_evidence, json_contains_text,
}
use ai_web_testing.TaskPlan.Changes.{
  approve_plan, rebind_carried_target_bindings, record_result, record_exploration, ground_steps,
  is_proved, set_step, ground_step, all_grounded,
}
use ai_web_testing.TaskPlan.Service.{
  on_repository, approve, record_tool_result, create_version, new_plan, new_steps, save_stamped,
}
use ai_web_testing.TaskPlan.Service.Session.{
  Command, create, tool_result, approval, perform, perform_all, new_service, was_approved,
}
use ai_web_testing.TaskPlan.Validate.Sound.{
  IsValidStep, HasDistinctIds, validate_definition-IsValidStep,
}
use ai_web_testing.TaskPlan.Authorize.{authorize, authorize_tool, status_rank}
use ai_web_testing.TaskPlan.Authorize.{
  expanded_plan_steps, total_debt, preserves, check_case_steps, validate_case_semantics,
}
use ai_web_testing.TaskPlan.Authorize.Preserved.{Agree, validate_case_semantics-Agree}
use ai_web_testing.TaskPlan.Authorize.Gate.{execution_was_approved}

-- Every request names the step "open" and the generation 5, and every exploration ends on "page".
abbrev pub contract : Contract
contract = record {
  lower = λ ch. ch;
  now = λ k. k;
  semantic_hash = λ d. d.goal;
  plan_id = λ run_id hash now. run_id;
  sha256 = λ s. s;
  plan_step_ids = λ s. some ("open" ∷ []);
  flow_request = λ s. none;
  generation_id = λ s. some (pos 5);
  report_status = λ s. none;
  strategy = λ s. none;
  generation_request = λ s. none;
  profile = λ s. none;
  case_steps = λ s. none;
  equal_fold = λ s t. s == t;
  exploration = λ s. some (record {
    url = "page";
    status = "success";
    a11y_nodes = null;
    observation = null;
    pages = [];
  });
  flow_outcomes = λ s. none;
  new_target_binding = λ b. none;
  flow_bindings = λ plan owners s. [];
  page_bindings = λ plan steps s. [];
  validate_draft_case = λ plan s. none;
  validate_compiled_case = λ plan s. none;
}

abbrev open_page : StepDefinition
open_page = record {
  id = "open";
  intent = "open the page";
  action = "goto";
  target = "";
  value = "page";
  trigger = "";
  context_key = "";
  timeout_ms = pos 0;
  expected_occurrences = pos 0;
  idempotency = "idempotent";
  side_effect = browser_state;
  preconditions = [];
  completion_conditions = [];
}

abbrev request : CreateRequest
request = record {
  run_id = "r";
  actor_user_id = pos 1;
  project_id = pos 1;
  definition = record {
    goal = "see the page";
    max_side_effect = browser_state;
    forbidden_actions = [];
    steps = open_page ∷ [];
  };
}

-- plan, explore, generate, approve
abbrev calls : List Command
calls =
    create request
    ∷ tool_result "r" "explore_page" "" "" (pos 1)
    ∷ tool_result "r" "generate_dsl" "" "" (pos 2)
    ∷ approval "r" (pos 5)
    ∷ []

authorized :
    (authorize contract "r" "execute_dsl" "" (perform_all contract calls new_service)).0 ≡ ok tt
unfolding authorize authorize_tool perform_all perform on_repository Memory.get_current Memory.save
    Memory.create_version Memory.versions Memory.supersede_last Memory.last_plan
    Memory.replace_first lookup insert delete approve approve_plan record_tool_result create_version
    ◌>>=◌ trim_space validate_definition valid_side_effect side_effect_rank clean_rules
    validate_steps check_step matches_step_id trim_step valid_action validate_action_parameters
    forbidden normalize join_fields map_runes clean_conditions clean_strings sort_strings new_plan
    new_steps rebind_carried_target_bindings save_stamped record_result record_exploration
    plan_step_ids contiguous_pending_steps first_index check_ids successful_exploration_evidence
    ground_steps step_by_id is_proved result_contains_step_evidence json_contains_text contains
    set_step ground_step all_grounded requires_target_binding status_rank
authorized = refl

execution_was_approved_example :
    (id : ℤ) × (some (pos 5) ≡ some id) × (was_approved "r" id calls ≡ true)
execution_was_approved_example = execution_was_approved contract "r" "" calls authorized

abbrev step : String → Step
step id = record {
  id = id;
  position = 0;
  intent = "look";
  action = "goto";
  target = "";
  value = "";
  trigger = "";
  context_key = "";
  timeout_ms = pos 0;
  expected_occurrences = pos 1;
  idempotency = "idempotent";
  side_effect = browser_state;
  preconditions = [];
  completion_conditions = [];
  status = step_pending;
  grounding_attempts = 0;
  evidence = [];
  target_binding = none;
}

abbrev steps : List Step
steps = record (step "a") { status = step_grounded } ∷ step "b" ∷ step "c" ∷ step "d" ∷ []

window_of_two : contiguous_pending_steps steps ("b" ∷ "c" ∷ []) ≡ ok (step "b" ∷ step "c" ∷ [])
unfolding contiguous_pending_steps
window_of_two = refl

contiguous_pending_steps-IsWindow_example :
    IsWindow steps ("b" ∷ "c" ∷ []) (step "b" ∷ step "c" ∷ [])
contiguous_pending_steps-IsWindow_example =
    contiguous_pending_steps-IsWindow steps ("b" ∷ "c" ∷ []) window_of_two

-- the definition as it comes out: the one step occurs once
abbrev cleaned : Definition
cleaned = record (request.definition) {
  steps = record open_page { expected_occurrences = pos 1 } ∷ [];
}

accepted : validate_definition contract.lower request.definition ≡ ok cleaned
unfolding validate_definition valid_side_effect side_effect_rank clean_rules validate_steps
    check_step matches_step_id trim_step valid_action validate_action_parameters forbidden normalize
    join_fields map_runes clean_conditions clean_strings sort_strings trim_space contains
accepted = refl

validate_definition-IsValidStep_example :
    All (IsValidStep contract.lower browser_state []) cleaned.steps
    × HasDistinctIds [] cleaned.steps
validate_definition-IsValidStep_example =
    validate_definition-IsValidStep contract.lower request.definition accepted

abbrev pub plan : Plan
plan = record {
  id = "p";
  schema_version = "agent.task_plan.v2";
  run_id = "r";
  actor_user_id = pos 1;
  project_id = pos 1;
  version = pos 1;
  goal = "see the page";
  status = grounding;
  plan_sha256 = "see the page";
  max_side_effect = browser_state;
  forbidden_actions = [];
  steps = record (step "open") { value = "page" } ∷ [];
  bound_generation_id = none;
  created_at = 0;
  updated_at = 0;
}

abbrev explored : Plan
explored = record plan {
  status = ready_for_generation;
  steps =
      record (step "open") {
        value = "page";
        status = step_grounded;
        grounding_attempts = 1;
        evidence = record { tool = "explore_page"; event_seq = pos 8; content_sha256 = "" } ∷ [];
      }
      ∷ [];
}

recorded : record_exploration contract plan "explore_page" "" "" (pos 8) ≡ ok explored
unfolding record_exploration plan_step_ids contiguous_pending_steps first_index check_ids
    successful_exploration_evidence ground_steps step_by_id is_proved result_contains_step_evidence
    json_contains_text contains set_step ground_step all_grounded requires_target_binding lookup
    normalize join_fields map_runes trim_space
recorded = refl

abbrev case_step : CaseStep
case_step = record {
  action = "goto";
  intent = " look";
  target = "";
  value = "page ";
  trigger = "";
  context_key = "";
  timeout_ms = pos 0;
  idempotency = "idempotent";
  side_effect = browser_state;
}

case_passes : validate_case_semantics contract plan (some (case_step ∷ [])) ≡ ok tt
unfolding validate_case_semantics expanded_plan_steps total_debt check_case_steps preserves
    forbidden normalize join_fields map_runes trim_space contains
case_passes = refl

validate_case_semantics-Agree_example :
    Agree contract [] (expanded_plan_steps plan.steps) (case_step ∷ [])
validate_case_semantics-Agree_example =
    validate_case_semantics-Agree contract plan (case_step ∷ []) case_passes

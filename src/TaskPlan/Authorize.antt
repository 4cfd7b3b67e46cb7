-- ===== src/TaskPlan/Authorize.antt =====
-- What a run may do next (internal/taskplan/service.go): Authorize and ValidateGenerationBinding, and
-- the comparison of a DSL case with its plan.
pub mod Gate
pub mod Preserved
use Prim.Native.String.{◌++◌}
use ai_web_testing.Prelude.{
  ℕ, zero, suc, ◌+◌, String, Bool, true, false, not, ◌&&◌, ◌||◌, Option, none, some, List, [], ◌∷◌,
  length, nat_eq, if◌then◌else◌, ◌==◌, trim_space, ℤ, pos, negsuc, int_eq, Result, ok, err,
}
use ai_web_testing.Prelude.Results.{◌>>=◌, ◌>>◌, reject_if}
use ai_web_testing.TaskPlan.Types.{
  Status, grounding, ready_for_generation, awaiting_approval, approved, executing, completed,
  failed, Step, Plan, Binding, binding_of, Error, not_found, revision_not_allowed, plan_required,
  wrong_status, generation_not_bound, generation_mismatch, invalid_generate_arguments,
  binding_mismatch, steps_not_preserved, wrong_step_count, step_not_preserved, step_forbidden,
  invalid_flow_arguments, index_out_of_range, binding_outdated, binding_not_allowed,
  draft_case_rejected,
}
use ai_web_testing.TaskPlan.Rules.{normalize, forbidden}
use ai_web_testing.TaskPlan.Window.{contiguous_pending_steps, plan_step_ids}
use ai_web_testing.TaskPlan.Contract.{Contract, FlowRequest, CaseStep, GenerationRequest}
use ai_web_testing.TaskPlan.Probe.{map_probe_action_owners}
use ai_web_testing.TaskPlan.Memory
use ai_web_testing.TaskPlan.Changes.{is_bound_to, same_effect}
use ai_web_testing.TaskPlan.Service.{is_not_found, ServiceAction, on_repository}

unfoldable pub status_rank : Status → ℕ
status_rank grounding = 0
status_rank ready_for_generation = 1
status_rank awaiting_approval = 2
status_rank approved = 3
status_rank executing = 4
status_rank completed = 5
status_rank failed = 6
status_rank Status.blocked = 7
status_rank Status.superseded = 8

-- `==` of statuses
abbrev pub has_status : Plan → Status → Bool
has_status plan status = nat_eq (status_rank plan.status) (status_rank status)

-- `==` of bindings
unfoldable pub same_binding : Binding → Binding → Bool
same_binding a b = a.plan_id == b.plan_id && int_eq a.version b.version && a.sha256 == b.sha256

abbrev pub is_nothing : Option ℤ → Bool
is_nothing none = true
is_nothing (some id) = false

-- how often the loop over the occurrences of a step runs, and what a negative number takes off the sum
abbrev pub times : ℤ → ℕ
times (pos n) = n
times (negsuc n) = 0

abbrev pub debt : ℤ → ℕ
debt (pos n) = 0
debt (negsuc n) = n + 1

abbrev repeat : ℕ → Step → List Step → List Step
repeat zero step steps = steps
repeat (suc n) step steps = step ∷ repeat n step steps

-- The plan's steps, each as often as it is expected to occur.
unfoldable pub expanded_plan_steps : List Step → List Step
expanded_plan_steps [] = []
expanded_plan_steps (step ∷ steps) =
    repeat (times step.expected_occurrences) step (expanded_plan_steps steps)

unfoldable pub total_debt : List Step → ℕ
total_debt [] = 0
total_debt (step ∷ steps) = debt step.expected_occurrences + total_debt steps

module _ (c : Contract) where
  unfoldable pub preserves : Step → CaseStep → Bool
  preserves planned step =
      normalize c.lower step.action == planned.action
      && normalize c.lower step.intent == normalize c.lower planned.intent
      && normalize c.lower step.target == normalize c.lower planned.target
      && trim_space step.value == planned.value
      && step.trigger == planned.trigger
      && step.context_key == planned.context_key
      && int_eq step.timeout_ms planned.timeout_ms
      && step.idempotency == planned.idempotency
      && same_effect step.side_effect planned.side_effect

  check_case_step : List String → ℕ → Step → CaseStep → Result Error (Unit {0})
  check_case_step rules index planned step = do
    reject_if (not (preserves planned step)) (step_not_preserved index planned.id)
    reject_if (forbidden c.lower rules (step.action ++ " " ++ step.target ++ " " ++ step.intent))
        (step_forbidden index)

  -- the two nested loops; a read past the end of the case's steps is a panic
  unfoldable pub check_case_steps :
      List String → ℕ → List Step → List CaseStep → Result Error (Unit {0})
  unfolding check_case_step
  check_case_steps rules index [] steps = ok tt
  check_case_steps rules index (planned ∷ rest) [] = err index_out_of_range
  check_case_steps rules index (planned ∷ rest) (step ∷ steps) =
      let later = check_case_steps rules (index + 1) rest steps in
      do check_case_step rules index planned step; later

  -- validateCaseSemantics, on what the case decodes to
  unfoldable pub validate_case_semantics : Plan → Option (List CaseStep) → Result Error (Unit {0})
  validate_case_semantics plan none = err steps_not_preserved
  validate_case_semantics plan (some steps) = do
    reject_if
        (not
          (nat_eq (length steps + total_debt plan.steps) (length (expanded_plan_steps plan.steps))))
        (wrong_step_count (length steps))
    check_case_steps plan.forbidden_actions 0 (expanded_plan_steps plan.steps) steps

  abbrev is_research : Option String → Bool
  is_research none = false
  is_research (some profile) = profile == "research-v2"

  abbrev of_checker : Option String → Result Error (Unit {0})
  of_checker none = ok tt
  of_checker (some message) = err (draft_case_rejected message)

  check_generation : Plan → Option GenerationRequest → Result Error (Unit {0})
  check_generation plan none = err invalid_generate_arguments
  check_generation plan (some request) = do
    reject_if (not (same_binding request.plan_binding (binding_of plan))) binding_mismatch
    if is_research (c.profile request.case)
        then of_checker (c.validate_draft_case plan request.case)
        else validate_case_semantics plan (c.case_steps request.case)

  -- validateGenerationArguments
  unfoldable pub validate_generation_arguments : Plan → String → Result Error (Unit {0})
  unfolding check_generation
  validate_generation_arguments plan arguments =
      check_generation plan (c.generation_request arguments)

  check_flow : Plan → List Step → Option FlowRequest → Result Error (Unit {0})
  check_flow plan steps none = err invalid_flow_arguments
  check_flow plan steps (some request) = do map_probe_action_owners c plan steps request; ok tt

  -- authorizeExploration
  unfoldable pub authorize_exploration : Plan → String → String → Result Error (Unit {0})
  unfolding check_flow
  authorize_exploration plan tool arguments = do
    reject_if (not (has_status plan grounding)) (wrong_status tool plan.status)
    ids ← plan_step_ids (c.plan_step_ids arguments)
    steps ← contiguous_pending_steps plan.steps ids
    if not (tool == "explore_flow") then ok tt else check_flow plan steps (c.flow_request arguments)

  abbrev is_generation : Option ℤ → Option ℤ → Bool
  is_generation none bound = false
  is_generation (some id) bound = is_bound_to id bound

  -- the switch of Authorize
  unfoldable pub authorize_tool : Plan → String → String → Result Error (Unit {0})
  authorize_tool plan tool arguments =
      if tool == "explore_page" || tool == "explore_flow"
      then authorize_exploration plan tool arguments
      else if tool == "generate_dsl"
      then (do
        reject_if (not (has_status plan ready_for_generation)) (wrong_status tool plan.status)
        validate_generation_arguments plan arguments)
      else if tool == "execute_dsl"
      then (do
        reject_if (not (has_status plan approved) || is_nothing plan.bound_generation_id)
            generation_not_bound
        reject_if (not (is_generation (c.generation_id arguments) plan.bound_generation_id))
            generation_mismatch)
      else if tool == "get_report"
      then reject_if (not (has_status plan executing)) (wrong_status tool plan.status)
      else if tool == "fix_and_retry"
      then reject_if (not (has_status plan failed)) (wrong_status tool plan.status)
      else ok tt

  -- the case of set_task_plan
  authorize_revision : Result Error Plan → Result Error (Unit {0})
  authorize_revision (err e) = if is_not_found e then ok tt else err e
  authorize_revision (ok plan) =
      reject_if (has_status plan approved || has_status plan executing || has_status plan completed)
        (revision_not_allowed plan.status)

  unfoldable authorize_call : String → String → Result Error Plan → Result Error (Unit {0})
  authorize_call tool arguments (ok plan) = authorize_tool plan tool arguments
  authorize_call tool arguments (err e) =
      if is_not_found e && tool == "ask_user_question" then ok tt else err (plan_required tool e)

  unfoldable pub authorize : String → String → String → ServiceAction (Unit {0})
  unfolding authorize_revision authorize_call
  authorize run_id tool arguments s =
      let (found, s') = on_repository (Memory.get_current run_id) s in
      (
        if tool == "set_task_plan"
            then authorize_revision found
            else authorize_call tool arguments found,
        s',
      )

  check_binding : Binding → String → Plan → Result Error Plan
  check_binding binding case_json plan = do
    reject_if (not (same_binding binding (binding_of plan))) binding_outdated
    reject_if
        (not (has_status plan ready_for_generation)
          && not (has_status plan awaiting_approval)
          && not (has_status plan approved)
          && not (has_status plan executing))
        (binding_not_allowed plan.status)
    if is_research (c.profile case_json)
        then of_checker (c.validate_compiled_case plan case_json)
        else validate_case_semantics plan (c.case_steps case_json)
    ok plan

  -- ValidateGenerationBinding
  unfoldable pub validate_generation_binding : String → Binding → String → ServiceAction Plan
  unfolding check_binding
  validate_generation_binding run_id binding case_json s =
      let (found, s') = on_repository (Memory.get_current run_id) s in
      (found >>= check_binding binding case_json, s')

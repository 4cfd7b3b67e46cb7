-- ===== src/TaskPlan/Service.antt =====
-- The plan service (internal/taskplan/service.go) on the repository in memory: each method reads the
-- current plan, changes it by a function of Changes, and saves it.
pub mod Session
pub mod Approval
use ai_web_testing.Prelude.{
  ℕ, ◌+◌, String, Bool, true, false, ◌||◌, Option, none, some, List, [], ◌∷◌, if◌then◌else◌, ◌==◌,
  trim_space, ℤ, pos, Result, ok, err, Action, return, fail, lift, ◌>>=◌, ◌>>◌,
}
use ai_web_testing.TaskPlan.Types.{
  Status, grounding, failed, blocked, step_pending, Step, StepDefinition, Definition, Plan,
  CreateRequest, Error, not_found, run_id_required,
}
use ai_web_testing.TaskPlan.Validate.{validate_definition}
use ai_web_testing.TaskPlan.Contract.{Contract}
use ai_web_testing.TaskPlan.Memory
use ai_web_testing.TaskPlan.Memory.{MemoryRepository}
use ai_web_testing.TaskPlan.Changes.{
  record_result, record_failure, approve_plan, end_plan, carry_forward_grounding,
  rebind_carried_target_bindings,
}

pub record Service : Type 0 where
  pub repository : MemoryRepository
  pub readings : ℕ

abbrev pub ServiceAction : Type 0 → Type 0
ServiceAction A = Action Service Error A

unfoldable pub on_repository : {A : Type 0} → Action MemoryRepository Error A → ServiceAction A
on_repository m s =
    let (r, repository') = m s.repository in (r, record s { repository = repository' })

abbrev pub is_not_found : Error → Bool
is_not_found not_found = true
is_not_found _ = false

-- the steps of a new plan
unfoldable pub new_steps : ℕ → List StepDefinition → List Step
new_steps position [] = []
new_steps position (step ∷ steps) =
    record {
      id = step.id;
      position = position;
      intent = step.intent;
      action = step.action;
      target = step.target;
      value = step.value;
      trigger = step.trigger;
      context_key = step.context_key;
      timeout_ms = step.timeout_ms;
      expected_occurrences = step.expected_occurrences;
      idempotency = step.idempotency;
      side_effect = step.side_effect;
      preconditions = step.preconditions;
      completion_conditions = step.completion_conditions;
      status = step_pending;
      grounding_attempts = 0;
      evidence = [];
      target_binding = none;
    }
    ∷ new_steps (position + 1) steps

-- `if errors.Is(err, ErrNotFound) { return nil }`
abbrev unless_missing :
    {A : Type 0} → (Plan → ServiceAction A) → ServiceAction A → Result Error Plan → ServiceAction A
unless_missing change missing (ok plan) = change plan
unless_missing change missing (err e) = if is_not_found e then missing else fail e

module _ (c : Contract) where
  read_clock : ServiceAction ℕ
  read_clock s = (ok (c.now s.readings), record s { readings = s.readings + 1 })

  -- plan.UpdatedAt = s.now().UTC(); return s.repository.Save(ctx, plan)
  unfoldable pub save_stamped : Plan → ServiceAction (Unit {0})
  unfolding read_clock
  save_stamped plan = do
    now ← read_clock
    on_repository (Memory.save (record plan { updated_at = now }))

  unfoldable pub new_plan : CreateRequest → Definition → ℕ → Plan
  unfolding new_steps
  new_plan request definition now =
      let hash = c.semantic_hash definition in
      record {
        id = c.plan_id request.run_id hash now;
        schema_version = "agent.task_plan.v2";
        run_id = request.run_id;
        actor_user_id = request.actor_user_id;
        project_id = request.project_id;
        version = pos 0;
        goal = definition.goal;
        status = grounding;
        plan_sha256 = hash;
        max_side_effect = definition.max_side_effect;
        forbidden_actions = definition.forbidden_actions;
        steps = new_steps 0 definition.steps;
        bound_generation_id = none;
        created_at = now;
        updated_at = now;
      }

  rebinding : Plan → ServiceAction Plan
  rebinding created =
      let (created', changed) = rebind_carried_target_bindings c created in
      if changed
      then (do on_repository (Memory.save created'); return created')
      else return created'

  -- from the call of repository.CreateVersion on
  store_version : Plan → ServiceAction Plan
  unfolding rebinding
  store_version plan = do created ← on_repository (Memory.create_version plan); rebinding created

  create_after : Plan → Result Error Plan → ServiceAction Plan
  unfolding store_version
  create_after plan (ok previous) =
      if previous.plan_sha256 == plan.plan_sha256
      then return previous
      else store_version (carry_forward_grounding plan previous)
  create_after plan (err e) = if is_not_found e then store_version plan else fail e

  -- the current version, or the error of a run that has none
  previous_version : String → ServiceAction (Result Error Plan)
  previous_version run_id s =
      let (r, s') = on_repository (Memory.get_current run_id) s in (ok r, s')

  create_checked : CreateRequest → ServiceAction Plan
  unfolding read_clock create_after previous_version
  create_checked request = do
    definition ← lift (validate_definition c.lower request.definition)
    now ← read_clock
    previous ← previous_version request.run_id
    create_after (new_plan request definition now) previous

  unfoldable pub create_version : CreateRequest → ServiceAction Plan
  unfolding create_checked
  create_version request =
      if trim_space request.run_id == "" then fail run_id_required else create_checked request

  unfoldable pub get_current : String → ServiceAction Plan
  get_current run_id = on_repository (Memory.get_current run_id)

  abbrev passes : String → Bool
  passes tool =
      tool == "set_task_plan" || tool == "ask_user_question" || tool == "validate_page_elements"

  unfoldable pub record_tool_result :
      String → String → String → String → ℤ → ServiceAction (Unit {0})
  unfolding save_stamped
  record_tool_result run_id tool arguments result event_seq = if passes tool then return tt else do
    plan ← on_repository (Memory.get_current run_id)
    plan' ← lift (record_result c plan tool arguments result event_seq)
    save_stamped plan'

  -- a method that does nothing for a run with no plan
  change_if_any : String → (Plan → ServiceAction (Unit {0})) → ServiceAction (Unit {0})
  change_if_any run_id change s =
      let (r, s') = on_repository (Memory.get_current run_id) s in
      unless_missing change (return tt) r s'

  unfoldable pub record_tool_failure : String → String → String → ServiceAction (Unit {0})
  unfolding save_stamped change_if_any
  record_tool_failure run_id tool message =
      change_if_any run_id (λ plan. save_stamped (record_failure c plan tool message))

  unfoldable pub approve : String → ℤ → ServiceAction (Unit {0})
  unfolding save_stamped
  approve run_id generation_id = do
    plan ← on_repository (Memory.get_current run_id)
    plan' ← lift (approve_plan plan generation_id)
    save_stamped plan'

  abbrev save_ended : Option Plan → ServiceAction (Unit {0})
  save_ended none = return tt
  save_ended (some plan) = save_stamped plan

  unfoldable pub mark_terminal : Status → String → ServiceAction (Unit {0})
  unfolding save_stamped change_if_any
  mark_terminal status run_id = change_if_any run_id (λ plan. save_ended (end_plan status plan))

  unfoldable pub mark_failed : String → ServiceAction (Unit {0})
  unfolding mark_terminal
  mark_failed run_id = mark_terminal failed run_id

  unfoldable pub mark_blocked : String → ServiceAction (Unit {0})
  unfolding mark_terminal
  mark_blocked run_id = mark_terminal blocked run_id

-- ===== src/Harness/Records.antt =====
-- What the harness (internal/harness/harness.go) writes into the log of a run and into its transcript.
use ai_web_testing.Prelude.{
  ℕ, zero, String, Bool, true, false, Option, none, some, List, [], ◌∷◌, ◌++◌, length,
  if◌then◌else◌, ◌==◌, insert, ℤ, pos, Result, ok, err, return, fail, lift, relabelled, attempt,
  ◌>>=◌, ◌>>◌,
}
use ai_web_testing.AgentService.Types.{
  Json, null, num, text, arr, obj, Items, nil, cons, Fields, end, field, Payload, EventType,
  AgentRun, Event, Message, ModelTool,
}
use ai_web_testing.AgentService.Service.{event, record_event, draw_id, save_run}
use ai_web_testing.TaskPlan.Types.{
  Plan, Step, Status, StepStatus, SideEffect, TargetBinding, step_pending, step_grounded,
  step_failed, step_blocked, no_effect, browser_state, external_state, unknown, other, grounding,
  ready_for_generation, awaiting_approval, approved, executing, completed, failed, blocked,
  superseded,
}
use ai_web_testing.TaskPlan.Types as Plans
use ai_web_testing.TaskPlan.Service as PlanService
use ai_web_testing.Tools.{Artifact, ToolResult}
use ai_web_testing.Harness.Policy.{gate}
use ai_web_testing.Harness.State.{
  TurnAction, Setup, Error, of_runs, of_plans, save_failure, result_invalid, failure_not_encoded,
  Cause, policy_refused, LineageSummary, TaskPlanSummary, on_runs, on_plans, get_run, set_run,
}

abbrev pub status_name : Status → String
status_name grounding = "grounding"
status_name ready_for_generation = "ready_for_generation"
status_name awaiting_approval = "awaiting_approval"
status_name approved = "approved"
status_name executing = "executing"
status_name completed = "completed"
status_name failed = "failed"
status_name blocked = "blocked"
status_name superseded = "superseded"

abbrev step_status_name : StepStatus → String
step_status_name step_pending = "pending"
step_status_name step_grounded = "grounded"
step_status_name step_failed = "failed"
step_status_name step_blocked = "blocked"

abbrev side_effect_name : SideEffect → String
side_effect_name no_effect = "none"
side_effect_name browser_state = "browser_state"
side_effect_name external_state = "external_state"
side_effect_name unknown = "unknown"
side_effect_name (other s) = s

abbrev is_grounded_status : StepStatus → Bool
is_grounded_status step_grounded = true
is_grounded_status _ = false

texts : List String → Items
texts [] = nil
texts (s ∷ ss) = cons (text s) (texts ss)

-- `append([]string(nil), values...)` is nil for no values, and is encoded as null.
abbrev texts_json : List String → Json
texts_json [] = null
texts_json (s ∷ ss) = arr (texts (s ∷ ss))

abbrev items_json : Items → Json
items_json nil = null
items_json (cons item items) = arr (cons item items)

abbrev pub tool_message : String → String → Message
tool_message content tool_call_id = record {
  role = "tool";
  content = content;
  reasoning_content = "";
  tool_call_id = tool_call_id;
  tool_calls = [];
  segment_boundary = false;
}

abbrev pub with_message : Message → AgentRun → AgentRun
with_message message run = record run { transcript = run.transcript ++ message ∷ [] }

-- the parts of a target binding in the snapshot of a step
abbrev binding_fields : Option TargetBinding → Fields → Fields
binding_fields none rest = rest
binding_fields (some b) rest = field "target_binding_id" (text b.binding_id) (
    field "probe_id" (text b.probe_id) (
      field "observation_id" (text b.observation_id) (
        field "observation_sha256" (text b.observation_sha256) (
          field "page_state_id" (text b.page_state_id) (
            field "selected_candidate_id" (text b.selected_candidate_id)
              (field "element_refs" (texts_json b.element_refs) rest))))))

-- omitempty on a string, and on a number
abbrev unless_blank : String → String → Fields → Fields
unless_blank name s rest = if s == "" then rest else field name (text s) rest

abbrev is_zero : ℤ → Bool
is_zero (pos zero) = true
is_zero _ = false

module _ (itoa : ℤ → String) where
  abbrev optional_number : Option ℤ → Json
  optional_number none = null
  optional_number (some n) = num (itoa n)

  snapshots : List Step → Items
  unfolding texts
  snapshots [] = nil
  snapshots (step ∷ steps) =
      cons
        (obj (
          field "id" (text step.id) (
            field "position" (num (itoa (pos step.position))) (
              field "status" (text (step_status_name step.status)) (
                field "grounding_attempts" (num (itoa (pos step.grounding_attempts))) (
                  field "evidence_count" (num (itoa (pos (length step.evidence))))
                    (binding_fields step.target_binding end)))))))
        (snapshots steps)

  unfoldable pub task_plan_payload : Plan → Payload
  unfolding snapshots
  task_plan_payload plan =
      ("schema_version", text plan.schema_version)
      ∷ ("plan_id", text plan.id)
      ∷ ("version", num (itoa plan.version))
      ∷ ("plan_sha256", text plan.plan_sha256)
      ∷ ("status", text (status_name plan.status))
      ∷ ("bound_generation_id", optional_number plan.bound_generation_id)
      ∷ ("steps", arr (snapshots plan.steps))
      ∷ []

  abbrev handoff_binding : Option TargetBinding → Fields
  handoff_binding none = end
  handoff_binding (some b) =
      unless_blank "target_binding_id" b.binding_id
        (unless_blank "selected_candidate_id" b.selected_candidate_id end)

  abbrev unless_zero : String → ℤ → Fields → Fields
  unless_zero name n rest = if is_zero n then rest else field name (num (itoa n)) rest

  handoff_steps : List Step → Items
  unfolding texts
  handoff_steps [] = nil
  handoff_steps (step ∷ steps) =
      let conditions = field "preconditions" (texts_json step.preconditions) (
        field "completion_conditions" (texts_json step.completion_conditions)
          (handoff_binding step.target_binding)) in
      let effects =
        field "idempotency" (text step.idempotency)
          (field "side_effect" (text (side_effect_name step.side_effect)) conditions) in
      cons
        (obj (
          field "id" (text step.id) (
            field "position" (num (itoa (pos step.position))) (
              field "action" (text step.action) (
                field "intent" (text step.intent) (
                  unless_blank "target" step.target (
                    unless_blank "value" step.value (
                      unless_blank "trigger" step.trigger (
                        unless_blank "context_key" step.context_key
                          (unless_zero "timeout_ms" step.timeout_ms effects))))))))))
        (handoff_steps steps)

  unfoldable pub handoff_json : Plan → Json
  unfolding handoff_steps
  handoff_json plan = obj (
      field "schema_version" (text "agent.grounding_handoff.v1") (
        field "kind" (text "grounding_complete") (
          field "goal" (text plan.goal) (
            field "plan_id" (text plan.id) (
              field "plan_version" (num (itoa plan.version)) (
                field "plan_sha256" (text plan.plan_sha256) (
                  field "status" (text (status_name plan.status)) (
                    field "steps" (items_json (handoff_steps plan.steps))
                      (field "instruction" (text handoff_instruction) end)))))))))
    where
      handoff_instruction : String
      handoff_instruction =
          "Every plan step is grounded. The exploration context was closed to bound the request size, so treat this handoff and the persisted TaskPlan as the authoritative plan. Author the research-v2 DSL with generate_dsl: bind each step to its plan_step_id and target_binding_id, and reproduce every plan-owned field (action, value, trigger, context_key, timeout_ms, idempotency, side_effect, preconditions, completion conditions) exactly."

abbrev encoded_or : String → Option String → String
encoded_or fallback none = fallback
encoded_or fallback (some encoded) = encoded

abbrev lineage_of : TargetBinding → LineageSummary
lineage_of b = record {
  probe_id = b.probe_id;
  observation_id = b.observation_id;
  observation_sha256 = b.observation_sha256;
  page_state_id = b.page_state_id;
  target_binding_id = b.binding_id;
  selected_candidate_id = b.selected_candidate_id;
  element_refs = b.element_refs;
}

abbrev bind_step : String → Option TargetBinding → TaskPlanSummary → TaskPlanSummary
bind_step id none s = s
bind_step id (some b) s = record s {
  step_bindings = insert id b.binding_id s.step_bindings;
  step_lineage = insert id (lineage_of b) s.step_lineage;
}

add_steps : List Step → TaskPlanSummary → TaskPlanSummary
add_steps [] s = s
add_steps (step ∷ steps) s =
    let listed : TaskPlanSummary = record s { step_ids = s.step_ids ++ step.id ∷ [] } in
    let sorted : TaskPlanSummary =
      if is_grounded_status step.status
      then record listed { grounded_step_ids = s.grounded_step_ids ++ step.id ∷ [] }
      else record listed { pending_step_ids = s.pending_step_ids ++ step.id ∷ [] } in
    add_steps steps (bind_step step.id step.target_binding sorted)

unfoldable pub model_task_plan_summary : Plan → TaskPlanSummary
unfolding add_steps
model_task_plan_summary plan = add_steps plan.steps (record {
  plan_id = plan.id;
  version = plan.version;
  plan_sha256 = plan.plan_sha256;
  status = plan.status;
  step_ids = [];
  grounded_step_ids = [];
  pending_step_ids = [];
  step_bindings = [];
  step_lineage = [];
  exploration_budget = none;
})

module _ {W : Type 0} (setup : Setup W) where
  unfoldable pub generation_handoff_message : Plan → Message
  unfolding handoff_json
  generation_handoff_message plan = record {
    role = "user";
    content = encoded_or plan.goal (setup.tracer.marshal (handoff_json setup.tracer.itoa plan));
    reasoning_content = "";
    tool_call_id = "";
    tool_calls = [];
    segment_boundary = true;
  }

  -- e.runs.RecordEvent for the run of the turn
  unfoldable pub emit : Event → TurnAction W Event
  emit e = do run ← get_run; relabelled of_runs (on_runs (record_event setup.dependencies run e))

  unfoldable pub append_message : Message → TurnAction W (Unit {0})
  append_message message = do run ← get_run; set_run (with_message message run)

  unfoldable pub save : TurnAction W (Unit {0})
  save = do run ← get_run; relabelled of_runs (on_runs (save_run setup.dependencies run))

  unfoldable pub record_message : String → TurnAction W (Unit {0})
  unfolding emit
  record_message content = do
    step_id ← on_runs (relabelled of_runs (draw_id setup.dependencies "step"))
    emit (event EventType.message_started step_id "" [])
    emit (event EventType.message_delta step_id "" (("delta", text content) ∷ []))
    emit (event EventType.message_finished step_id "" (("content", text content) ∷ []))
    return tt

  unfoldable pub record_tool_start : String → ModelTool → TurnAction W (Unit {0})
  unfolding emit
  record_tool_start step_id call = do
    emit (event EventType.tool_started step_id call.id (("tool", text call.name) ∷ []))
    emit (event EventType.tool_args_delta step_id call.id (("arguments", text call.arguments) ∷ []))
    return tt

  unfoldable pub record_tool_failure : String → ModelTool → Cause → TurnAction W (Unit {0})
  unfolding emit
  record_tool_failure step_id call cause = do
    emit (
        event EventType.tool_failed step_id call.id
          (("tool", text call.name) ∷ ("message", text (setup.cause_text cause)) ∷ []))
    return tt

  -- the fields of a gate error, around the message: json.Marshal sorts the keys of a map
  abbrev failure_fields : ModelTool → String → Cause → Fields
  failure_fields call message (policy_refused (gate code budget next_action)) =
      field "code" (text code) (
        field "exploration_budget" (setup.budget_json budget) (
          field "message" (text message) (
            field "next_action" (text next_action)
              (field "status" (text "error") (field "tool" (text call.name) end)))))
  failure_fields call message cause =
      field "message" (text message)
        (field "status" (text "error") (field "tool" (text call.name) end))

  abbrev pub or_fail : {A : Type 0} → Error → Option A → TurnAction W A
  or_fail e none = fail e
  or_fail e (some a) = return a

  unfoldable pub record_recoverable_tool_failure :
      String → ModelTool → Cause → TurnAction W (Unit {0})
  unfolding record_tool_failure append_message
  record_recoverable_tool_failure step_id call cause = do
    record_tool_failure step_id call cause
    content ←
        or_fail failure_not_encoded
          (setup.tracer.marshal (obj (failure_fields call (setup.cause_text cause) cause)))
    append_message (tool_message content call.id)
    run ← get_run
    relabelled save_failure (on_runs (save_run setup.dependencies run))

  abbrev pub emit_artifact : String → ModelTool → Option Artifact → TurnAction W (Unit {0})
  emit_artifact step_id call none = return tt
  emit_artifact step_id call (some artifact) = do
    emit (
        event EventType.artifact_published step_id call.id
          (("type", text artifact.kind) ∷ ("id", text artifact.id) ∷ []))
    return tt

  -- the sequence number of the event of the result
  unfoldable pub record_tool_result : String → ModelTool → ToolResult → TurnAction W ℕ
  unfolding emit
  record_tool_result step_id call result = do
    payload ← or_fail result_invalid (setup.result_payload call.name result.content)
    persisted ← emit (event EventType.tool_result step_id call.id payload)
    emit (event EventType.tool_finished step_id call.id (("tool", text call.name) ∷ []))
    emit_artifact step_id call result.artifact
    return persisted.seq

  abbrev emit_plan : String → String → Plan → TurnAction W (Unit {0})
  emit_plan step_id tool_call_id plan = do
    emit (
        event EventType.task_plan_updated step_id tool_call_id
          (task_plan_payload setup.tracer.itoa plan))
    return tt

  -- the current plan, `none` if the run has none; a nil plan service is not asked
  abbrev plan_or_nothing : Result Plans.Error Plan → Result Error (Option Plan)
  plan_or_nothing (ok plan) = ok (some plan)
  plan_or_nothing (err e) = if PlanService.is_not_found e then ok none else err (of_plans e)

  abbrev pub found_plan : Option (Result Plans.Error Plan) → TurnAction W (Option Plan)
  found_plan none = return none
  found_plan (some r) = lift (plan_or_nothing r)

  unfoldable pub find_plan : TurnAction W (Option Plan)
  find_plan = do
    run ← get_run
    found ← on_plans (attempt (PlanService.get_current setup.contract run.id))
    found_plan found

  abbrev pub emit_found : String → String → Option Plan → TurnAction W (Unit {0})
  emit_found step_id tool_call_id none = return tt
  emit_found step_id tool_call_id (some plan) = emit_plan step_id tool_call_id plan

  unfoldable pub record_task_plan_state : String → String → TurnAction W (Unit {0})
  unfolding emit find_plan
  record_task_plan_state step_id tool_call_id = do
    plan ← find_plan
    emit_found step_id tool_call_id plan

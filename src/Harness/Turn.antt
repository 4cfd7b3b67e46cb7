-- ===== src/Harness/Turn.antt =====
-- The turn handler of the harness (continueRun of internal/harness/harness.go): what is done with a
-- response of the model, call by call. The handler's value says whether the loop goes on.
pub mod Frames
pub mod Steps
pub mod Gated
pub mod Replies
pub mod Completed
use ai_web_testing.Prelude.{
  ℕ, ◌+◌, ◌*◌, String, Bool, true, false, not, ◌&&◌, ◌||◌, Option, none, some, List, [], ◌∷◌, ◌++◌,
  length, trim_space, if◌then◌else◌, ◌==◌, Dict, ℤ, pos, Result, ok, err, Action, return, fail,
  lift, relabelled, attempt, ◌>>=◌, ◌>>◌,
}
use ai_web_testing.AgentService.Types.{AgentRun, failed, Message, ModelTool, Question}
use ai_web_testing.AgentService.Service.{draw_id, complete_run, request_user_input_for_call}
use ai_web_testing.TaskPlan.Types as Plans
use ai_web_testing.TaskPlan.Types.{Plan, Status, ready_for_generation, completed}
use ai_web_testing.TaskPlan.Authorize.{authorize, has_status}
use ai_web_testing.TaskPlan.Service as PlanService
use ai_web_testing.Tools.{Artifact, Call, Failure, ToolResult}
use ai_web_testing.Tools as Tools
use ai_web_testing.Agent.Types.{is_exploration_tool}
use ai_web_testing.Agent.Loop.{ModelResponse}
use ai_web_testing.Harness.Policy.{PolicyError, before_tool_call, exploration_budget}
use ai_web_testing.Harness.Cost.{
  ActiveRun, record_transcript_cost, raise_turn_budget, mark_generation_segment,
}
use ai_web_testing.Harness.State.{
  Shared, Execution, Turn, TurnAction, Setup, Cause, plan_refused, policy_refused, tool_failed,
  generation_id_invalid, Error, of_runs, of_plans, completes_without_plan, plan_not_completed,
  canceled, of_cost, plan_failure, advance_plan, pending_payload_invalid, artifact_id_invalid,
  summarize_result, TaskPlanSummary, on_runs, on_plans, on_active_runs, get_run, set_run,
}
use ai_web_testing.Harness.Records.{
  tool_message, append_message, save, record_message, record_tool_start, record_tool_failure,
  record_recoverable_tool_failure, record_tool_result, record_task_plan_state, find_plan,
  model_task_plan_summary, generation_handoff_message,
}
use ai_web_testing.Harness.Trace.{
  ToolTraceIdentity, new_tool_trace_identity, record_pipeline_tool_trace, pipeline_reason_code,
  pipeline_lineage,
}

abbrev pub turn_budget_reserve : ℕ
turn_budget_reserve = 8

abbrev pub call_of : AgentRun → ModelTool → Call
call_of run call = record {
  run_id = run.id;
  run_input = run.input;
  actor_user_id = run.actor_user_id;
  conversation_id = run.conversation_id;
  project_id = run.project_id;
  latest_generation_id = run.latest_generation_id;
  approved_generation_id = run.approved_generation_id;
  tool_call_id = call.id;
  name = call.name;
  arguments = call.arguments;
}

-- AgentRun{}, whose status is "" in the source: nothing reads it before it is set.
abbrev pub no_run : AgentRun
no_run = record {
  id = "";
  actor_user_id = pos 0;
  conversation_id = "";
  project_id = pos 0;
  status = failed;
  input = "";
  pending_tool_call_id = none;
  pending_step_id = none;
  latest_generation_id = none;
  approved_generation_id = none;
  transcript = [];
  created_at = 0;
  updated_at = 0;
}

-- errors.Is(err, context.Canceled)
abbrev is_canceled : Failure → Bool
is_canceled Tools.canceled = true
is_canceled _ = false

-- `run, err = ...`: the run of the turn is overwritten even if there is an error
module _ {W : Type 0} where
  abbrev assigned : Result Error AgentRun → Turn W → Result Error (Unit {0}) × Turn W
  assigned (ok run) t = (ok tt, record t { run = run })
  assigned (err e) t = (err e, record t { run = no_run })

  unfoldable pub assign_run : TurnAction W AgentRun → TurnAction W (Unit {0})
  assign_run m t = let (r, t') = m t in assigned r t'

module _ {W : Type 0} (setup : Setup W) where
  abbrev trace : String → ModelTool → ToolTraceIdentity → String → String → TurnAction W (Unit {0})
  trace = record_pipeline_tool_trace setup

  -- a plan that must be there; a nil plan service has none
  abbrev needed_plan : TurnAction W (Option Plan)
  needed_plan = do
    run ← get_run
    on_plans (relabelled of_plans (PlanService.get_current setup.contract run.id))

  -- The call gets no result: a trace, an event, and a message that lets the model go on.
  unfoldable pub refuse_call :
      String → ModelTool → ToolTraceIdentity → String → String → Cause → TurnAction W Bool
  refuse_call step_id call identity status reason cause = do
    trace step_id call identity status reason
    record_recoverable_tool_failure setup step_id call cause
    return true

  -- `e.tools.Execute`, which is recorded
  unfoldable pub execute_tool : ModelTool → TurnAction W (Result Failure ToolResult)
  execute_tool call t =
      let (r, shared') = Tools.execute setup.valid_json setup.tools (call_of t.run call) t.shared in
      (
        ok r,
        record t {
          shared = shared';
          executed = record { run = t.run; call = call; plans = t.shared.plans } ∷ t.executed;
        },
      )

  abbrev state_if_planned : String → ModelTool → Option (Unit {0}) → TurnAction W (Unit {0})
  state_if_planned step_id call none = return tt
  state_if_planned step_id call (some done) = record_task_plan_state setup step_id call.id

  -- after an error of the tool
  unfoldable pub after_failure :
      String → ModelTool → ToolTraceIdentity → Failure → TurnAction W Bool
  unfolding refuse_call
  after_failure step_id call identity failure = if is_canceled failure then fail canceled else do
    trace step_id call identity "failed" "tool_execution_failed"
    run ← get_run
    recorded ← on_plans (
        relabelled (plan_failure call.name) (
          PlanService.record_tool_failure setup.contract run.id call.name
            (setup.cause_text (tool_failed failure))))
    state_if_planned step_id call recorded
    record_recoverable_tool_failure setup step_id call (tool_failed failure)
    return true

  abbrev or_fail : {A : Type 0} → Error → Option A → TurnAction W A
  or_fail e none = fail e
  or_fail e (some a) = return a

  abbrev waiting_run : String → String → String → List Question → TurnAction W AgentRun
  waiting_run run_id tool_call_id step_id questions = do
    (waiting, e) ← on_runs (
        relabelled of_runs
          (request_user_input_for_call setup.dependencies run_id tool_call_id step_id questions))
    return waiting

  -- The tool asks the user: the run waits, and the loop ends.
  unfoldable pub after_pending :
      String → ModelTool → ToolTraceIdentity → Tools.Pending → TurnAction W Bool
  after_pending step_id call identity pending = do
    trace step_id call identity "pending" "user_input_required"
    questions ← or_fail pending_payload_invalid (setup.ask_user_request pending.payload)
    save setup
    run ← get_run
    assign_run (waiting_run run.id call.id step_id questions)
    return false

  abbrev keep_generation : String → ModelTool → String → Option ℤ → TurnAction W (Unit {0})
  keep_generation step_id call text none = do
    attempt {F = Error} (record_tool_failure setup step_id call (generation_id_invalid text))
    fail (artifact_id_invalid text)
  keep_generation step_id call text (some id) = do
    run ← get_run
    set_run (record run { latest_generation_id = some id; approved_generation_id = none })

  -- A new generation is not approved, and a new plan has no generation.
  unfoldable pub accept_artifact : String → ModelTool → Option Artifact → TurnAction W (Unit {0})
  accept_artifact step_id call none = return tt
  accept_artifact step_id call (some artifact) =
      if artifact.kind == "dsl_generation"
      then keep_generation step_id call artifact.id (setup.parse_int artifact.id)
      else if artifact.kind == "task_plan"
      then (do
        run ← get_run
        set_run (record run { latest_generation_id = none; approved_generation_id = none }))
      else return tt

  abbrev claim_segment : Option (Result Plans.Error Plan) → TurnAction W (Option Plan)
  claim_segment (some (ok plan)) =
      if not (has_status plan ready_for_generation) then return none else do
        run ← get_run
        claimed ← on_active_runs (mark run.id plan.plan_sha256)
        return (if claimed then some plan else none)
    where
      mark : String → String → Dict ActiveRun → Result Error Bool × Dict ActiveRun
      mark run_id hash active_runs =
          let (claimed, active_runs') = mark_generation_segment run_id hash active_runs in
          (ok claimed, active_runs')
  claim_segment _ = return none

  -- the plan, if it is ready for its generation and the run has no segment for it
  unfoldable pub claim_ready_plan : TurnAction W (Option Plan)
  claim_ready_plan = do
    run ← get_run
    found ← on_plans (attempt (PlanService.get_current setup.contract run.id))
    claim_segment found

  abbrev raise_budget : Plan → TurnAction W (Unit {0})
  raise_budget plan = do
    run ← get_run
    on_active_runs (λ active_runs.
        (ok tt, raise_turn_budget run.id (length plan.steps * 2 + turn_budget_reserve) active_runs))

  abbrev summarize : ModelTool → Option Plan → TurnAction W (Option TaskPlanSummary)
  summarize call none = return none
  summarize call (some plan) = do
    raise_budget plan
    run ← get_run
    let completed_call = if is_exploration_tool call.name then some call else none
    return (
        some (record (model_task_plan_summary plan) {
          exploration_budget = some (
              exploration_budget setup.environment setup.exploration run (some plan)
                completed_call);
        }))

  unfoldable pub task_plan_summary : ModelTool → TurnAction W (Option TaskPlanSummary)
  task_plan_summary call =
      if not (is_exploration_tool call.name || call.name == "set_task_plan")
      then return none
      else do plan ← needed_plan; summarize call plan

  abbrev summary_or_error : Result String String → Result Error String
  summary_or_error (ok content) = ok content
  summary_or_error (err e) = err (summarize_result e)

  abbrev compact_if_set : TurnAction W (Unit {0})
  compact_if_set = do
    run ← get_run
    set_run (
        if setup.per_turn_transcript_compaction
        then record run { transcript = setup.compact_exploration_transcript run.transcript }
        else run)

  abbrev hand_off : Option Plan → TurnAction W (Unit {0})
  hand_off none = return tt
  hand_off (some plan) = append_message setup (generation_handoff_message setup plan)

  abbrev check_transcript : TurnAction W (Unit {0})
  check_transcript = do
    run ← get_run
    on_active_runs (
        relabelled of_cost
          (record_transcript_cost setup.cost_limits run.id (setup.transcript_bytes run.transcript)))

  -- after a result that is not pending, up to the message for the model
  unfoldable pub answer_call : String → ModelTool → ToolResult → TurnAction W (Option Plan)
  unfolding accept_artifact claim_ready_plan task_plan_summary
  answer_call step_id call result = do
    accept_artifact step_id call result.artifact
    source_event_seq ← record_tool_result setup step_id call result
    run ← get_run
    advanced ← on_plans (
        relabelled (advance_plan call.name) (
          PlanService.record_tool_result setup.contract run.id call.name call.arguments
            result.content (pos source_event_seq)))
    state_if_planned step_id call advanced
    ready_plan ← claim_ready_plan
    summary ← task_plan_summary call
    content ← lift (
        summary_or_error
          (setup.build_model_tool_summary call.name result.content source_event_seq summary))
    append_message setup (tool_message content call.id)
    return ready_plan

  unfoldable pub after_result :
      String → ModelTool → ToolTraceIdentity → ToolResult → TurnAction W Bool
  unfolding answer_call
  after_result step_id call identity result = do
    ready_plan ← answer_call step_id call result
    compact_if_set
    hand_off ready_plan
    save setup
    check_transcript
    lineage ← pipeline_lineage setup call.name result.content identity.plan_step_ids
    trace step_id call (record identity { lineage = lineage }) "succeeded" ""
    return true

  abbrev after_success :
      String → ModelTool → ToolTraceIdentity → ToolResult → Option Tools.Pending → TurnAction W Bool
  after_success step_id call identity result none = after_result step_id call identity result
  after_success step_id call identity result (some pending) =
      after_pending step_id call identity pending

  abbrev after_execution :
      String → ModelTool → ToolTraceIdentity → Result Failure ToolResult → TurnAction W Bool
  after_execution step_id call identity (err failure) = after_failure step_id call identity failure
  after_execution step_id call identity (ok result) =
      after_success step_id call identity result result.pending

  -- after the answer of the policy
  unfoldable pub after_policy :
      String → ModelTool → ToolTraceIdentity → Option PolicyError → TurnAction W Bool
  unfolding execute_tool after_failure after_result after_pending
  after_policy step_id call identity (some refusal) =
      refuse_call step_id call identity "rejected"
        (pipeline_reason_code refusal "tool_policy_rejected") (policy_refused refusal)
  after_policy step_id call identity none = do
    trace step_id call identity "authorized" ""
    trace step_id call identity "running" ""
    result ← execute_tool call
    after_execution step_id call identity result

  -- the plan that the policy sees
  abbrev policy_plan : ModelTool → TurnAction W (Option Plan)
  policy_plan call = if is_exploration_tool call.name then needed_plan else return none

  -- after the answer of the plan service, if there is one
  unfoldable pub after_authorization :
      String
      → ModelTool
      → ToolTraceIdentity
      → Option (Result Plans.Error (Unit {0}))
      → TurnAction W Bool
  unfolding after_policy refuse_call
  after_authorization step_id call identity (some (err e)) =
      refuse_call step_id call identity "rejected" "task_plan_authorization_failed" (plan_refused e)
  after_authorization step_id call identity _ = do
    plan ← policy_plan call
    run ← get_run
    after_policy step_id call identity
        (before_tool_call setup.environment setup.exploration run call plan)

  -- one round of the loop over the calls; `false` ends the turn and the run's loop
  unfoldable pub handle_call : ModelTool → TurnAction W Bool
  unfolding after_authorization
  handle_call call = do
    step_id ← on_runs (relabelled of_runs (draw_id setup.dependencies "step"))
    trace_plan ← find_plan setup
    identity ← new_tool_trace_identity setup call trace_plan
    trace step_id call identity "proposed" ""
    record_tool_start setup step_id call
    run ← get_run
    authorized ← on_plans (attempt (authorize setup.contract run.id call.name call.arguments))
    after_authorization step_id call identity authorized

  unfoldable pub handle_calls : List ModelTool → TurnAction W Bool
  unfolding handle_call
  handle_calls [] = return true
  handle_calls (call ∷ calls) = do
    again ← handle_call call
    if again then handle_calls calls else return false

  abbrev current_or_missing : Option (Result Plans.Error Plan) → TurnAction W (Unit {0})
  current_or_missing none = return tt
  current_or_missing (some (err e)) = fail (completes_without_plan e)
  current_or_missing (some (ok plan)) =
      if has_status plan completed then return tt else fail (plan_not_completed plan.status)

  -- a response without calls: the run ends, if its plan is completed
  unfoldable pub finish_run : TurnAction W Bool
  finish_run = do
    run ← get_run
    found ← on_plans (attempt (PlanService.get_current setup.contract run.id))
    current_or_missing found
    save setup
    run ← get_run
    assign_run (on_runs (relabelled of_runs (complete_run setup.dependencies run)))
    return false

  abbrev say : String → TurnAction W (Unit {0})
  say content = if trim_space content == "" then return tt else record_message setup content

  unfoldable pub answer : List ModelTool → TurnAction W Bool
  unfolding finish_run handle_calls
  answer [] = finish_run
  answer (call ∷ calls) = handle_calls (call ∷ calls)

  -- the handler
  unfoldable pub handle_response : ModelResponse → TurnAction W Bool
  unfolding answer
  handle_response response = do say response.content; answer response.tool_calls

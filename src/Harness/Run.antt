-- ===== src/Harness/Run.antt =====
-- The runs of the harness (internal/harness/harness.go): Continue, Resume and CancelOwned. Cancelling
-- the context of another call of Continue is left out, so Continue finds and leaves its own entry of the
-- active runs.
pub mod Approvals
use ai_web_testing.Prelude.{
  ℕ, String, Bool, true, false, not, ◌&&◌, ◌||◌, Option, none, some, List, [], ◌∷◌, if◌then◌else◌,
  Dict, lookup, insert, delete, ℤ, pos, Result, ok, err, Action, return, fail, relabelled, attempt,
  ◌>>=◌, ◌>>◌,
}
use ai_web_testing.AgentService.Types as Runs
use ai_web_testing.AgentService.Types.{
  Json, bool, Payload, is_running, is_cancelled, AgentRun, Message, ModelTool,
  ResumeToolCallRequest, run_is_cancelled,
}
use ai_web_testing.AgentService.Service as RunService
use ai_web_testing.AgentService.Service.{draw_id}
use ai_web_testing.AgentService.Trace.{not_appended}
use ai_web_testing.TaskPlan.Service as PlanService
use ai_web_testing.Agent.Loop.{
  ModelResponse, Outcome, stopped, exceeded, out_of_fuel, Caller, Finish, clamp_turns, run_turns,
}
use ai_web_testing.Agent.Loop as Loop
use ai_web_testing.Harness.Cost.{record_run_cost, turn_budget_for, new_active_run}
use ai_web_testing.Harness.State.{
  Turn, TurnAction, Setup, Error, of_runs, save_failure, of_trace, of_plans, of_cost,
  turns_exceeded, loop_unfinished, canceled, resume_not_encoded, no_generation, on_runs, on_plans,
  on_active_runs, get_run, set_run,
}
use ai_web_testing.Harness.Records.{
  tool_message, with_message, append_message, save, find_plan, record_task_plan_state, or_fail,
}
use ai_web_testing.Harness.Trace.{
  ToolTraceIdentity, pending_tool_trace_identity, record_pipeline_tool_trace,
}
use ai_web_testing.Harness.Turn.{handle_response, no_run}

-- A model, which reports the tokens of its call to the recorder that it is given.
abbrev pub Model : Type 0 → Type 0
Model W = (Option ℤ → TurnAction W (Unit {0})) → List Message → TurnAction W ModelResponse

-- errors.Is(err, ErrRunCancelled), through the wrappers
abbrev wraps_cancelled : Runs.Error → Bool
wraps_cancelled run_is_cancelled = true
wraps_cancelled (Runs.create_agent_run e) = wraps_cancelled e
wraps_cancelled (Runs.append_agent_event e) = wraps_cancelled e
wraps_cancelled (Runs.save_waiting_agent_run e) = wraps_cancelled e
wraps_cancelled (Runs.save_resumed_agent_run e) = wraps_cancelled e
wraps_cancelled _ = false

abbrev pub is_cancellation : Error → Bool
is_cancellation canceled = true
is_cancellation (of_runs e) = wraps_cancelled e
is_cancellation (save_failure e) = wraps_cancelled e
is_cancellation (of_trace (not_appended e)) = wraps_cancelled e
is_cancellation _ = false

module _ {W : Type 0} (setup : Setup W) where
  -- the second half of the telemetry recorder; the first half writes events of its own
  abbrev recorder : Option ℤ → TurnAction W (Unit {0})
  recorder tokens = do
    run ← get_run
    on_active_runs (relabelled of_cost (record_run_cost setup.cost_limits run.id tokens))

  abbrev pub model_call : Model W → List Message → TurnAction W ModelResponse
  model_call model messages = do
    on_runs (relabelled of_runs (draw_id setup.dependencies "llm"))
    on_runs (relabelled of_runs (draw_id setup.dependencies "step"))
    attempt {F = Error} (find_plan setup)
    model recorder messages

  abbrev with_transcript : Turn W → List Message → Turn W
  with_transcript t transcript = record t { run = record (t.run) { transcript = transcript } }

  -- The loop and the handler share the transcript of the run.
  abbrev pub handle_in_loop :
      Turn W → List Message → ModelResponse → Result Error Bool × List Message × Turn W
  handle_in_loop t transcript response =
      let (r, t') = handle_response setup response (with_transcript t transcript) in
      (r, t'.run.transcript, t')

  abbrev pub loop_of : ℤ → String → Model W → Caller (Turn W) Error
  loop_of max_steps system_prompt model = record {
    max_turns = clamp_turns max_steps;
    system_prompt = system_prompt;
    decoder = setup.environment.decoder;
    turn_budget = λ t used. pos (turn_budget_for t.run.id t.active_runs);
    complete = λ t messages. model_call model messages t;
    handle = handle_in_loop;
  }

  -- the texts of the errors that end the loop stand in the event of the failure
  abbrev fail_with : Error → TurnAction W AgentRun
  fail_with e = do
    run ← get_run
    attempt {F = Error}
        (on_plans (relabelled of_plans (PlanService.mark_failed setup.contract run.id)))
    attempt {F = Error} (record_task_plan_state setup "" "")
    attempt {F = Error} (
        on_runs (
          relabelled of_runs
            (RunService.fail_run setup.dependencies run (some (setup.error_text e)))))
    fail e

  abbrev is_cancelled_run : Result Error AgentRun → Bool
  is_cancelled_run (ok run) = is_cancelled run.status
  is_cancelled_run (err e) = false

  abbrev run_or_none : Result Error AgentRun → AgentRun
  run_or_none (ok run) = run
  run_or_none (err e) = no_run

  -- after an error of the loop; the run that the source returns beside the error is left out
  unfoldable pub loop_failed : Error → TurnAction W AgentRun
  loop_failed e = do
    run ← get_run
    current ← attempt (on_runs (relabelled of_runs (RunService.get_run run.id)))
    if is_cancelled_run current
        then return (run_or_none current)
        else if is_cancellation e
        then fail e
        else fail_with e

  unfoldable pub conclude : Outcome Error → TurnAction W AgentRun
  unfolding loop_failed
  conclude stopped = get_run
  conclude (Loop.failed e) = loop_failed e
  conclude (exceeded limit last_error) = loop_failed (turns_exceeded limit last_error)
  conclude out_of_fuel = fail loop_unfinished

  unfoldable pub continue_run : ℕ → ℤ → String → Model W → String → TurnAction W AgentRun
  unfolding conclude
  continue_run fuel max_steps system_prompt model run_id = do
    run ← on_runs (relabelled of_runs (RunService.get_run run_id))
    if not (is_running run.status) then return run else do set_run run; loop run
    where
      loop : AgentRun → TurnAction W AgentRun
      loop run t =
          let end = run_turns (loop_of max_steps system_prompt model) fuel 0 run.transcript t in
          conclude end.outcome end.state

  -- Continue
  unfoldable pub continue : ℕ → ℤ → String → Model W → String → TurnAction W AgentRun
  unfolding continue_run
  continue fuel max_steps system_prompt model run_id t =
      let opened = record t { active_runs = insert run_id new_active_run t.active_runs } in
      let (r, t') = continue_run fuel max_steps system_prompt model run_id opened in
      (r, record t' { active_runs = delete run_id t'.active_runs })

  abbrev is_true : Option Json → Bool
  is_true (some (bool b)) = b
  is_true _ = false

  abbrev has_plans : Option PlanService.Service → Bool
  has_plans none = false
  has_plans (some plans) = true

  unfoldable pub is_planned : TurnAction W Bool
  is_planned t = (ok (has_plans t.shared.plans), t)

  abbrev state_if_planned : String → Option (Unit {0}) → TurnAction W (Unit {0})
  state_if_planned tool_call_id none = return tt
  state_if_planned tool_call_id (some done) = record_task_plan_state setup "" tool_call_id

  abbrev approve_latest : String → Option ℤ → TurnAction W (Unit {0})
  approve_latest tool_call_id none = do
    planned ← is_planned
    if planned then fail no_generation else return tt
  approve_latest tool_call_id (some generation) = do
    run ← get_run
    done ← on_plans (relabelled of_plans (PlanService.approve setup.contract run.id generation))
    state_if_planned tool_call_id done

  -- the user's answer approves the latest generation
  unfoldable pub approve_generation : String → TurnAction W (Unit {0})
  unfolding is_planned
  approve_generation tool_call_id = do
    run ← get_run
    approve_latest tool_call_id run.latest_generation_id
    set_run (record run { approved_generation_id = run.latest_generation_id })

  abbrev trace_resumed : Option (ModelTool × ToolTraceIdentity) → TurnAction W (Unit {0})
  trace_resumed none = return tt
  trace_resumed (some (call, identity)) =
      record_pipeline_tool_trace setup "" call identity "succeeded" "user_input_received"

  -- Resume, up to its call of Continue
  unfoldable pub resume_run : String → String → ResumeToolCallRequest → TurnAction W (Unit {0})
  unfolding approve_generation
  resume_run run_id tool_call_id request = do
    pending_run ← on_runs (relabelled of_runs (RunService.get_run run_id))
    pending ← pending_tool_trace_identity setup pending_run tool_call_id
    run ← on_runs (
        relabelled of_runs
          (RunService.resume_tool_call setup.dependencies run_id tool_call_id request))
    content ← or_fail setup resume_not_encoded (setup.resume_result request)
    set_run (with_message (tool_message content tool_call_id) run)
    if is_true (lookup "approve_dsl" request.answers)
        then approve_generation tool_call_id
        else return tt
    save setup
    trace_resumed pending

  unfoldable pub resume :
      ℕ → ℤ → String → Model W → String → String → ResumeToolCallRequest → TurnAction W AgentRun
  unfolding resume_run continue
  resume fuel max_steps system_prompt model run_id tool_call_id request = do
    resume_run run_id tool_call_id request
    run ← get_run
    continue fuel max_steps system_prompt model run.id

  unfoldable pub resume_owned :
      ℕ → ℤ → String → Model W → ℤ → String → String → ResumeToolCallRequest → TurnAction W AgentRun
  unfolding resume
  resume_owned fuel max_steps system_prompt model actor run_id tool_call_id request = do
    on_runs (relabelled of_runs (RunService.get_owned_run run_id actor))
    resume fuel max_steps system_prompt model run_id tool_call_id request

  abbrev block_plan : AgentRun → TurnAction W (Unit {0})
  block_plan run = if not (is_cancelled run.status) then return tt else do
    attempt {F = Error}
        (on_plans (relabelled of_plans (PlanService.mark_blocked setup.contract run.id)))
    return tt

  unfoldable pub cancel_owned : ℤ → String → String → TurnAction W AgentRun
  cancel_owned actor run_id reason = do
    run ←
        on_runs
          (relabelled of_runs (RunService.cancel_owned_run setup.dependencies run_id actor reason))
    block_plan run
    return run

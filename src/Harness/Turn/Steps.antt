-- ===== src/Harness/Turn/Steps.antt =====
-- What the steps around the execution of a tool (continueRun of internal/harness/harness.go) leave
-- alone: they execute nothing.
use ai_web_testing.Prelude.{String, Option, none, some, ℤ, Result, ok, err, Keeps, keeps_rules}
use ai_web_testing.AgentService.Types.{AgentRun, ModelTool}
use ai_web_testing.TaskPlan.Types as Plans
use ai_web_testing.TaskPlan.Types.{Plan}
use ai_web_testing.Tools.{Artifact, Failure, ToolResult}
use ai_web_testing.Tools as Tools
use ai_web_testing.Harness.State.{Turn, TurnAction, Setup, Cause, Error}
use ai_web_testing.Harness.Records.{save}
use ai_web_testing.Harness.Trace.{ToolTraceIdentity}
use ai_web_testing.Harness.Turn.{
  assigned, assign_run, refuse_call, state_if_planned, after_failure, or_fail, after_pending,
  keep_generation, accept_artifact, claim_segment, claim_ready_plan, summarize, task_plan_summary,
  hand_off, answer_call, after_result, after_success, after_execution, current_or_missing,
  finish_run, needed_plan,
}
use ai_web_testing.Harness.Turn.Frames.{
  IgnoresServices, IgnoresState, Keeps-get_run, Keeps-on_runs, Keeps-on_plans, Keeps-set_run,
  Keeps-on_active_runs, Keeps-append_message, Keeps-save, Keeps-record_tool_failure,
  Keeps-record_recoverable_tool_failure, Keeps-record_tool_result, Keeps-record_task_plan_state,
  Keeps-pipeline_lineage, Keeps-trace,
}

module _ {W : Type 0} {P : Turn W → Type 0} (h : IgnoresServices P) (setup : Setup W) where
  pub save-Keeps : Keeps P (save setup)
  save-Keeps = Keeps-save h setup

  pub Keeps-state_if_planned :
      (step_id : String) (call : ModelTool) (done : Option (Unit {0}))
      → Keeps P (state_if_planned setup step_id call done)
  Keeps-state_if_planned step_id call none = search keeps_rules
  Keeps-state_if_planned step_id call (some done) =
      Keeps-record_task_plan_state h setup step_id call.id

  pub Keeps-or_fail : {A : Type 0} (e : Error) (found : Option A) → Keeps P (or_fail setup e found)
  Keeps-or_fail e none = search keeps_rules
  Keeps-or_fail e (some a) = search keeps_rules

  Keeps-claim_segment :
      (found : Option (Result Plans.Error Plan)) → Keeps P (claim_segment setup found)
  Keeps-claim_segment none = search keeps_rules
  Keeps-claim_segment (some (err e)) = search keeps_rules
  Keeps-claim_segment (some (ok plan)) =
      search (keeps_rules, Keeps-get_run h.runs, Keeps-on_active_runs h) depth 12

  pub Keeps-claim_ready_plan : Keeps P (claim_ready_plan setup)
  unfolding claim_ready_plan
  Keeps-claim_ready_plan =
      search (keeps_rules, Keeps-get_run h.runs, Keeps-on_plans h, Keeps-claim_segment) depth 9

  Keeps-summarize : (call : ModelTool) (plan : Option Plan) → Keeps P (summarize setup call plan)
  Keeps-summarize call none = search keeps_rules
  Keeps-summarize call (some plan) =
      search (keeps_rules, Keeps-get_run h.runs, Keeps-on_active_runs h) depth 12

  pub Keeps-needed_plan : Keeps P (needed_plan setup)
  Keeps-needed_plan = search (keeps_rules, Keeps-get_run h.runs, Keeps-on_plans h) depth 9

  pub Keeps-task_plan_summary : (call : ModelTool) → Keeps P (task_plan_summary setup call)
  unfolding task_plan_summary
  Keeps-task_plan_summary call = search (keeps_rules, Keeps-needed_plan, Keeps-summarize) depth 9

  pub Keeps-current_or_missing :
      (found : Option (Result Plans.Error Plan)) → Keeps P (current_or_missing setup found)
  Keeps-current_or_missing none = search keeps_rules
  Keeps-current_or_missing (some (err e)) = search keeps_rules
  Keeps-current_or_missing (some (ok plan)) = search keeps_rules depth 9

module _ {W : Type 0} {P : Turn W → Type 0} (h : IgnoresState P) (setup : Setup W) where
  save_kept : Keeps P (save setup)
  save_kept = save-Keeps h.services setup

  claim_kept : Keeps P (claim_ready_plan setup)
  claim_kept = Keeps-claim_ready_plan h.services setup

  Keeps-assigned : (r : Result Error AgentRun) (t : Turn W) → P t → P (assigned r t).1
  Keeps-assigned (ok run) t before = h.run t run before
  Keeps-assigned (err e) t before = h.run t _ before

  Keeps-assign_run : (m : TurnAction W AgentRun) → Keeps P m → Keeps P (assign_run m)
  unfolding assign_run
  Keeps-assign_run m kept = record {
    at = λ t before. Keeps-assigned (m t).0 (m t).1 (kept.at t before);
  }

  pub Keeps-refuse_call :
      (step_id : String) (call : ModelTool) (identity : ToolTraceIdentity) (status reason : String)
      (cause : Cause)
      → Keeps P (refuse_call setup step_id call identity status reason cause)
  unfolding refuse_call
  Keeps-refuse_call step_id call identity status reason cause =
      search
        (
          keeps_rules,
          Keeps-trace h.services.runs setup,
          Keeps-record_recoverable_tool_failure h setup,
        )
        depth 9

  after_failure-Keeps :
      (step_id : String) (call : ModelTool) (identity : ToolTraceIdentity) (failure : Failure)
      → Keeps P (after_failure setup step_id call identity failure)
  unfolding after_failure
  after_failure-Keeps step_id call identity failure =
      search
        (
          keeps_rules,
          Keeps-trace h.services.runs setup,
          Keeps-get_run h.services.runs,
          Keeps-on_plans h.services,
          Keeps-state_if_planned h.services setup,
          Keeps-record_recoverable_tool_failure h setup,
        )
        depth 12

  after_pending-Keeps :
      (step_id : String) (call : ModelTool) (identity : ToolTraceIdentity) (pending : Tools.Pending)
      → Keeps P (after_pending setup step_id call identity pending)
  unfolding after_pending
  after_pending-Keeps step_id call identity pending =
      search
        (
          keeps_rules,
          Keeps-trace h.services.runs setup,
          Keeps-or_fail h.services setup,
          save_kept,
          Keeps-get_run h.services.runs,
          Keeps-assign_run,
          Keeps-on_runs h.services.runs,
        )
        depth 12

  Keeps-keep_generation :
      (step_id : String) (call : ModelTool) (text : String) (id : Option ℤ)
      → Keeps P (keep_generation setup step_id call text id)
  Keeps-keep_generation step_id call text none =
      search (keeps_rules, Keeps-record_tool_failure h.services setup) depth 9
  Keeps-keep_generation step_id call text (some id) =
      search (keeps_rules, Keeps-get_run h.services.runs, Keeps-set_run h) depth 9

  Keeps-accept_artifact :
      (step_id : String) (call : ModelTool) (artifact : Option Artifact)
      → Keeps P (accept_artifact setup step_id call artifact)
  unfolding accept_artifact
  Keeps-accept_artifact step_id call none = search keeps_rules
  Keeps-accept_artifact step_id call (some artifact) =
      search (keeps_rules, Keeps-keep_generation, Keeps-get_run h.services.runs, Keeps-set_run h)
        depth 12

  Keeps-hand_off : (plan : Option Plan) → Keeps P (hand_off setup plan)
  Keeps-hand_off none = search keeps_rules
  Keeps-hand_off (some plan) = Keeps-append_message h setup _

  Keeps-answer_call :
      (step_id : String) (call : ModelTool) (result : ToolResult)
      → Keeps P (answer_call setup step_id call result)
  unfolding answer_call
  Keeps-answer_call step_id call result =
      search
        (
          keeps_rules,
          Keeps-accept_artifact,
          Keeps-record_tool_result h.services setup,
          Keeps-get_run h.services.runs,
          Keeps-on_plans h.services,
          Keeps-state_if_planned h.services setup,
          claim_kept,
          Keeps-task_plan_summary h.services setup,
          Keeps-append_message h setup,
        )
        depth 14

  after_result-Keeps :
      (step_id : String) (call : ModelTool) (identity : ToolTraceIdentity) (result : ToolResult)
      → Keeps P (after_result setup step_id call identity result)
  unfolding after_result
  after_result-Keeps step_id call identity result =
      search
        (
          keeps_rules,
          Keeps-answer_call,
          Keeps-get_run h.services.runs,
          Keeps-set_run h,
          Keeps-hand_off,
          save_kept,
          Keeps-on_active_runs h.services,
          Keeps-pipeline_lineage h.services setup,
          Keeps-trace h.services.runs setup,
        )
        depth 14

  after_success-Keeps :
      (step_id : String) (call : ModelTool) (identity : ToolTraceIdentity) (result : ToolResult)
      (pending : Option Tools.Pending)
      → Keeps P (after_success setup step_id call identity result pending)
  after_success-Keeps step_id call identity result none =
      after_result-Keeps step_id call identity result
  after_success-Keeps step_id call identity result (some pending) =
      after_pending-Keeps step_id call identity pending

  pub after_execution-Keeps :
      (step_id : String) (call : ModelTool) (identity : ToolTraceIdentity)
      (r : Result Failure ToolResult)
      → Keeps P (after_execution setup step_id call identity r)
  after_execution-Keeps step_id call identity (err failure) =
      after_failure-Keeps step_id call identity failure
  after_execution-Keeps step_id call identity (ok result) =
      after_success-Keeps step_id call identity result result.pending

  pub Keeps-finish_run : Keeps P (finish_run setup)
  unfolding finish_run
  Keeps-finish_run =
      search
        (
          keeps_rules,
          Keeps-get_run h.services.runs,
          Keeps-on_plans h.services,
          Keeps-current_or_missing h.services setup,
          save_kept,
          Keeps-assign_run,
          Keeps-on_runs h.services.runs,
        )
        depth 12

-- ===== src/Harness/Turn/Frames.antt =====
-- What the methods of the harness leave alone (internal/harness/harness.go): predicates on the turn that
-- a call of a service keeps.
use ai_web_testing.Prelude.{
  String, Option, none, some, List, Dict, Result, Action, Keeps, keeps_rules,
}
use ai_web_testing.AgentService.Types.{AgentRun, Event, Message, ModelTool}
use ai_web_testing.AgentService.Service as RunService
use ai_web_testing.TaskPlan.Types as Plans
use ai_web_testing.TaskPlan.Types.{Plan}
use ai_web_testing.TaskPlan.Service as PlanService
use ai_web_testing.Tools.{Artifact, ToolResult}
use ai_web_testing.Harness.Cost.{ActiveRun}
use ai_web_testing.Harness.State.{
  Turn, Setup, Cause, Error, on_runs, on_plans_of, on_plans, on_active_runs, get_run, set_run,
}
use ai_web_testing.Harness.Records.{
  emit, append_message, save, record_message, record_tool_start, record_tool_failure,
  record_recoverable_tool_failure, record_tool_result, record_task_plan_state, emit_artifact,
  emit_found, found_plan, find_plan, or_fail,
}
use ai_web_testing.Harness.Trace.{
  ToolTraceIdentity, new_tool_trace_identity, record_pipeline_tool_trace, pipeline_lineage,
}

-- `P` does not speak of the run service.
pub record IgnoresRuns {W : Type 0} (P : Turn W → Type 0) : Type 0 where
  pub runs :
      (t : Turn W) (runs : RunService.Service)
      → P t
      → P (record t { shared = record (t.shared) { runs = runs } })

module _ {W : Type 0} {P : Turn W → Type 0} (h : IgnoresRuns P) where
  pub Keeps-on_runs : {E A : Type 0} (m : Action RunService.Service E A) → Keeps P (on_runs m)
  unfolding on_runs
  Keeps-on_runs m = record { at = λ t before. h.runs t (m t.shared.runs).1 before }

  pub Keeps-get_run : {E : Type 0} → Keeps P (get_run {E = E})
  unfolding get_run
  Keeps-get_run = record { at = λ t before. before }

  module _ (setup : Setup W) where
    pub Keeps-emit : (e : Event) → Keeps P (emit setup e)
    unfolding emit
    Keeps-emit e = search (keeps_rules, Keeps-get_run, Keeps-on_runs) depth 9

    pub Keeps-record_tool_start :
        (step_id : String) (call : ModelTool) → Keeps P (record_tool_start setup step_id call)
    unfolding record_tool_start
    Keeps-record_tool_start step_id call = search (keeps_rules, Keeps-emit) depth 9

    pub Keeps-trace :
        (step_id : String) (call : ModelTool) (identity : ToolTraceIdentity)
        (status reason : String)
        → Keeps P (record_pipeline_tool_trace setup step_id call identity status reason)
    unfolding record_pipeline_tool_trace
    Keeps-trace step_id call identity status reason =
        search (keeps_rules, Keeps-get_run, Keeps-on_runs) depth 9

    pub Keeps-new_tool_trace_identity :
        (call : ModelTool) (plan : Option Plan) → Keeps P (new_tool_trace_identity setup call plan)
    unfolding new_tool_trace_identity
    Keeps-new_tool_trace_identity call plan =
        search (keeps_rules, Keeps-get_run, Keeps-on_runs) depth 9

-- `P` does not speak of the services, nor of the active runs.
pub record IgnoresServices {W : Type 0} (P : Turn W → Type 0) : Type 0 where
  pub runs : IgnoresRuns P
  pub plans :
      (t : Turn W) (plans : Option PlanService.Service)
      → P t
      → P (record t { shared = record (t.shared) { plans = plans } })
  pub active :
      (t : Turn W) (active_runs : Dict ActiveRun) → P t → P (record t { active_runs = active_runs })

module _ {W : Type 0} {P : Turn W → Type 0} (h : IgnoresServices P) where
  pub Keeps-on_plans_of :
      {E A : Type 0} (m : Action PlanService.Service E A) (plans : Option PlanService.Service)
      (t : Turn W)
      → P t
      → P (on_plans_of m plans t).1
  unfolding on_plans_of
  Keeps-on_plans_of m none t before = before
  Keeps-on_plans_of m (some plans) t before = h.plans t (some (m plans).1) before

  pub Keeps-on_plans : {E A : Type 0} (m : Action PlanService.Service E A) → Keeps P (on_plans m)
  unfolding on_plans
  Keeps-on_plans m = record { at = λ t before. Keeps-on_plans_of m t.shared.plans t before }

  pub Keeps-on_active_runs :
      {E A : Type 0} (m : Dict ActiveRun → Result E A × Dict ActiveRun) → Keeps P (on_active_runs m)
  unfolding on_active_runs
  Keeps-on_active_runs m = record { at = λ t before. h.active t (m t.active_runs).1 before }

  module _ (setup : Setup W) where
    pub Keeps-save : Keeps P (save setup)
    unfolding save
    Keeps-save = search (keeps_rules, Keeps-get_run h.runs, Keeps-on_runs h.runs) depth 9

    pub Keeps-record_message : (content : String) → Keeps P (record_message setup content)
    unfolding record_message
    Keeps-record_message content =
        search (keeps_rules, Keeps-emit h.runs setup, Keeps-on_runs h.runs) depth 9

    pub Keeps-record_tool_failure :
        (step_id : String) (call : ModelTool) (cause : Cause)
        → Keeps P (record_tool_failure setup step_id call cause)
    unfolding record_tool_failure
    Keeps-record_tool_failure step_id call cause =
        search (keeps_rules, Keeps-emit h.runs setup) depth 9

    Keeps-or_fail : {A : Type 0} (e : Error) (found : Option A) → Keeps P (or_fail setup e found)
    Keeps-or_fail e none = search keeps_rules
    Keeps-or_fail e (some a) = search keeps_rules

    Keeps-emit_artifact :
        (step_id : String) (call : ModelTool) (artifact : Option Artifact)
        → Keeps P (emit_artifact setup step_id call artifact)
    Keeps-emit_artifact step_id call none = search keeps_rules
    Keeps-emit_artifact step_id call (some artifact) = search (keeps_rules, Keeps-emit h.runs setup)

    pub Keeps-record_tool_result :
        (step_id : String) (call : ModelTool) (result : ToolResult)
        → Keeps P (record_tool_result setup step_id call result)
    unfolding record_tool_result
    Keeps-record_tool_result step_id call result =
        search (keeps_rules, Keeps-or_fail, Keeps-emit h.runs setup, Keeps-emit_artifact) depth 12

    Keeps-find : (found : Option (Result Plans.Error Plan)) → Keeps P (found_plan setup found)
    Keeps-find none = search keeps_rules
    Keeps-find (some r) = search keeps_rules

    pub Keeps-find_plan : Keeps P (find_plan setup)
    unfolding find_plan
    Keeps-find_plan = search (keeps_rules, Keeps-get_run h.runs, Keeps-on_plans, Keeps-find) depth 9

    Keeps-emit_found :
        (step_id tool_call_id : String) (plan : Option Plan)
        → Keeps P (emit_found setup step_id tool_call_id plan)
    Keeps-emit_found step_id tool_call_id none = search keeps_rules
    Keeps-emit_found step_id tool_call_id (some plan) =
        search (keeps_rules, Keeps-emit h.runs setup)

    pub Keeps-record_task_plan_state :
        (step_id tool_call_id : String)
        → Keeps P (record_task_plan_state setup step_id tool_call_id)
    unfolding record_task_plan_state
    Keeps-record_task_plan_state step_id tool_call_id =
        search (keeps_rules, Keeps-find_plan, Keeps-emit_found) depth 9

    pub Keeps-pipeline_lineage :
        (tool result : String) (ids : List String)
        → Keeps P (pipeline_lineage setup tool result ids)
    unfolding pipeline_lineage
    Keeps-pipeline_lineage tool result ids = search (keeps_rules, Keeps-find_plan) depth 9

-- `P` speaks of the executed calls only.
pub record IgnoresState {W : Type 0} (P : Turn W → Type 0) : Type 0 where
  pub services : IgnoresServices P
  pub run : (t : Turn W) (run : AgentRun) → P t → P (record t { run = run })

module _ {W : Type 0} {P : Turn W → Type 0} (h : IgnoresState P) where
  pub Keeps-set_run : {E : Type 0} (run : AgentRun) → Keeps P (set_run {E = E} run)
  unfolding set_run
  Keeps-set_run run = record { at = λ t before. h.run t run before }

  module _ (setup : Setup W) where
    pub Keeps-append_message : (message : Message) → Keeps P (append_message setup message)
    unfolding append_message
    Keeps-append_message message =
        search (keeps_rules, Keeps-get_run h.services.runs, Keeps-set_run) depth 9

    pub Keeps-record_recoverable_tool_failure :
        (step_id : String) (call : ModelTool) (cause : Cause)
        → Keeps P (record_recoverable_tool_failure setup step_id call cause)
    unfolding record_recoverable_tool_failure
    Keeps-record_recoverable_tool_failure step_id call cause =
        search
          (
            keeps_rules,
            Keeps-record_tool_failure h.services setup,
            Keeps-or_fail h.services setup,
            Keeps-append_message,
            Keeps-get_run h.services.runs,
            Keeps-on_runs h.services.runs,
          )
          depth 12

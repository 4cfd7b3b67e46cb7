-- ===== src/Harness/State.antt =====
-- What the harness (internal/harness/harness.go) acts on: the run that a call of Continue holds, the
-- services, and the active runs.
use ai_web_testing.Prelude.{
  ℕ, String, Bool, Option, none, some, List, Dict, ℤ, Result, ok, err, Action,
}
use ai_web_testing.AgentService.Types as Runs
use ai_web_testing.AgentService.Types.{
  Json, AgentRun, Message, ModelTool, Question, Payload, ResumeToolCallRequest,
}
use ai_web_testing.AgentService.Service as RunService
use ai_web_testing.AgentService.Service.{Dependencies}
use ai_web_testing.AgentService.Trace.{Tracer, TraceError, LineageRef}
use ai_web_testing.TaskPlan.Types as Plans
use ai_web_testing.TaskPlan.Types.{Plan, Status}
use ai_web_testing.TaskPlan.Contract.{Contract}
use ai_web_testing.TaskPlan.Service as PlanService
use ai_web_testing.Tools.{Registry, Failure}
use ai_web_testing.Harness.Policy.{Environment, ExplorationGateConfig, PolicyError, BudgetSummary}
use ai_web_testing.Harness.Cost.{RunCostLimits, ActiveRun, RunCostLimitError}

-- What the tools reach beside the harness: the two services (the second may be nil) and a state `W` of
-- their own. What others do to the services while a tool runs is part of the tool.
pub record Shared (W : Type 0) : Type 0 where
  pub runs : RunService.Service
  pub plans : Option PlanService.Service
  pub world : W

-- A call that was handed to the tools: the run and the plan service at that moment.
pub record Execution : Type 0 where
  pub run : AgentRun
  pub call : ModelTool
  pub plans : Option PlanService.Service

-- `executed` is no state of the source: it records the calls that were handed to the tools, the last
-- one first.
pub record Turn (W : Type 0) : Type 0 where
  pub run : AgentRun
  pub shared : Shared W
  pub active_runs : Dict ActiveRun
  pub executed : List Execution

-- Why a tool call has no result.
pub data Cause : Type 0 where
  plan_refused : Plans.Error → Cause
  policy_refused : PolicyError → Cause
  tool_failed : Failure → Cause
  generation_id_invalid : String → Cause

-- The errors that end a run of the harness; `loop_unfinished`, where the fuel of the agent loop runs out,
-- is none of the source.
pub data Error : Type 0 where
  of_runs save_failure : Runs.Error → Error
  of_plans completes_without_plan : Plans.Error → Error
  plan_not_completed : Status → Error
  of_trace : TraceError → Error
  canceled : Error
  of_cost : RunCostLimitError → Error
  plan_failure advance_plan : String → Plans.Error → Error
  pending_payload_invalid : Error
  artifact_id_invalid : String → Error
  result_invalid failure_not_encoded resume_not_encoded no_generation loop_unfinished : Error
  turns_exceeded : ℕ → String → Error
  summarize_result : String → Error

pub record LineageSummary : Type 0 where
  pub probe_id : String
  pub observation_id : String
  pub observation_sha256 : String
  pub page_state_id : String
  pub target_binding_id : String
  pub selected_candidate_id : String
  pub element_refs : List String

-- ToolResultTaskPlanSummary
pub record TaskPlanSummary : Type 0 where
  pub plan_id : String
  pub version : ℤ
  pub plan_sha256 : String
  pub status : Status
  pub step_ids : List String
  pub grounded_step_ids : List String
  pub pending_step_ids : List String
  pub step_bindings : Dict String
  pub step_lineage : Dict LineageSummary
  pub exploration_budget : Option BudgetSummary

-- The harness's fields, what it takes from the libraries, and the parts of the repository that are
-- left out: the texts of errors, the summaries of results (internal/agent/tool_result.go) and the
-- items of a lineage.
pub record Setup (W : Type 0) : Type 0 where
  pub tools : Registry (Shared W)
  pub exploration : ExplorationGateConfig
  pub cost_limits : RunCostLimits
  pub per_turn_transcript_compaction : Bool
  pub dependencies : Dependencies
  pub contract : Contract
  pub environment : Environment
  pub tracer : Tracer
  pub valid_json : String → Bool
  pub parse_int : String → Option ℤ
  pub number_value : String → ℤ
  pub ask_user_request : String → Option (List Question)
  pub resume_result : ResumeToolCallRequest → Option String
  pub transcript_bytes : List Message → ℕ
  pub cause_text : Cause → String
  pub error_text : Error → String
  pub budget_json : BudgetSummary → Json
  pub result_payload : String → String → Option Payload
  pub build_model_tool_summary : String → String → ℕ → Option TaskPlanSummary → Result String String
  pub compact_exploration_transcript : List Message → List Message
  pub lineage_items : Plan → String → String → List String → List LineageRef

abbrev pub TurnAction : Type 0 → Type 0 → Type 0
TurnAction W A = Action (Turn W) Error A

module _ {W : Type 0} where
  -- A method of the run service.
  unfoldable pub on_runs : {E A : Type 0} → Action RunService.Service E A → Action (Turn W) E A
  on_runs m t =
      let (r, runs') = m t.shared.runs in
      (r, record t { shared = record (t.shared) { runs = runs' } })

  -- A method of the plan service; `none` if there is none.
  unfoldable pub on_plans_of :
      {E A : Type 0}
      → Action PlanService.Service E A
      → Option PlanService.Service
      → Action (Turn W) E (Option A)
  on_plans_of m none t = (ok none, t)
  on_plans_of m (some plans) t =
      let (r, plans') = m plans in
      (found r, record t { shared = record (t.shared) { plans = some plans' } })
    where
      found : {E A : Type 0} → Result E A → Result E (Option A)
      found (ok a) = ok (some a)
      found (err e) = err e

  unfoldable pub on_plans :
      {E A : Type 0} → Action PlanService.Service E A → Action (Turn W) E (Option A)
  unfolding on_plans_of
  on_plans m t = on_plans_of m t.shared.plans t

  unfoldable pub get_run : {E : Type 0} → Action (Turn W) E AgentRun
  get_run t = (ok t.run, t)

  unfoldable pub set_run : {E : Type 0} → AgentRun → Action (Turn W) E (Unit {0})
  set_run run t = (ok tt, record t { run = run })

  -- a change of the active runs
  unfoldable pub on_active_runs :
      {E A : Type 0} → (Dict ActiveRun → Result E A × Dict ActiveRun) → Action (Turn W) E A
  on_active_runs m t =
      let (r, active_runs') = m t.active_runs in (r, record t { active_runs = active_runs' })

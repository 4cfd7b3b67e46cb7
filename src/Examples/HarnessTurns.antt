-- ===== src/Examples/HarnessTurns.antt =====
-- The turn handler at concrete inputs (backend-go/internal/harness/harness.go).
use ai_web_testing.Prelude.{
  All, sym, ℕ, ◌+◌, ◌++◌, String, Bool, true, false, ◌≡◌, refl, Option, none, some, List, [], ◌∷◌,
  ℤ, pos, ok, err, length, lookup, insert, delete, trim_space, ◌>>=◌,
}
use ai_web_testing.AgentService.Types.{AgentRun, null}
use ai_web_testing.AgentService.Memory as RunMemory
use ai_web_testing.AgentService.Service as RunService
use ai_web_testing.AgentService.Trace.{
  Tracer, valid_sha256, validate_pipeline_trace, record_pipeline_trace,
}
use ai_web_testing.TaskPlan.Types.{Plan, approved}
use ai_web_testing.TaskPlan.Memory
use ai_web_testing.TaskPlan.Authorize.{authorize, authorize_tool, status_rank}
use ai_web_testing.TaskPlan.Service as PlanService
use ai_web_testing.Tools as Tools
use ai_web_testing.Agent.Loop.{ModelResponse}
use ai_web_testing.Harness.Policy.{Environment, before_tool_call}
use ai_web_testing.Harness.Cost.{default_run_cost_limits}
use ai_web_testing.Harness.State.{
  Shared, Execution, Turn, Setup, on_runs, on_plans, get_run, set_run,
}
use ai_web_testing.Harness.Turn.{handle_response, handle_calls, answer}
use ai_web_testing.Harness.Turn.Gated.{AllGated, handle_response-AllGated}
use ai_web_testing.Harness.Turn.Replies.{replies}
use ai_web_testing.Harness.Turn.Replies.Calls.{handle_calls-replies}
use ai_web_testing.Examples.AgentServiceRuns.{deps, holding}
use ai_web_testing.Examples.TaskPlans.{contract, plan}
use ai_web_testing.Examples.HarnessPolicies.{env, config, run_of, tool_call}

abbrev hash : String
hash = "0123456789abcdef0123456789abcdef0123456789abcdef0123456789abcdef"

abbrev tracer : Tracer
tracer = record {
  to_payload = λ payload. some [];
  marshal = λ value. some "{}";
  sha256 = λ s. hash;
  itoa = λ n. "1";
}

-- The one tool counts the executions.
abbrev execute_dsl : Tools.Handler (Shared ℕ)
execute_dsl = record {
  definition = record { name = "execute_dsl"; description = ""; input_schema = "{}" };
  execute = λ call shared. (
    ok (record { content = "{}"; artifact = none; pending = none }),
    record shared { world = shared.world + 1 },
  );
}

abbrev pub setup : Setup ℕ
setup = record {
  tools = record { handlers = ("execute_dsl", execute_dsl) ∷ [] };
  exploration = config;
  cost_limits = default_run_cost_limits;
  per_turn_transcript_compaction = false;
  dependencies = deps;
  contract = contract;
  environment = record env { sha256 = λ s. hash };
  tracer = tracer;
  valid_json = λ s. true;
  parse_int = λ s. some (pos 5);
  number_value = λ s. pos 1;
  ask_user_request = λ s. none;
  resume_result = λ request. some "{}";
  transcript_bytes = λ transcript. 10;
  cause_text = λ cause. "failed";
  error_text = λ e. "failed";
  budget_json = λ budget. null;
  result_payload = λ tool content. some [];
  build_model_tool_summary = λ tool content seq summary. ok "done";
  compact_exploration_transcript = λ transcript. transcript;
  lineage_items = λ plan tool content ids. [];
}

abbrev pub approved_plan : Plan
approved_plan = record plan {
  plan_sha256 = hash;
  status = approved;
  bound_generation_id = some (pos 5);
}

abbrev pub plans : PlanService.Service
plans = record { repository = record { plans = ("r", approved_plan ∷ []) ∷ [] }; readings = 0 }

abbrev pub run : AgentRun
run = record (run_of []) {
  latest_generation_id = some (pos 5);
  approved_generation_id = some (pos 5);
}

abbrev pub turn : Turn ℕ
turn = record {
  run = run;
  shared = record { runs = holding run; plans = some plans; world = 0 };
  active_runs = [];
  executed = [];
}

abbrev response : ModelResponse
response = record {
  content = "";
  reasoning_content = "";
  tool_calls = tool_call "execute_dsl" ∷ tool_call "explore_page" ∷ [];
}

handle_response-AllGated_example : AllGated setup (handle_response setup response turn).1
handle_response-AllGated_example = handle_response-AllGated setup response turn tt

-- The first call is executed and ends the loop over the calls only after the second, which the plan
-- refuses.
executed_once : (handle_response setup response turn).1.shared.world ≡ 1
unfolding ai_web_testing.AgentService.Memory.save_run ai_web_testing.AgentService.Memory.push_event
    ai_web_testing.AgentService.Memory.append_event ai_web_testing.AgentService.Memory.list_events
    ai_web_testing.AgentService.Service.on_repository ai_web_testing.AgentService.Service.notify
    ai_web_testing.AgentService.Service.list_events ai_web_testing.AgentService.Service.record_event
    ai_web_testing.AgentService.Service.request_user_input
    ai_web_testing.AgentService.Service.save_run
    ai_web_testing.AgentService.Trace.validate_pipeline_trace
    ai_web_testing.AgentService.Trace.record_pipeline_trace
    ai_web_testing.TaskPlan.Memory.get_current ai_web_testing.TaskPlan.Memory.save
    ai_web_testing.TaskPlan.Service.on_repository ai_web_testing.TaskPlan.Service.get_current
    ai_web_testing.TaskPlan.Service.record_tool_result ai_web_testing.TaskPlan.Authorize.status_rank
    ai_web_testing.TaskPlan.Authorize.authorize_exploration
    ai_web_testing.TaskPlan.Authorize.authorize_tool ai_web_testing.TaskPlan.Authorize.authorize
    ai_web_testing.TaskPlan.Changes.record_result ai_web_testing.Tools.get
    ai_web_testing.Tools.execute ai_web_testing.Harness.State.on_runs
    ai_web_testing.Harness.State.on_plans ai_web_testing.Harness.State.get_run
    ai_web_testing.Harness.State.set_run ai_web_testing.Harness.State.on_active_runs
    ai_web_testing.Harness.Records.save ai_web_testing.Harness.Records.record_tool_start
    ai_web_testing.Harness.Records.record_recoverable_tool_failure
    ai_web_testing.Harness.Records.record_tool_result
    ai_web_testing.Harness.Records.record_task_plan_state
    ai_web_testing.Harness.Trace.normalized_tool_call_signature
    ai_web_testing.Harness.Trace.pipeline_state_epoch ai_web_testing.Harness.Trace.earlier_calls
    ai_web_testing.Harness.Trace.new_tool_trace_identity
    ai_web_testing.Harness.Trace.record_pipeline_tool_trace
    ai_web_testing.Harness.Trace.pipeline_lineage ai_web_testing.Harness.Turn.handle_response
    ai_web_testing.Harness.Cost.record_transcript_cost
    ai_web_testing.Harness.Policy.before_tool_call ai_web_testing.Prelude.lookup
    ai_web_testing.Prelude.insert ai_web_testing.Prelude.trim_space ai_web_testing.Prelude.◌>>=◌
executed_once = refl

goes_on : (handle_calls setup response.tool_calls turn).0 ≡ ok true
unfolding ai_web_testing.AgentService.Memory.save_run ai_web_testing.AgentService.Memory.push_event
    ai_web_testing.AgentService.Memory.append_event ai_web_testing.AgentService.Memory.list_events
    ai_web_testing.AgentService.Service.on_repository ai_web_testing.AgentService.Service.notify
    ai_web_testing.AgentService.Service.list_events ai_web_testing.AgentService.Service.record_event
    ai_web_testing.AgentService.Service.request_user_input
    ai_web_testing.AgentService.Service.save_run
    ai_web_testing.AgentService.Trace.validate_pipeline_trace
    ai_web_testing.AgentService.Trace.record_pipeline_trace
    ai_web_testing.TaskPlan.Memory.get_current ai_web_testing.TaskPlan.Memory.save
    ai_web_testing.TaskPlan.Service.on_repository ai_web_testing.TaskPlan.Service.get_current
    ai_web_testing.TaskPlan.Service.record_tool_result ai_web_testing.TaskPlan.Authorize.status_rank
    ai_web_testing.TaskPlan.Authorize.authorize_exploration
    ai_web_testing.TaskPlan.Authorize.authorize_tool ai_web_testing.TaskPlan.Authorize.authorize
    ai_web_testing.TaskPlan.Changes.record_result ai_web_testing.Tools.get
    ai_web_testing.Tools.execute ai_web_testing.Harness.State.on_runs
    ai_web_testing.Harness.State.on_plans ai_web_testing.Harness.State.get_run
    ai_web_testing.Harness.State.set_run ai_web_testing.Harness.State.on_active_runs
    ai_web_testing.Harness.Records.save ai_web_testing.Harness.Records.record_tool_start
    ai_web_testing.Harness.Records.record_recoverable_tool_failure
    ai_web_testing.Harness.Records.record_tool_result
    ai_web_testing.Harness.Records.record_task_plan_state
    ai_web_testing.Harness.Trace.normalized_tool_call_signature
    ai_web_testing.Harness.Trace.pipeline_state_epoch ai_web_testing.Harness.Trace.earlier_calls
    ai_web_testing.Harness.Trace.new_tool_trace_identity
    ai_web_testing.Harness.Trace.record_pipeline_tool_trace
    ai_web_testing.Harness.Trace.pipeline_lineage ai_web_testing.Harness.Turn.handle_response
    ai_web_testing.Harness.Cost.record_transcript_cost
    ai_web_testing.Harness.Policy.before_tool_call ai_web_testing.Prelude.lookup
    ai_web_testing.Prelude.insert ai_web_testing.Prelude.trim_space ai_web_testing.Prelude.◌>>=◌
goes_on = refl

handle_calls-replies_example :
    replies (handle_calls setup response.tool_calls turn).1 ≡ "1" ∷ "1" ∷ []
handle_calls-replies_example = handle_calls-replies setup refl response.tool_calls turn goes_on

-- ===== src/Examples/HarnessRuns.antt =====
-- The ends and the approvals of runs at concrete inputs (backend-go/internal/harness/harness.go).
use ai_web_testing.Prelude.{
  ℕ, String, Bool, true, false, ◌≡◌, refl, Option, none, some, List, [], ◌∷◌, ℤ, pos, ok, err,
  lookup,
}
use ai_web_testing.TaskPlan.Types.{Status, completed, awaiting_approval}
use ai_web_testing.TaskPlan.Authorize.{has_status}
use ai_web_testing.TaskPlan.Service as PlanService
use ai_web_testing.Harness.State.{Turn, plan_not_completed}
use ai_web_testing.Harness.Turn.{finish_run}
use ai_web_testing.Harness.Turn.Completed.{current, IsCompleted, finish_run-Ends}
use ai_web_testing.Harness.Run.{approve_generation}
use ai_web_testing.Harness.Run.Approvals.{approve_generation_lem}
use ai_web_testing.Examples.HarnessTurns.{setup, approved_plan, turn, run}

abbrev plans_in : Status → PlanService.Service
plans_in status = record {
  repository = record { plans = ("r", record approved_plan { status = status } ∷ []) ∷ [] };
  readings = 0;
}

abbrev turn_in : Status → Turn ℕ
turn_in status = record turn {
  run = record run { approved_generation_id = none };
  shared = record (turn.shared) { plans = some (plans_in status) };
}

finished : (finish_run setup (turn_in completed)).0 ≡ ok false
unfolding ai_web_testing.AgentService.Memory.save_run
    ai_web_testing.AgentService.Memory.append_event
    ai_web_testing.AgentService.Service.on_repository ai_web_testing.AgentService.Service.notify
    ai_web_testing.AgentService.Service.record_event ai_web_testing.AgentService.Service.save_run
    ai_web_testing.AgentService.Service.complete_run ai_web_testing.TaskPlan.Memory.get_current
    ai_web_testing.TaskPlan.Service.on_repository ai_web_testing.TaskPlan.Service.get_current
    ai_web_testing.TaskPlan.Authorize.status_rank ai_web_testing.Harness.State.on_runs
    ai_web_testing.Harness.State.on_plans ai_web_testing.Harness.State.get_run
    ai_web_testing.Harness.Records.save ai_web_testing.Harness.Turn.assign_run
    ai_web_testing.Harness.Turn.handle_response ai_web_testing.Prelude.lookup
    ai_web_testing.Prelude.insert ai_web_testing.Prelude.◌>>=◌
finished = refl

current_completed :
    current setup (turn_in completed) (plans_in completed)
    ≡ ok (record approved_plan { status = completed })
unfolding ai_web_testing.TaskPlan.Memory.get_current ai_web_testing.TaskPlan.Service.on_repository
    ai_web_testing.TaskPlan.Service.get_current lookup
current_completed = refl

finish_run-Ends_example :
    ((finish_run setup (turn_in completed)).0 ≡ ok false)
    × IsCompleted setup (turn_in completed) (finish_run setup (turn_in completed)).1
unfolding lookup ai_web_testing.TaskPlan.Authorize.status_rank
finish_run-Ends_example =
    (finish_run-Ends setup (turn_in completed) (plans_in completed) refl).completes
      (record approved_plan { status = completed }) run current_completed refl refl refl refl

-- A plan that waits for its approval: nothing is written.
current_awaiting :
    current setup (turn_in awaiting_approval) (plans_in awaiting_approval)
    ≡ ok (record approved_plan { status = awaiting_approval })
unfolding ai_web_testing.TaskPlan.Memory.get_current ai_web_testing.TaskPlan.Service.on_repository
    ai_web_testing.TaskPlan.Service.get_current lookup
current_awaiting = refl

not_finished :
    finish_run setup (turn_in awaiting_approval)
    ≡ (err (plan_not_completed awaiting_approval), turn_in awaiting_approval)
unfolding ai_web_testing.TaskPlan.Authorize.status_rank
not_finished =
    (finish_run-Ends setup (turn_in awaiting_approval) (plans_in awaiting_approval) refl).unfinished
      (record approved_plan { status = awaiting_approval }) current_awaiting refl

-- The approval without a plan service.
abbrev unplanned : Turn ℕ
unplanned = record (turn_in awaiting_approval) { shared = record (turn.shared) { plans = none } }

approved_unplanned : approve_generation setup "1" unplanned ≡ (
  ok tt,
  record unplanned { run = record (unplanned.run) { approved_generation_id = some (pos 5) } },
)
approved_unplanned = (approve_generation_lem setup unplanned "1").0 refl

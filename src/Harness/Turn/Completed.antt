-- ===== src/Harness/Turn/Completed.antt =====
-- When a turn completes its run (continueRun of internal/harness/harness.go).
use ai_web_testing.Prelude.{
  Bool, ◌≡◌, refl, false, true, some, [], ◌∷◌, ◌++◌, lookup, Result, ok, err, ◌>>=◌,
}
use ai_web_testing.AgentService.Types.{Time, AgentRun, Event, EventType, is_cancelled}
use ai_web_testing.AgentService.Memory.{log}
use ai_web_testing.AgentService.Service as RunService
use ai_web_testing.AgentService.Service.Completion.{
  completed_at, stored, save_run-live, stored-found, complete_run-live,
}
use ai_web_testing.TaskPlan.Types as Plans
use ai_web_testing.TaskPlan.Types.{Plan, completed}
use ai_web_testing.TaskPlan.Authorize.{has_status}
use ai_web_testing.TaskPlan.Memory as PlanMemory
use ai_web_testing.TaskPlan.Service as PlanService
use ai_web_testing.Harness.State.{
  Turn, Setup, Error, completes_without_plan, plan_not_completed, on_runs, on_plans, on_plans_of,
  get_run,
}
use ai_web_testing.Harness.Records.{save}
use ai_web_testing.Harness.Turn.{finish_run, assign_run}

module _ {W : Type 0} (setup : Setup W) where
  abbrev pub current : Turn W → PlanService.Service → Result Plans.Error Plan
  current t plans = (PlanService.get_current setup.contract t.run.id plans).0

  get_current-service :
      (t : Turn W) (plans : PlanService.Service)
      → (PlanService.get_current setup.contract t.run.id plans).1 ≡ plans
  unfolding PlanService.get_current PlanService.on_repository PlanMemory.get_current
  get_current-service t plans = refl

  -- The run is completed, in the turn and in the repository, and its log has gained one event.
  pub record IsCompleted (t after : Turn W) : Type 0 where
    pub time : Time
    pub turn_run : after.run ≡ completed_at time t.run
    pub stored_run :
        lookup t.run.id after.shared.runs.repository.runs ≡ some (completed_at time t.run)
    pub finished : Event
    pub logged :
        log t.run.id after.shared.runs.repository
        ≡ log t.run.id t.shared.runs.repository ++ finished ∷ []
    pub is_finished : finished.event_type ≡ EventType.run_finished

  -- What the end of a turn has to be, with a plan service.
  pub record Ends (t : Turn W) (plans : PlanService.Service) (outcome : Result Error Bool × Turn W)
      : Type 0 where
    pub without_plan :
        (e : Plans.Error) → current t plans ≡ err e → outcome ≡ (err (completes_without_plan e), t)
    pub unfinished :
        (plan : Plan)
        → current t plans ≡ ok plan
        → has_status plan completed ≡ false
        → outcome ≡ (err (plan_not_completed plan.status), t)
    pub completes :
        (plan : Plan) (stands : AgentRun)
        → current t plans ≡ ok plan
        → has_status plan completed ≡ true
        → lookup t.run.id t.shared.runs.repository.runs ≡ some stands
        → is_cancelled stands.status ≡ false
        → is_cancelled t.run.status ≡ false
        → (outcome.0 ≡ ok false) × IsCompleted t outcome.1

  saved : Turn W → RunService.Service
  saved t =
      stored setup.dependencies
        (record (t.run) { updated_at = setup.dependencies.now t.shared.runs.readings })
        t.shared.runs

  -- The end of a turn, with a plan service. If the run has no current plan, or one that is not
  -- completed, the turn fails with the error of that and nothing at all is written. If the plan is
  -- completed and neither the run of the turn nor the stored one is cancelled, the run is completed, in
  -- the turn and in the repository, and its log gains exactly one event, that it is finished.
  pub finish_run-Ends :
      (t : Turn W) (plans : PlanService.Service)
      → t.shared.plans ≡ some plans
      → Ends t plans (finish_run setup t)
  unfolding finish_run ◌>>=◌ get_run on_plans on_plans_of save on_runs assign_run saved log
  finish_run-Ends t plans there = record {
    without_plan = λ e missing. rw (there, missing, get_current-service t plans);
    unfinished = λ plan found other. rw (there, found, other, get_current-service t plans);
    completes = λ plan stands found done stored_run live running.
        let d = setup.dependencies in
        let run' : AgentRun = record (t.run) { updated_at = d.now t.shared.runs.readings } in
        let (s', e, completes, stands', logged, finishes) =
          complete_run-live d t.run run' (saved t) (stored-found d run' t.shared.runs) running in
        rw
          (
            there,
            found,
            done,
            get_current-service t plans,
            save_run-live d t.run stands t.shared.runs stored_run live,
            completes,
          )
          (
            refl,
            record {
              time = d.now (saved t).readings;
              turn_run = refl;
              stored_run = stands';
              finished = e;
              logged = logged;
              is_finished = finishes;
            },
          );
  }

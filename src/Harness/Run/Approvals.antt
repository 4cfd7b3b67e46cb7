-- ===== src/Harness/Run/Approvals.antt =====
-- The approval of a generation by the user's answer (Resume of internal/harness/harness.go).
use ai_web_testing.Prelude.{
  String, ◌≡◌, refl, ◌∙◌, Option, none, some, ℤ, Result, ok, err, proceed, relabelled, ◌>>=◌, ◌>>◌,
}
use ai_web_testing.AgentService.Types.{AgentRun}
use ai_web_testing.TaskPlan.Types as Plans
use ai_web_testing.TaskPlan.Service as PlanService
use ai_web_testing.Harness.State.{
  Turn, TurnAction, Setup, Error, no_generation, of_plans, on_plans, on_plans_of, get_run, set_run,
}
use ai_web_testing.Harness.Run.{approve_generation, approve_latest, is_planned}

module _ {W : Type 0} (setup : Setup W) where
  -- The plan service approved the generation of the run, and the run has it as approved.
  pub record IsApproved (plans : PlanService.Service) (before after : AgentRun) : Type 0 where
    pub generation : ℤ
    pub latest : before.latest_generation_id ≡ some generation
    pub accepted : (PlanService.approve setup.contract before.id generation plans).0 ≡ ok tt
    pub approved : after.approved_generation_id ≡ some generation

  abbrev set_approved : AgentRun → TurnAction W (Unit {0})
  set_approved run = set_run (record run { approved_generation_id = run.latest_generation_id })

  -- after the answer of the plan service
  set_after :
      (r : Result Error (Unit {0})) (t : Turn W) (run : AgentRun)
      → (proceed (λ _. set_approved run) r t).0 ≡ ok tt
      → (proceed (λ _. set_approved run) r t).1.run.approved_generation_id
        ≡ run.latest_generation_id
  unfolding set_run
  set_after (ok done) t run h = refl
  set_after (err e) t run h = cc

  accepted_by :
      (plans : PlanService.Service) (r : Result Plans.Error (Unit {0}) × PlanService.Service)
      (t : Turn W) (rest : Option (Unit {0}) → TurnAction W (Unit {0}))
      (last : Unit {0} → TurnAction W (Unit {0}))
      → (proceed last
          (proceed rest
            (on_plans_of (relabelled of_plans (λ s. r)) (some plans) t).0
            (on_plans_of (relabelled of_plans (λ s. r)) (some plans) t).1).0
          (proceed rest
            (on_plans_of (relabelled of_plans (λ s. r)) (some plans) t).0
            (on_plans_of (relabelled of_plans (λ s. r)) (some plans) t).1).1).0
        ≡ ok tt
      → r.0 ≡ ok tt
  unfolding on_plans_of
  accepted_by plans (ok done, plans') t rest last h = refl
  accepted_by plans (err e, plans') t rest last h = cc

  by_latest :
      (t : Turn W) (plans : PlanService.Service) (tool_call_id : String) (latest : Option ℤ)
      → t.shared.plans ≡ some plans
      → t.run.latest_generation_id ≡ latest
      → ((approve_latest setup tool_call_id latest >> set_approved t.run) t).0 ≡ ok tt
      → IsApproved plans t.run
          ((approve_latest setup tool_call_id latest >> set_approved t.run) t).1.run
  unfolding ◌>>=◌ is_planned get_run on_plans
  by_latest t plans tool_call_id none there same h = absurd (cc (rw there at h))
  by_latest t plans tool_call_id (some generation) there same h = record {
    generation = generation;
    latest = same;
    accepted =
        accepted_by plans (PlanService.approve setup.contract t.run.id generation plans) t _ _
          (rw there at h);
    approved = set_after _ _ t.run h ∙ same;
  }

  unplanned :
      (t : Turn W) (tool_call_id : String) (latest : Option ℤ)
      → t.shared.plans ≡ none
      → (approve_latest setup tool_call_id latest >> set_approved t.run) t ≡ (
        ok tt,
        record t { run = record (t.run) { approved_generation_id = t.run.latest_generation_id } },
      )
  unfolding ◌>>=◌ is_planned get_run set_run on_plans on_plans_of
  unplanned t tool_call_id none there = rw there
  unplanned t tool_call_id (some generation) there = rw there

  pub approve_generation_lem :
      (t : Turn W) (tool_call_id : String)
      → (t.shared.plans ≡ none
          → approve_generation setup tool_call_id t ≡ (
            ok tt,
            record t {
              run = record (t.run) { approved_generation_id = t.run.latest_generation_id };
            },
          ))
        × ((plans : PlanService.Service)
            → t.shared.plans ≡ some plans
            → (t.run.latest_generation_id ≡ none
                → approve_generation setup tool_call_id t ≡ (err no_generation, t))
              × ((approve_generation setup tool_call_id t).0 ≡ ok tt
                  → IsApproved plans t.run (approve_generation setup tool_call_id t).1.run))
  unfolding approve_generation ◌>>=◌ get_run on_plans is_planned
  approve_generation_lem t tool_call_id = (
    unplanned t tool_call_id t.run.latest_generation_id,
    λ plans there. (
      λ missing. rw (missing, there),
      by_latest t plans tool_call_id t.run.latest_generation_id there refl,
    ),
  )

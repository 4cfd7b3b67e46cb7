-- ===== src/Harness/Turn/Gated.antt =====
-- The gates before the execution of a tool (continueRun of internal/harness/harness.go).
use ai_web_testing.Prelude.{
  proceed, sym, String, Bool, false, ◌≡◌, refl, Option, none, some, List, [], ◌∷◌, All,
  if◌then◌else◌, Bool-cases, inl, inr, Result, ok, err, attempt, relabelled, Keeps, Keeps-bind,
  Keeps-if, Keeps-return, Leads, Leads-bind, Leads-bind-Keeps, keeps_rules, ◌>>=◌, ◌>>◌,
}
use ai_web_testing.AgentService.Types.{AgentRun, ModelTool}
use ai_web_testing.TaskPlan.Types as Plans
use ai_web_testing.TaskPlan.Types.{Plan}
use ai_web_testing.TaskPlan.Memory
use ai_web_testing.TaskPlan.Service as PlanService
use ai_web_testing.TaskPlan.Authorize.{authorize}
use ai_web_testing.Agent.Types.{is_exploration_tool}
use ai_web_testing.Agent.Loop.{ModelResponse}
use ai_web_testing.Harness.Policy.{PolicyError, before_tool_call}
use ai_web_testing.Harness.State.{
  Execution, Turn, TurnAction, Setup, Error, of_plans, on_plans, on_plans_of, get_run,
}
use ai_web_testing.Harness.Records.{find_plan}
use ai_web_testing.Harness.Trace.{ToolTraceIdentity}
use ai_web_testing.Harness.Turn.{
  execute_tool, after_policy, policy_plan, after_authorization, handle_call, handle_calls,
  handle_response, say, answer,
}
use ai_web_testing.Harness.Turn.Frames.{
  IgnoresRuns, IgnoresServices, IgnoresState, Keeps-trace, Keeps-on_runs, Keeps-find_plan,
  Keeps-new_tool_trace_identity, Keeps-record_tool_start, Keeps-record_message,
}
use ai_web_testing.Harness.Turn.Steps.{Keeps-refuse_call, after_execution-Keeps, Keeps-finish_run}

module _ {W : Type 0} (setup : Setup W) where
  abbrev value_of : Result Plans.Error Plan → Option Plan
  value_of (ok plan) = some plan
  value_of (err e) = none

  -- The plan that the policy must be shown: the current one, for an exploration.
  unfoldable pub seen_plan : AgentRun → ModelTool → Option PlanService.Service → Option Plan
  seen_plan run call none = none
  seen_plan run call (some plans) =
      if is_exploration_tool call.name
      then value_of (PlanService.get_current setup.contract run.id plans).0
      else none

  -- When the call was executed, the plan service authorised it, if there is one, and the policy let it
  -- pass, for the run and the plan of that moment.
  pub record IsGated (x : Execution) : Type 0 where
    pub authorized :
        (plans : PlanService.Service)
        → x.plans ≡ some plans
        → (authorize setup.contract x.run.id x.call.name x.call.arguments plans).0 ≡ ok tt
    pub allowed :
        before_tool_call setup.environment setup.exploration x.run x.call
          (seen_plan x.run x.call x.plans)
        ≡ none

  abbrev pub AllGated : Turn W → Type 0
  AllGated t = All IsGated t.executed

  AllGated-IgnoresRuns : IgnoresRuns AllGated
  AllGated-IgnoresRuns = record { runs = λ t runs before. before }

  AllGated-IgnoresServices : IgnoresServices AllGated
  AllGated-IgnoresServices = record {
    runs = AllGated-IgnoresRuns;
    plans = λ t plans before. before;
    active = λ t active_runs before. before;
  }

  AllGated-IgnoresState : IgnoresState AllGated
  AllGated-IgnoresState = record {
    services = AllGated-IgnoresServices;
    run = λ t run before. before;
  }

  abbrev execution_of : ModelTool → Turn W → Execution
  execution_of call t = record { run = t.run; call = call; plans = t.shared.plans }

  -- The call may be executed now.
  abbrev IsReady : ModelTool → Turn W → Type 0
  IsReady call t = AllGated t × IsGated (execution_of call t)

  IsReady-IgnoresRuns : (call : ModelTool) → IgnoresRuns (IsReady call)
  IsReady-IgnoresRuns call = record { runs = λ t runs before. before }

  find_plan-AllGated : Keeps AllGated (find_plan setup)
  find_plan-AllGated = Keeps-find_plan AllGated-IgnoresServices setup

  module _ (step_id : String) (call : ModelTool) (identity : ToolTraceIdentity) where
    execute_tool-AllGated : Leads (IsReady call) AllGated (execute_tool setup call)
    unfolding execute_tool
    execute_tool-AllGated = record { at = λ t ready. (ready.1, ready.0) }

    passed-AllGated : Leads (IsReady call) AllGated (after_policy setup step_id call identity none)
    unfolding after_policy
    passed-AllGated =
        Leads-bind _ _ (Keeps-trace (IsReady-IgnoresRuns call) setup step_id call identity _ _)
          (λ _.
            Leads-bind _ _ (Keeps-trace (IsReady-IgnoresRuns call) setup step_id call identity _ _)
              (λ _.
                Leads-bind-Keeps _ _ execute_tool-AllGated
                  (after_execution-Keeps AllGated-IgnoresState setup step_id call identity))
              (λ t ready. ready.0))
          (λ t ready. ready.0)

    -- The policy's answer on the plan that it must be shown.
    after_policy-AllGated :
        (t : Turn W) (refusal : Option PolicyError)
        → AllGated t
        → (refusal ≡ none → IsGated (execution_of call t))
        → AllGated (after_policy setup step_id call identity refusal t).1
    after_policy-AllGated t none gated ready = passed-AllGated.at t (gated, ready refl)
    after_policy-AllGated t (some refusal) gated ready =
        unfold after_policy in
        (Keeps-refuse_call AllGated-IgnoresState setup step_id call identity _ _ _).at t gated

    abbrev judged : Option Plan → TurnAction W Bool
    judged plan = do
      run ← get_run
      after_policy setup step_id call identity
          (before_tool_call setup.environment setup.exploration run call plan)

    -- The plan that the handler shows the policy is the one that it must be shown.
    judged-AllGated :
        (t : Turn W) (r : Result Error (Option Plan))
        → AllGated t
        → ((plan : Option Plan)
            → r ≡ ok plan
            → before_tool_call setup.environment setup.exploration t.run call plan ≡ none
            → IsGated (execution_of call t))
        → AllGated (proceed judged r t).1
    unfolding ◌>>=◌ get_run
    judged-AllGated t (err e) gated ready = gated
    judged-AllGated t (ok plan) gated ready = after_policy-AllGated t _ gated (ready plan refl)

    abbrev with_plans : Option PlanService.Service → Turn W → Turn W
    with_plans plans t = record t { shared = record (t.shared) { plans = plans } }

    policy_plan-none :
        (t : Turn W) → policy_plan setup call (with_plans none t) ≡ (ok none, with_plans none t)
    unfolding ◌>>=◌ get_run on_plans on_plans_of
    policy_plan-none t = elim (Bool-cases (is_exploration_tool call.name)) [
      | inl p ↦ rw p
      | inr p ↦ rw p
    ]

    unplanned-AllGated :
        (t : Turn W)
        → AllGated t
        → AllGated (after_authorization setup step_id call identity none (with_plans none t)).1
    unfolding after_authorization ◌>>=◌ seen_plan
    unplanned-AllGated t gated = rw (policy_plan-none t) (
        judged-AllGated (with_plans none t) (ok none) gated (λ plan same passed.
          let known : none ≡ plan = cc same in
          record { authorized = λ plans there. cc there; allowed = rw (sym known) at passed }))

    abbrev answer_of : Result Plans.Error Plan → Result Error (Option Plan)
    answer_of (ok plan) = ok (some plan)
    answer_of (err e) = err (of_plans e)

    abbrev policy_answer : AgentRun → PlanService.Service → Result Error (Option Plan)
    policy_answer run plans =
        if is_exploration_tool call.name
        then answer_of (PlanService.get_current setup.contract run.id plans).0
        else ok none

    answered :
        (t : Turn W) (plans : PlanService.Service)
        (r : Result Plans.Error Plan × PlanService.Service)
        → on_plans_of (relabelled of_plans (λ s. r)) (some plans) t
          ≡ (answer_of r.0, with_plans (some r.1) t)
    unfolding on_plans_of
    answered t plans (ok plan, plans') = refl
    answered t plans (err e, plans') = refl

    policy_plan-some :
        (t : Turn W) (plans : PlanService.Service)
        → policy_plan setup call (with_plans (some plans) t)
          ≡ (policy_answer t.run plans, with_plans (some plans) t)
    unfolding ◌>>=◌ get_run on_plans on_plans_of PlanService.get_current PlanService.on_repository
        Memory.get_current
    policy_plan-some t plans = elim (Bool-cases (is_exploration_tool call.name)) [
      | inl p ↦ rw p (answered t plans (PlanService.get_current setup.contract t.run.id plans))
      | inr p ↦ rw p
    ]

    answer-seen :
        (run : AgentRun) (plans : PlanService.Service) (plan : Option Plan)
        → policy_answer run plans ≡ ok plan
        → seen_plan run call (some plans) ≡ plan
    unfolding seen_plan
    answer-seen run plans plan h = elim (Bool-cases (is_exploration_tool call.name)) [
      | inl p ↦
          rw p (value_of-answer (PlanService.get_current setup.contract run.id plans).0 (rw p at h))
      | inr p ↦ rw p (cc (rw p at h))
    ]
      where
        value_of-answer : (r : Result Plans.Error Plan) → answer_of r ≡ ok plan → value_of r ≡ plan
        value_of-answer (ok plan') h' = cc h'
        value_of-answer (err e) h' = cc h'

    authorized-AllGated :
        (t : Turn W) (plans : PlanService.Service) (r : Result Plans.Error (Unit {0}))
        → AllGated t
        → (authorize setup.contract t.run.id call.name call.arguments plans).0 ≡ r
        → AllGated
            (after_authorization setup step_id call identity (some r) (with_plans (some plans) t)).1
    unfolding after_authorization ◌>>=◌
    authorized-AllGated t plans (err e) gated h =
        (Keeps-refuse_call AllGated-IgnoresState setup step_id call identity _ _ _).at
          (with_plans (some plans) t) gated
    authorized-AllGated t plans (ok done) gated h = rw (policy_plan-some t plans) (
        judged-AllGated (with_plans (some plans) t) (policy_answer t.run plans) gated
          (λ plan same passed. record {
            authorized = λ plans' there. let equal : plans ≡ plans' = cc there in rw (sym equal) h;
            allowed = rw (answer-seen t.run plans plan same) passed;
          }))

    abbrev gates : TurnAction W Bool
    gates = do
      run ← get_run
      authorized ← on_plans (attempt (authorize setup.contract run.id call.name call.arguments))
      after_authorization setup step_id call identity authorized

    gates_at :
        (t : Turn W) (plans : Option PlanService.Service)
        → AllGated t
        → AllGated (gates (with_plans plans t)).1
    unfolding ◌>>=◌ get_run on_plans on_plans_of authorize PlanService.on_repository
        Memory.get_current
    gates_at t none gated = unplanned-AllGated t gated
    gates_at t (some plans) gated = authorized-AllGated t plans _ gated refl

    gates-AllGated : Keeps AllGated gates
    gates-AllGated = record { at = λ t gated. gates_at t t.shared.plans gated }

  handle_call-AllGated : (call : ModelTool) → Keeps AllGated (handle_call setup call)
  unfolding handle_call
  handle_call-AllGated call =
      search
        (
          keeps_rules,
          Keeps-on_runs AllGated-IgnoresRuns,
          find_plan-AllGated,
          Keeps-new_tool_trace_identity AllGated-IgnoresRuns setup,
          Keeps-trace AllGated-IgnoresRuns setup,
          Keeps-record_tool_start AllGated-IgnoresRuns setup,
          gates-AllGated,
        )
        depth 12

  handle_calls-AllGated : (calls : List ModelTool) → Keeps AllGated (handle_calls setup calls)
  unfolding handle_calls
  handle_calls-AllGated [] = search keeps_rules
  handle_calls-AllGated (call ∷ calls) =
      Keeps-bind _ _ (handle_call-AllGated call)
        (λ again. Keeps-if again _ _ (λ _. Keeps-return false) (λ _. handle_calls-AllGated calls))

  answer-AllGated : (calls : List ModelTool) → Keeps AllGated (answer setup calls)
  unfolding answer
  answer-AllGated [] = Keeps-finish_run AllGated-IgnoresState setup
  answer-AllGated (call ∷ calls) = handle_calls-AllGated (call ∷ calls)

  -- A turn of the harness hands a call to the tools only if the plan service, when there is one, had
  -- authorised it and the policy had let it pass, for the run and the plans as they are at that moment;
  -- whatever the model asks for, and whether the turn succeeds or fails.
  pub handle_response-AllGated :
      (response : ModelResponse) (t : Turn W)
      → AllGated t
      → AllGated (handle_response setup response t).1
  unfolding handle_response
  handle_response-AllGated response t gated = kept.at t gated
    where
      kept : Keeps AllGated (say setup response.content >> answer setup response.tool_calls)
      kept =
          search (keeps_rules, Keeps-record_message AllGated-IgnoresServices setup, answer-AllGated)
            depth 9

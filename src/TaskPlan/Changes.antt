-- ===== src/TaskPlan/Changes.antt =====
-- How a plan changes (internal/taskplan/service.go): the part of each method of the service that lies
-- between reading the current plan and saving it, as a function on plans.
pub mod Follows
pub mod Advances
pub mod Progress
use ai_web_testing.Prelude.{
  ◌+◌, String, Bool, true, false, not, ◌&&◌, ◌||◌, Option, none, some, List, [], ◌∷◌, ◌++◌, map,
  any, all, if◌then◌else◌, ◌==◌, contains, below, int_eq, ℤ, Dict, lookup, Result, ok, err,
}
use ai_web_testing.Prelude.Results.{◌>>=◌}
use ai_web_testing.AgentService.Types.{Json}
use ai_web_testing.TaskPlan.Types.{
  Status, grounding, ready_for_generation, awaiting_approval, approved, executing, completed,
  failed, blocked, superseded, step_pending, step_grounded, SideEffect, no_effect, browser_state,
  external_state, unknown, other, is_grounded, Step, Plan, EvidenceRef, TargetBinding, Error,
  step_disappeared, invalid_flow_arguments, no_generation_id, no_report_status, no_strategy,
  approval_mismatch,
}
use ai_web_testing.TaskPlan.Rules.{normalize, equal_strings, requires_target_binding}
use ai_web_testing.TaskPlan.Window.{step_by_id, contiguous_pending_steps, plan_step_ids}
use ai_web_testing.TaskPlan.Contract.{Contract, FlowRequest}
use ai_web_testing.TaskPlan.Probe.{
  Owners, ActionKey, owner_of, map_probe_action_owners, successful_flow_actions,
  successful_exploration_evidence, result_contains_step_evidence,
}

abbrev pub has_binding : Option TargetBinding → Bool
has_binding none = false
has_binding (some b) = true

unfoldable pub all_grounded : List Step → Bool
all_grounded = all (λ step.
    is_grounded step.status
    && not (requires_target_binding step.action && not (has_binding step.target_binding)))

-- assigning to the step with the index that planStepIndex gives
unfoldable pub set_step : Step → List Step → List Step
set_step step [] = []
set_step step (old ∷ steps) =
    let later = set_step step steps in if old.id == step.id then step ∷ steps else old ∷ later

-- What an exploration has found, by the names of RecordToolResult.
pub record Findings : Type 0 where
  pub is_flow : Bool
  pub evidence : List Json
  pub grounded_actions : List String
  pub target_bindings : Dict TargetBinding
  pub reference : EvidenceRef

abbrev pub is_member : String → List String → Bool
is_member s ss = any (λ t. t == s) ss

abbrev keep_or : Option TargetBinding → Option TargetBinding → Option TargetBinding
keep_or none old = old
keep_or (some b) old = some b

unfoldable pub ground_step : Findings → Step → Step
ground_step found step = record step {
  status = step_grounded;
  grounding_attempts = step.grounding_attempts + 1;
  target_binding = keep_or (lookup step.id found.target_bindings) step.target_binding;
  evidence = step.evidence ++ found.reference ∷ [];
}

abbrev pending_again : Step → Step
pending_again step = record step { status = step_pending }

set_all_pending : List Step → List Step
set_all_pending steps = map pending_again steps

module _ (c : Contract) where
  -- the three tests that end the loop
  unfoldable pub is_proved : Findings → Step → Bool
  is_proved found step =
      let acted = is_member step.id found.grounded_actions in
      not (found.is_flow && (step.action == "click" || step.action == "input") && not acted)
      && not (not (result_contains_step_evidence c found.evidence step) && not acted)
      && not (
          requires_target_binding step.action
          && not (has_binding (lookup step.id found.target_bindings)))

  -- the loop over the pending steps
  unfoldable pub ground_steps : Findings → List Step → List Step → Result Error (List Step)
  ground_steps found [] steps = ok steps
  ground_steps found (pending ∷ rest) steps = elim (step_by_id steps pending.id) [
    | none ↦ err (step_disappeared pending.id)
    | some step ↦ elim (is_proved found step) [
      | true ↦ ground_steps found rest (set_step (ground_step found step) steps)
      | false ↦ ok steps
    ]
  ]

  -- the owners of the actions that succeeded
  owned : Owners → List ActionKey → List String
  owned owners [] = []
  owned owners (key ∷ keys) =
      let later = owned owners keys in
      if owner_of owners key == "" then later else owner_of owners key ∷ later

  flow_owners : Plan → List Step → Option FlowRequest → Result Error Owners
  flow_owners plan pending none = err invalid_flow_arguments
  flow_owners plan pending (some request) = map_probe_action_owners c plan pending request

  flow_findings : Plan → String → EvidenceRef → Owners → Findings
  unfolding owned
  flow_findings plan result reference owners = record {
    is_flow = true;
    evidence = successful_exploration_evidence c (c.exploration result);
    grounded_actions = owned owners (successful_flow_actions c (c.flow_outcomes result));
    target_bindings = c.flow_bindings plan owners result;
    reference = reference;
  }

  page_findings : Plan → List Step → String → EvidenceRef → Findings
  page_findings plan pending result reference = record {
    is_flow = false;
    evidence = successful_exploration_evidence c (c.exploration result);
    grounded_actions = [];
    target_bindings = c.page_bindings plan pending result;
    reference = reference;
  }

  findings : Plan → List Step → Bool → String → String → EvidenceRef → Result Error Findings
  unfolding flow_owners flow_findings page_findings
  findings plan pending true arguments result reference = do
    owners ← flow_owners plan pending (c.flow_request arguments)
    ok (flow_findings plan result reference owners)
  findings plan pending false arguments result reference =
      ok (page_findings plan pending result reference)

  -- the case "explore_page", "explore_flow" of RecordToolResult
  unfoldable pub record_exploration : Plan → String → String → String → ℤ → Result Error Plan
  unfolding findings
  record_exploration plan tool arguments result event_seq = do
    ids ← plan_step_ids (c.plan_step_ids arguments)
    pending ← contiguous_pending_steps plan.steps ids
    found ←
        findings plan pending (tool == "explore_flow") arguments result
          (record { tool = tool; event_seq = event_seq; content_sha256 = c.sha256 result })
    steps ← ground_steps found pending plan.steps
    ok (record plan {
      steps = steps;
      status = if all_grounded steps then ready_for_generation else plan.status;
    })

  -- the switch on the strategy of fix_and_retry, after the binding was dropped
  apply_strategy : Plan → String → Plan
  unfolding set_all_pending
  apply_strategy plan strategy =
      if strategy == "re_explore"
      then record plan { status = grounding; steps = set_all_pending plan.steps }
      else if strategy == "regenerate_dsl"
      then record plan { status = ready_for_generation }
      else if strategy == "wait_execution"
      then record plan { status = executing }
      else record plan { status = blocked }

  apply_report : Plan → String → Plan
  apply_report plan status =
      if status == "passed"
      then record plan { status = completed }
      else if status == "failed" || status == "cancelled" || status == "needs_intervention"
      then record plan { status = failed }
      else plan

  record_generation : Plan → Option ℤ → Result Error Plan
  record_generation plan none = err no_generation_id
  record_generation plan (some id) =
      if below id 1
      then err no_generation_id
      else ok (record plan { bound_generation_id = some id; status = awaiting_approval })

  record_report : Plan → Option String → Result Error Plan
  unfolding apply_report
  record_report plan none = err no_report_status
  record_report plan (some status) = ok (apply_report plan status)

  record_strategy : Plan → Option String → Result Error Plan
  unfolding apply_strategy
  record_strategy plan none = err no_strategy
  record_strategy plan (some strategy) =
      ok (apply_strategy (record plan { bound_generation_id = none }) strategy)

  -- the switch of RecordToolResult
  unfoldable pub record_result : Plan → String → String → String → ℤ → Result Error Plan
  unfolding record_generation record_report record_strategy
  record_result plan tool arguments result event_seq =
      if tool == "explore_page" || tool == "explore_flow"
      then record_exploration plan tool arguments result event_seq
      else if tool == "generate_dsl"
      then record_generation plan (c.generation_id result)
      else if tool == "execute_dsl"
      then ok (record plan { status = executing })
      else if tool == "get_report"
      then record_report plan (c.report_status result)
      else if tool == "fix_and_retry"
      then record_strategy plan (c.strategy result)
      else ok plan

  abbrev mentions : String → Step → Bool
  mentions normalized step =
      not (step.target == "") && contains normalized (normalize c.lower step.target)

  reset_steps : String → List Step → List Step
  unfolding set_all_pending
  reset_steps normalized steps =
      if any (mentions normalized) steps
      then map
          (λ step. if mentions normalized step then record step { status = step_pending } else step)
          steps
      else set_all_pending steps

  -- the switch of RecordToolFailure
  unfoldable pub record_failure : Plan → String → String → Plan
  unfolding reset_steps
  record_failure plan tool message =
      let normalized = normalize c.lower message in
      if tool == "generate_dsl"
      then (if contains normalized "locator preflight"
            || contains normalized "matched 0 elements"
            || contains normalized "evidence"
          then record plan { status = grounding; steps = reset_steps normalized plan.steps }
          else plan)
      else if tool == "execute_dsl"
      then record plan { status = failed }
      else plan

abbrev pub is_awaiting : Status → Bool
is_awaiting awaiting_approval = true
is_awaiting _ = false

abbrev pub is_bound_to : ℤ → Option ℤ → Bool
is_bound_to id none = false
is_bound_to id (some bound) = int_eq bound id

-- the test and the change of Approve
unfoldable pub approve_plan : Plan → ℤ → Result Error Plan
approve_plan plan generation_id =
    if is_awaiting plan.status && is_bound_to generation_id plan.bound_generation_id
    then ok (record plan { status = approved })
    else err approval_mismatch

abbrev pub is_over : Status → Bool
is_over completed = true
is_over superseded = true
is_over _ = false

-- markTerminal: `none` if the plan is left as it is
unfoldable pub end_plan : Status → Plan → Option Plan
end_plan status plan = if is_over plan.status then none else some (record plan { status = status })

abbrev pub same_effect : SideEffect → SideEffect → Bool
same_effect no_effect no_effect = true
same_effect browser_state browser_state = true
same_effect external_state external_state = true
same_effect unknown unknown = true
same_effect (other s) (other t) = s == t
same_effect _ _ = false

unfoldable pub same_step_semantics : Step → Step → Bool
same_step_semantics left right =
    left.action == right.action
    && left.target == right.target
    && left.value == right.value
    && left.trigger == right.trigger
    && left.context_key == right.context_key
    && int_eq left.timeout_ms right.timeout_ms
    && int_eq left.expected_occurrences right.expected_occurrences
    && left.idempotency == right.idempotency
    && same_effect left.side_effect right.side_effect
    && equal_strings left.preconditions right.preconditions
    && equal_strings left.completion_conditions right.completion_conditions

-- previousByID, where a later step hides an earlier one with its id
unfoldable pub last_by_id : List Step → String → Option Step
last_by_id [] id = none
last_by_id (step ∷ steps) id = elim (last_by_id steps id) [
  | some found ↦ some found
  | none ↦ (if step.id == id then some step else none)
]

carry_step : Option Step → Step → Step
carry_step none step = step
carry_step (some previous) step =
    if is_grounded previous.status && same_step_semantics previous step
    then record step {
      status = step_grounded;
      grounding_attempts = previous.grounding_attempts;
      evidence = previous.evidence;
      target_binding = keep_or previous.target_binding step.target_binding;
    }
    else step

unfoldable pub carry_forward_grounding : Plan → Plan → Plan
unfolding carry_step
carry_forward_grounding next previous =
    let steps = map (λ step. carry_step (last_by_id previous.steps step.id) step) next.steps in
    record next {
      steps = steps;
      status = if all_grounded steps then ready_for_generation else next.status;
    }

module _ (c : Contract) where
  rebound : Option TargetBinding → Step → Step × Bool
  rebound none step = (record step { target_binding = none; status = step_pending }, false)
  rebound (some binding) step = (record step { target_binding = some binding }, true)

  rebind_step : Plan → Option TargetBinding → Step → Step × Bool
  unfolding rebound
  rebind_step plan none step = (step, false)
  rebind_step plan (some binding) step =
      rebound
        (c.new_target_binding (record binding {
          plan_id = plan.id;
          plan_version = plan.version;
          plan_step_id = step.id;
        }))
        step

  rebind_steps : Plan → List Step → List Step × Bool
  rebind_steps plan [] = ([], false)
  rebind_steps plan (step ∷ steps) =
      let (step', changed) = rebind_step plan step.target_binding step in
      let (steps', others) = rebind_steps plan steps in (step' ∷ steps', changed || others)

  -- the plan after rebinding, and whether a binding changed
  unfoldable pub rebind_carried_target_bindings : Plan → Plan × Bool
  unfolding rebind_steps rebind_step
  rebind_carried_target_bindings plan =
      let (steps, changed) = rebind_steps plan plan.steps in
      (record plan { steps = steps }, changed)

-- ===== src/TaskPlan/Authorize/Preserved.antt =====
-- What the comparison of a DSL case with its plan establishes (validateCaseSemantics of
-- internal/taskplan/service.go).
use Prim.Native.String.{◌++◌}
use ai_web_testing.Prelude.{
  ℕ, ◌+◌, String, Bool, true, false, not, ◌≡◌, refl, some, List, [], ◌∷◌, ap, eq_iff, int_eq-eq,
  trim_space, length, nat_eq, Result, ok, arith,
}
use ai_web_testing.Prelude.Results.{◌>>=◌, reject_if}
use ai_web_testing.TaskPlan.Types.{
  Step, Plan, SideEffect, no_effect, browser_state, external_state, unknown, other, Error,
  wrong_step_count,
}
use ai_web_testing.TaskPlan.Rules.{normalize, forbidden}
use ai_web_testing.TaskPlan.Changes.{same_effect}
use ai_web_testing.TaskPlan.Contract.{Contract, CaseStep}
use ai_web_testing.TaskPlan.Authorize.{
  expanded_plan_steps, total_debt, preserves, check_case_step, check_case_steps,
  validate_case_semantics,
}

then_both :
    (b : Bool) (e : Error) (rest : Result Error (Unit {0}))
    → (reject_if b e >>= λ u. rest) ≡ ok tt
    → (b ≡ false) × (rest ≡ ok tt)
then_both true e rest h = absurd cc
then_both false e rest h = (refl, h)

same_effect-eq : (a b : SideEffect) → same_effect a b ≡ true → a ≡ b
same_effect-eq no_effect no_effect h = refl
same_effect-eq browser_state browser_state h = refl
same_effect-eq external_state external_state h = refl
same_effect-eq unknown unknown h = refl
same_effect-eq (other s) (other t) h = ap other ((eq_iff s t).0 h)
same_effect-eq _ _ h = absurd cc

-- The step of the case does what the plan's step says.
pub record DoesPlanned (c : Contract) (planned : Step) (step : CaseStep) : Type 0 where
  pub same_action : normalize c.lower step.action ≡ planned.action
  pub same_intent : normalize c.lower step.intent ≡ normalize c.lower planned.intent
  pub same_target : normalize c.lower step.target ≡ normalize c.lower planned.target
  pub same_value : trim_space step.value ≡ planned.value
  pub same_trigger : step.trigger ≡ planned.trigger
  pub same_context : step.context_key ≡ planned.context_key
  pub same_timeout : step.timeout_ms ≡ planned.timeout_ms
  pub same_idempotency : step.idempotency ≡ planned.idempotency
  pub same_side_effect : step.side_effect ≡ planned.side_effect

preserves-DoesPlanned :
    (c : Contract) (planned : Step) (step : CaseStep)
    → preserves c planned step ≡ true
    → DoesPlanned c planned step
unfolding preserves
preserves-DoesPlanned c planned step h = record {
  same_action = (eq_iff _ _).0 (ground (arith, h));
  same_intent = (eq_iff _ _).0 (ground (arith, h));
  same_target = (eq_iff _ _).0 (ground (arith, h));
  same_value = (eq_iff _ _).0 (ground (arith, h));
  same_trigger = (eq_iff _ _).0 (ground (arith, h));
  same_context = (eq_iff _ _).0 (ground (arith, h));
  same_timeout = int_eq-eq _ _ (ground (arith, h));
  same_idempotency = (eq_iff _ _).0 (ground (arith, h));
  same_side_effect = same_effect-eq _ _ (ground (arith, h));
}

module _ (c : Contract) (rules : List String) where
  -- The steps of the case are those of the plan, one for one, and none is forbidden.
  abbrev pub Agree : List Step → List CaseStep → Type 0
  Agree [] [] = Unit
  Agree (planned ∷ rest) (step ∷ steps) =
      DoesPlanned c planned step
      × (forbidden c.lower rules (step.action ++ " " ++ step.target ++ " " ++ step.intent) ≡ false)
      × Agree rest steps
  Agree _ _ = ⊥

  check_case_step-ok :
      (index : ℕ) (planned : Step) (step : CaseStep) (later : Result Error (Unit {0}))
      → (check_case_step c rules index planned step >>= λ u. later) ≡ ok tt
      → (preserves c planned step ≡ true)
        × (forbidden c.lower rules (step.action ++ " " ++ step.target ++ " " ++ step.intent)
            ≡ false)
        × (later ≡ ok tt)
  unfolding check_case_step
  check_case_step-ok index planned step later h = ground (arith, h)

  check_case_steps-Agree :
      (index owed : ℕ) (planned : List Step) (steps : List CaseStep)
      → check_case_steps c rules index planned steps ≡ ok tt
      → length steps + owed ≡ length planned
      → Agree planned steps
  unfolding check_case_steps
  check_case_steps-Agree index owed [] [] h p = tt
  check_case_steps-Agree index owed [] (step ∷ steps) h p = absurd (omega arith)
  check_case_steps-Agree index owed (planned ∷ rest) [] h p = absurd cc
  check_case_steps-Agree index owed (planned ∷ rest) (step ∷ steps) h p =
      let (kept, allowed, later) = check_case_step-ok index planned step _ h in
      (
        preserves-DoesPlanned c planned step kept,
        allowed,
        check_case_steps-Agree (index + 1) owed rest steps later (omega (arith, p)),
      )

-- If a DSL case passes the comparison with its plan, its steps are exactly the plan's steps in the
-- plan's order, each as often as it is expected to occur; each has the trigger, context key, timeout,
-- idempotency and side effect of its plan step, its normalized action, intent and target, and its
-- trimmed value; and none contains a forbidden action.
pub validate_case_semantics-Agree :
    (c : Contract) (plan : Plan) (steps : List CaseStep)
    → validate_case_semantics c plan (some steps) ≡ ok tt
    → Agree c plan.forbidden_actions (expanded_plan_steps plan.steps) steps
unfolding validate_case_semantics
validate_case_semantics-Agree c plan steps passed =
    let (counted, checked) =
      then_both
        (not
          (nat_eq (length steps + total_debt plan.steps) (length (expanded_plan_steps plan.steps))))
        (wrong_step_count (length steps))
        (check_case_steps c plan.forbidden_actions 0 (expanded_plan_steps plan.steps) steps)
        passed in
    check_case_steps-Agree c plan.forbidden_actions 0 (total_debt plan.steps)
      (expanded_plan_steps plan.steps) steps checked (ground (arith, counted))

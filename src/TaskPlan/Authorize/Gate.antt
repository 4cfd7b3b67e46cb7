-- ===== src/TaskPlan/Authorize/Gate.antt =====
-- The gate before execution (Authorize of internal/taskplan/service.go).
use ai_web_testing.Prelude.{
  lookup, String, true, ◌≡◌, ap, ◌∙◌, sym, Option, none, some, List, ℤ, int_eq-eq, Result, ok, err,
  arith,
}
use ai_web_testing.Prelude.Results.{OfOk}
use ai_web_testing.TaskPlan.Types.{approved, Plan, Error}
use ai_web_testing.TaskPlan.Contract.{Contract}
use ai_web_testing.TaskPlan.Memory
use ai_web_testing.TaskPlan.Memory.{new_memory_repository}
use ai_web_testing.TaskPlan.Memory.Versions.{get_current-All}
use ai_web_testing.TaskPlan.Changes.Follows.{is_approved}
use ai_web_testing.TaskPlan.Service.{on_repository}
use ai_web_testing.TaskPlan.Service.Session.{Command, new_service, perform_all, was_approved}
use ai_web_testing.TaskPlan.Service.Approval.{IsFine}
use ai_web_testing.TaskPlan.Service.Approval.Calls.{perform_all-Keeps}
use ai_web_testing.TaskPlan.Authorize.{
  status_rank, has_status, is_generation, authorize_tool, authorize_call, authorize,
}

has_status-approved :
    (plan : Plan) → has_status plan approved ≡ true → is_approved plan.status ≡ true
unfolding status_rank
has_status-approved plan h = ground (arith, h)

module _ (c : Contract) (run_id arguments : String) where
  -- What Authorize has compared before it lets an execution pass.
  execution_checks :
      (plan : Plan)
      → authorize_tool c plan "execute_dsl" arguments ≡ ok tt
      → (has_status plan approved ≡ true)
        × (is_generation c (c.generation_id arguments) plan.bound_generation_id ≡ true)
  unfolding authorize_tool
  execution_checks plan passed = ground (arith, passed)

  same_generation :
      (given bound : Option ℤ) {id : ℤ}
      → is_generation c given bound ≡ true
      → bound ≡ some id
      → given ≡ some id
  same_generation none bound h p = cc
  same_generation (some given) none h p = cc
  same_generation (some given) (some bound) h p = sym (ap some (int_eq-eq bound given h)) ∙ p

  module _ (Asked : String → ℤ → Type 0) where
    gate :
        (found : Result Error Plan)
        → OfOk (IsFine Asked run_id) found
        → authorize_call c "execute_dsl" arguments found ≡ ok tt
        → (id : ℤ) × (c.generation_id arguments ≡ some id) × Asked run_id id
    unfolding OfOk authorize_call
    gate (err e) fine passed = absurd (ground (arith, passed))
    gate (ok plan) fine passed =
        let (approved_now, matched) = execution_checks plan passed in
        let (id, bound, was_asked) = fine.asked (has_status-approved plan approved_now) in
        (
          id,
          same_generation (c.generation_id arguments) plan.bound_generation_id matched bound,
          was_asked,
        )

  -- If, after any calls on a new plan service, Authorize lets a run execute a generation, then that
  -- generation is one for which Approve was called in this run.
  pub execution_was_approved :
      (calls : List Command)
      → (authorize c run_id "execute_dsl" arguments (perform_all c calls new_service)).0 ≡ ok tt
      → (id : ℤ) × (c.generation_id arguments ≡ some id) × (was_approved run_id id calls ≡ true)
  unfolding authorize on_repository Memory.versions lookup
  execution_was_approved calls passed =
      let Asked : String → ℤ → Type 0 = λ k id. was_approved k id calls ≡ true in
      let fine = perform_all-Keeps Asked c calls (λ k id p. p) new_service (λ k. tt) in
      gate Asked _ (get_current-All (IsFine Asked) run_id _ fine) passed

-- ===== src/TaskPlan/Window.antt =====
-- The window of steps that an exploration may work on: planStepIDs and contiguousPendingSteps of
-- internal/taskplan/service.go.
pub mod Contiguous
use ai_web_testing.Prelude.{
  ℕ, suc, ◌+◌, String, Bool, false, not, Option, none, some, List, [], ◌∷◌, length, take, drop,
  nat_eq, ltb, if◌then◌else◌, ◌==◌, Result, ok, err,
}
use ai_web_testing.Prelude.Results.{◌>>◌, reject_if}
use ai_web_testing.TaskPlan.Types.{
  Step, is_grounded, Error, plan_step_ids_required, all_grounded_already, unexpected_first_step,
  too_many_steps, not_contiguous,
}

-- the index at which a loop with `break` stops
unfoldable pub first_index : (Step → Bool) → List Step → Option ℕ
first_index p [] = none
first_index p (step ∷ steps) =
    let later = first_index p steps in
    if p step then some 0 else elim later [ none ↦ none | some i ↦ some (suc i) ]

unfoldable pub step_by_id : List Step → String → Option Step
step_by_id [] id = none
step_by_id (step ∷ steps) id =
    let later = step_by_id steps id in if step.id == id then some step else later

abbrev pub is_at : Option ℕ → ℕ → Bool
is_at none n = false
is_at (some i) n = nat_eq i n

-- the loop over the submitted ids
unfoldable pub check_ids : List Step → List String → Result Error (Unit {0})
check_ids steps [] = ok tt
check_ids [] (id ∷ ids) = err too_many_steps
check_ids (step ∷ steps) (id ∷ ids) =
    let later = check_ids steps ids in
    if not (step.id == id) then err (not_contiguous step.id id) else later

window_at : Option ℕ → List Step → String → List String → Result Error (List Step)
window_at none steps id ids = err all_grounded_already
window_at (some first) steps id ids = do
  reject_if (not (is_at (first_index (λ step. step.id == id) steps) first)) unexpected_first_step
  reject_if (ltb (length steps) (first + length (id ∷ ids))) too_many_steps
  check_ids (drop first steps) (id ∷ ids)
  ok (take (length (id ∷ ids)) (drop first steps))

-- `ids` is never empty: planStepIDs refuses an empty list.
unfoldable pub contiguous_pending_steps : List Step → List String → Result Error (List Step)
unfolding window_at first_index check_ids
contiguous_pending_steps steps [] = err plan_step_ids_required
contiguous_pending_steps steps (id ∷ ids) =
    window_at (first_index (λ step. not (is_grounded step.status)) steps) steps id ids

abbrev some_ids : Option (List String) → Result Error (List String)
some_ids none = err plan_step_ids_required
some_ids (some []) = err plan_step_ids_required
some_ids (some (id ∷ ids)) = ok (id ∷ ids)

-- planStepIDs, on what the arguments decode to
unfoldable pub plan_step_ids : Option (List String) → Result Error (List String)
plan_step_ids decoded = some_ids decoded

-- ===== src/TaskPlan/Validate.antt =====
-- validateDefinition of internal/taskplan/service.go. The Go code rewrites the steps of the request
-- in place; here the cleaned definition is the result.
pub mod Ids
pub mod Parameters
pub mod Sound
use Prim.Native.Char.{Char}
use Prim.Native.String.{◌++◌}
use ai_web_testing.Prelude.{
  ℕ, ◌+◌, String, Bool, true, false, not, ◌&&◌, ◌||◌, List, [], ◌∷◌, any, if◌then◌else◌, ◌==◌,
  trim_space, text_le, pos, below, int_eq, int_lt, Result, ok, err,
}
use ai_web_testing.Prelude.Results.{◌>>=◌, ◌>>◌, reject_if}
use ai_web_testing.TaskPlan.Types.{
  SideEffect, StepDefinition, Definition, Error, goal_required, in_step, max_side_effect_invalid,
  no_steps, empty_forbidden_action, duplicate_forbidden_action, invalid_step_id, invalid_semantics,
  exceeds_max_side_effect, invalid_occurrence, violates_forbidden,
}
use ai_web_testing.TaskPlan.Rules.{
  normalize, forbidden, clean_strings, valid_action, side_effect_rank, valid_side_effect,
  matches_step_id, validate_action_parameters,
}

insert_sorted : String → List String → List String
insert_sorted s [] = s ∷ []
insert_sorted s (t ∷ ts) =
    let later = insert_sorted s ts in if text_le s t then s ∷ t ∷ ts else t ∷ later

unfoldable pub sort_strings : List String → List String
unfolding insert_sorted
sort_strings [] = []
sort_strings (s ∷ ss) = insert_sorted s (sort_strings ss)

-- fmt.Errorf("task plan step %q: %w", ...)
abbrev pub label_step : {A : Type 0} → String → Result Error A → Result Error A
label_step id (ok a) = ok a
label_step id (err e) = err (in_step id e)

abbrev pub occurs : String → List String → Bool
occurs s seen = any (λ t. t == s) seen

module _ (lower : Char → Char) where
  unfoldable pub clean_rules : List String → List String → Result Error (List String)
  clean_rules seen [] = ok []
  clean_rules seen (raw ∷ rest) =
      let rule = normalize lower raw in
      let later = clean_rules (rule ∷ seen) rest in
      if rule == ""
      then err empty_forbidden_action
      else if occurs rule seen
      then err duplicate_forbidden_action
      else do rules ← later; ok (rule ∷ rules)

  -- the assignments at the head of the loop over the steps
  unfoldable pub trim_step : StepDefinition → StepDefinition
  trim_step step = record step {
    id = trim_space step.id;
    intent = trim_space step.intent;
    action = normalize lower step.action;
    target = trim_space step.target;
    value = trim_space step.value;
    trigger = trim_space step.trigger;
    context_key = trim_space step.context_key;
  }

  abbrev default_occurrences : StepDefinition → StepDefinition
  default_occurrences step = record step {
    expected_occurrences =
        if int_eq step.expected_occurrences (pos 0) then pos 1 else step.expected_occurrences;
  }

  unfoldable pub clean_conditions : StepDefinition → StepDefinition
  clean_conditions step = record step {
    preconditions = clean_strings step.preconditions;
    completion_conditions = clean_strings step.completion_conditions;
  }

  -- the tests of one step, after it was trimmed and its occurrences have their default
  unfoldable pub check_step :
      SideEffect → List String → ℕ → List String → StepDefinition → Result Error (Unit {0})
  check_step max_side_effect rules index seen step = do
    reject_if (not (matches_step_id step.id) || occurs step.id seen) (invalid_step_id index)
    reject_if
        (step.intent == ""
          || not (valid_action step.action)
          || not (valid_side_effect step.side_effect))
        (invalid_semantics step.id)
    reject_if (int_lt (side_effect_rank max_side_effect) (side_effect_rank step.side_effect))
        (exceeds_max_side_effect step.id)
    reject_if
        (below step.expected_occurrences 1
          || not (step.idempotency == "idempotent") && not (step.idempotency == "non_idempotent"))
        (invalid_occurrence step.id)
    label_step step.id (validate_action_parameters step)
    reject_if (forbidden lower rules (step.action ++ " " ++ step.target ++ " " ++ step.intent))
        (violates_forbidden step.id)

  unfoldable pub validate_steps :
      SideEffect
      → List String
      → ℕ
      → List String
      → List StepDefinition
      → Result Error (List StepDefinition)
  validate_steps max_side_effect rules index seen [] = ok []
  validate_steps max_side_effect rules index seen (raw ∷ rest) =
      let step = default_occurrences (trim_step raw) in
      let later = validate_steps max_side_effect rules (index + 1) (step.id ∷ seen) rest in
      do
        check_step max_side_effect rules index seen step
        steps ← later
        ok (clean_conditions step ∷ steps)

  abbrev is_nil : List StepDefinition → Bool
  is_nil [] = true
  is_nil _ = false

  unfoldable pub validate_definition : Definition → Result Error Definition
  validate_definition source = do
    let goal = trim_space source.goal
    reject_if (goal == "") goal_required
    reject_if (not (valid_side_effect source.max_side_effect)) max_side_effect_invalid
    reject_if (is_nil source.steps) no_steps
    rules ← clean_rules [] source.forbidden_actions
    let sorted = sort_strings rules
    steps ← validate_steps source.max_side_effect sorted 0 [] source.steps
    ok (record source { goal = goal; forbidden_actions = sorted; steps = steps })
